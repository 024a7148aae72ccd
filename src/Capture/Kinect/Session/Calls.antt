-- ===== src/Capture/Kinect/Session/Calls.antt =====
-- The consumer keeps what holds in every state.
use cwipc.Common.{
  ℕ, ◌≡◌, ◌⊎◌, inl, inr, refl, ap, arith, Bool, true, false, not, ◌==◌, ◌&&◌, some, if◌then◌else◌,
}
use cwipc.Capture.{
  testing, Call, idle, asking_available, looking, asking, taking, asking_again, joining, destroying,
  gone, Devices, Event, turn, proceed, call_start, call_available, call_get, call_stop,
  call_destroy, has_thread, holds_lock,
}
use cwipc.Capture.Kinect.{
  Capture, free_merged, is_playing, request_new, take, stop_cameras, after_join, unload_cameras,
  start, joined, consumer_turn, begin,
}
use cwipc.Capture.Kinect.Tidy.{is_gone}
use cwipc.Capture.Kinect.Session.{IsLive, IsLive-if, needs_thread, is_taking}

-- What `_request_new_pointcloud` makes of the request.
requested : (want fresh : Bool) → Bool
requested want fresh = if not want && not fresh then true else want

requested_not : (want fresh : Bool) → fresh ≡ true → want ≡ false → requested want fresh ≡ false
unfolding requested
requested_not want fresh f w = ground arith

requested_still : (want fresh : Bool) → want ≡ true → requested want fresh ≡ true
unfolding requested
requested_still want fresh w = ground arith

requested_some : (want fresh : Bool) → (fresh ≡ true) ⊎ (requested want fresh ≡ true)
unfolding requested
requested_some true fresh = inr refl
requested_some false true = inl refl
requested_some false false = inr refl

module _ (s : Capture) (l : IsLive s) where
  request-IsLive :
      (c : Call)
      → needs_thread s.call ≡ true
      → is_gone s.call ≡ false
      → IsLive (record (request_new s) { call = c })
  unfolding requested
  request-IsLive c n g = record {
    quiet = λ h. let t = l.calling n in absurd (ground arith);
    over = l.over;
    stored = λ _ h. l.stored g h;
    offered =
        λ u h. (requested_not s.want_new s.is_fresh h (l.offered u h).0, λ _. (l.offered u h).1 g);
    busy = λ u h. requested_still s.want_new s.is_fresh (l.busy u h);
    calling = λ _. l.calling n;
    asked = λ u h. requested_some s.want_new s.is_fresh;
  }

  -- Only the call goes on.
  called :
      (c : Call)
      → is_gone s.call ≡ false
      → (needs_thread c ≡ true → has_thread s.control_thread ≡ true)
      → is_taking c ≡ false
      → IsLive (record s { call = c })
  called c g n t = record {
    quiet = l.quiet;
    over = l.over;
    stored = λ _ h. l.stored g h;
    offered = λ u h. ((l.offered u h).0, λ _. (l.offered u h).1 g);
    busy = l.busy;
    calling = n;
    asked = λ u h. absurd (ground arith);
  }

  taken :
      holds_lock s.control_thread ≡ false
      → needs_thread s.call ≡ true
      → IsLive (record (take s) { call = asking_again })
  taken lock n = record {
    quiet = λ h. let t = l.calling n in absurd (ground arith);
    over = l.over;
    stored = λ g h. absurd (ground arith);
    offered = λ u h. absurd (ground arith);
    busy = l.busy;
    calling = λ _. l.calling n;
    asked = λ u h. absurd (ground arith);
  }

  -- After the join there is nothing.
  unloaded : (s' : Capture) → s'.call ≡ idle → IsLive (after_join s')
  unloaded s' e = record {
    quiet = λ h. (refl, refl, refl);
    over = λ h. absurd (ground arith);
    stored = λ g h. absurd (ground arith);
    offered = λ u h. absurd (ground arith);
    busy = λ u h. absurd (ground arith);
    calling = λ h. let i = ap needs_thread e in absurd (ground arith);
    asked = λ u h. let i = ap is_taking e in absurd (ground arith);
  }

  destroyed : IsLive (record (free_merged (after_join s)) { call = gone })
  destroyed = record {
    quiet = λ h. (refl, refl, refl);
    over = λ h. absurd (ground arith);
    stored = λ g h. absurd (ground arith);
    offered = λ u h. absurd (ground arith);
    busy = λ u h. absurd (ground arith);
    calling = λ h. absurd (ground arith);
    asked = λ u h. absurd (ground arith);
  }

  destroyed_unopened : IsLive (record (free_merged s) { call = gone })
  destroyed_unopened = record {
    quiet = l.quiet;
    over = l.over;
    stored = λ g h. absurd (ground arith);
    offered = λ u h. ((l.offered u h).0, λ g. absurd (ground arith));
    busy = l.busy;
    calling = λ h. absurd (ground arith);
    asked = λ u h. absurd (ground arith);
  }

  stops :
      (c : Call)
      → (s.cameras == 0) ≡ false
      → is_gone s.call ≡ false
      → needs_thread c ≡ false
      → IsLive (record (stop_cameras s) { call = c })
  stops c opened_some g n = record {
    quiet = λ h. let q = (l.quiet h).0 in absurd (ground arith);
    over = λ h. refl;
    stored = λ _ h. l.stored g h;
    offered = λ u h. absurd (ground arith);
    busy = λ u h. refl;
    calling = λ h. absurd (ground arith);
    asked = λ u h. inl refl;
  }

  pub consumer_turn-IsLive : (c : Call) → s.call ≡ c → IsLive (consumer_turn c s)
  unfolding consumer_turn
  consumer_turn-IsLive asking_available e =
      IsLive-if (holds_lock s.control_thread) _ _ (λ h. l)
        (λ h. request-IsLive looking (ap needs_thread e) (ap is_gone e))
  consumer_turn-IsLive looking e =
      IsLive-if (holds_lock s.control_thread) _ _ (λ h. l)
        (λ h. called idle (ap is_gone e) (λ h. absurd (ground arith)) refl)
  consumer_turn-IsLive asking e =
      IsLive-if (holds_lock s.control_thread) _ _ (λ h. l)
        (λ h. request-IsLive taking (ap needs_thread e) (ap is_gone e))
  consumer_turn-IsLive taking e =
      IsLive-if (holds_lock s.control_thread) _ _ (λ h. l)
        (λ h. IsLive-if s.is_fresh _ _ (λ f. taken h (ap needs_thread e)) (λ f. l))
  consumer_turn-IsLive asking_again e =
      IsLive-if (holds_lock s.control_thread) _ _ (λ h. l)
        (λ h. request-IsLive idle (ap needs_thread e) (ap is_gone e))
  consumer_turn-IsLive joining e =
      IsLive-if (joined s.control_thread) _ _ (λ h. unloaded (record s { call = idle }) refl)
        (λ h. l)
  consumer_turn-IsLive destroying e =
      IsLive-if (s.cameras == 0) _ _ (λ h. destroyed_unopened)
        (λ h. IsLive-if (joined s.control_thread) _ _ (λ h. destroyed) (λ h. l))
  consumer_turn-IsLive idle e = l
  consumer_turn-IsLive gone e = l

  module _ (e : s.call ≡ idle) where
    reopened :
        (k : ℕ)
        → has_thread s.control_thread ≡ false
        → IsLive (unload_cameras (record s { cameras = k }))
    reopened k h =
        IsLive-if (k == 0) _ _
          (λ z. record {
            quiet = λ h. let q = l.quiet h in (ground arith, q.1, q.2);
            over = l.over;
            stored = l.stored;
            offered = l.offered;
            busy = l.busy;
            calling = l.calling;
            asked = l.asked;
          })
          (λ z. unloaded (stop_cameras (record s { cameras = k })) e)

    opened :
        (k : ℕ)
        → has_thread s.control_thread ≡ false
        → IsLive (record s { cameras = k; stopped = false; control_thread = some testing })
    opened k h = record {
      quiet = λ h. absurd (ground arith);
      over = λ h. absurd (ground arith);
      stored = λ g h. absurd (ground arith);
      offered = λ u f. let q = (l.quiet h).1 in absurd (ground arith);
      busy = λ u h. absurd (ground arith);
      calling = λ h. refl;
      asked = λ u h. let i = ap is_taking e in absurd (ground arith);
    }

    start-IsLive : (d : Devices) → IsLive (start d s)
    unfolding start
    start-IsLive d =
        IsLive-if (not s.is_initialized) _ _ (λ h. l)
          (λ h.
            IsLive-if (has_thread s.control_thread) _ _ (λ h. l)
              (λ h.
                IsLive-if (not d.hardware_ok) _ _ (λ _. l)
                  (λ _.
                    IsLive-if (not d.created_ok) _ _ (λ _. reopened d.camera_count h)
                      (λ _.
                        IsLive-if (not d.connected_ok) _ _ (λ _. reopened d.camera_count h)
                          (λ _. opened d.camera_count h)))))

    pub begin-IsLive : (ev : Event) → IsLive (begin ev s)
    unfolding begin
    begin-IsLive (turn a) = l
    begin-IsLive proceed = l
    begin-IsLive (call_start d) = start-IsLive d
    begin-IsLive call_available =
        IsLive-if (is_playing s) _ _ (λ h. called asking_available (ap is_gone e) (λ _. h) refl)
          (λ h. l)
    begin-IsLive call_get =
        IsLive-if (is_playing s) _ _ (λ h. called asking (ap is_gone e) (λ _. h) refl) (λ h. l)
    begin-IsLive call_stop =
        IsLive-if (s.cameras == 0) _ _ (λ h. l) (λ h. stops joining h (ap is_gone e) refl)
    begin-IsLive call_destroy =
        IsLive-if (s.cameras == 0) _ _
          (λ h. called destroying (ap is_gone e) (λ h. absurd (ground arith)) refl)
          (λ h. stops destroying h (ap is_gone e) refl)
