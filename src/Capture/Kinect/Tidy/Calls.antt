-- ===== src/Capture/Kinect/Tidy/Calls.antt =====
-- The consumer keeps the room for a new object.
use cwipc.Common.{
  ℕ, suc, ◌≡◌, ◌⊎◌, inl, inr, refl, sym, ap, ◌∙◌, arith, true, false, not, Bool-cases, none, some,
  ◌==◌,
}
use cwipc.Capture.{
  testing, Call, idle, asking_available, looking, asking, taking, asking_again, joining, destroying,
  gone, Devices, call_available, call_get, call_stop, call_destroy, has_thread, holds_lock,
}
use cwipc.Capture.Kinect.{
  Capture, free_merged, is_playing, request_new, take, stop_cameras, after_join, unload_cameras,
  start, joined, consumer_turn, begin,
}
use cwipc.Capture.Kinect.Tidy.{early, IsTidy, IsTidy-if, is_gone, not_gone}

module _ (n : ℕ) (s : Capture) (t : IsTidy n s) where
  -- The consumer does not touch the objects.
  calling :
      (s' : Capture)
      → s'.is_fresh ≡ s.is_fresh
      → s'.merged_pc ≡ s.merged_pc
      → s'.control_thread ≡ s.control_thread
      → (s'.call ≡ gone → s'.merged_pc ≡ none)
      → IsTidy n s'
  calling s' f m c g = record {
    once = t.once;
    room = λ h. elim (t.room (ap early (sym c) ∙ h)) [ inl e ↦ inl (f ∙ e) | inr e ↦ inr (m ∙ e) ];
    started = λ h. t.started (ap has_thread (sym c) ∙ h);
    not_started = λ h. elim (t.not_started (ap has_thread (sym c) ∙ h)) [
      | inl e ↦ inl e
      | inr e ↦ inr (m ∙ e)
    ];
    emptied = λ h. inr (g h);
  }

  -- The thread is gone where there is none or it has ended, and there is no room to care about.
  no_thread :
      (s' : Capture)
      → s'.control_thread ≡ none
      → (n ≡ 0) ⊎ (s'.merged_pc ≡ none)
      → (s'.call ≡ gone → s'.merged_pc ≡ none)
      → IsTidy n s'
  no_thread s' e h g = record {
    once = t.once;
    room = λ h'. let f : early s'.control_thread ≡ false = ap early e in absurd (ground arith);
    started = λ h'.
        let f : has_thread s'.control_thread ≡ false = ap has_thread e in absurd (ground arith);
    not_started = λ _. h;
    emptied = λ h'. inr (g h');
  }

  -- The merged point cloud is gone, whatever the thread does.
  emptying :
      (s' : Capture) → s'.merged_pc ≡ none → s'.control_thread ≡ s.control_thread → IsTidy n s'
  emptying s' m c = record {
    once = t.once;
    room = λ _. inr m;
    started = λ h. t.started (ap has_thread (sym c) ∙ h);
    not_started = λ _. inr m;
    emptied = λ _. inr m;
  }

  -- All starts are over once there is a thread.
  over : (n ≡ 0) ⊎ (s.merged_pc ≡ none)
  over = elim (Bool-cases (has_thread s.control_thread)) [
    | inl h ↦ inl (t.started h)
    | inr h ↦ t.not_started h
  ]

  pub consumer_turn-IsTidy : (c : Call) → IsTidy n (consumer_turn c s)
  unfolding consumer_turn
  consumer_turn-IsTidy asking_available =
      IsTidy-if n (holds_lock s.control_thread) _ _ t
        (calling (record (request_new s) { call = looking }) refl refl refl (not_gone refl))
  consumer_turn-IsTidy looking =
      IsTidy-if n (holds_lock s.control_thread) _ _ t
        (calling (record s { call = idle }) refl refl refl (not_gone refl))
  consumer_turn-IsTidy asking =
      IsTidy-if n (holds_lock s.control_thread) _ _ t
        (calling (record (request_new s) { call = taking }) refl refl refl (not_gone refl))
  consumer_turn-IsTidy taking =
      IsTidy-if n (holds_lock s.control_thread) _ _ t (
        IsTidy-if n s.is_fresh _ _ (emptying (record (take s) { call = asking_again }) refl refl) t)
  consumer_turn-IsTidy asking_again =
      IsTidy-if n (holds_lock s.control_thread) _ _ t
        (calling (record (request_new s) { call = idle }) refl refl refl (not_gone refl))
  consumer_turn-IsTidy joining =
      IsTidy-if n (joined s.control_thread) _ _
        (no_thread (record (after_join s) { call = idle }) refl over (not_gone refl)) t
  consumer_turn-IsTidy destroying =
      IsTidy-if n (s.cameras == 0) _ _ (emptying (record (free_merged s) { call = gone }) refl refl)
        (IsTidy-if n (joined s.control_thread) _ _
          (no_thread (record (free_merged (after_join s)) { call = gone }) refl (inr refl)
            (λ _. refl))
          t)
  consumer_turn-IsTidy idle = t
  consumer_turn-IsTidy gone = t

  -- Where the merged point cloud counts as fresh, there is room.
  freshened :
      (s' : Capture)
      → s'.is_fresh ≡ true
      → s'.merged_pc ≡ s.merged_pc
      → s'.control_thread ≡ s.control_thread
      → (s'.call ≡ gone → s'.merged_pc ≡ none)
      → IsTidy n s'
  freshened s' f m c g = record {
    once = t.once;
    room = λ _. inl f;
    started = λ h. t.started (ap has_thread (sym c) ∙ h);
    not_started = λ h. elim (t.not_started (ap has_thread (sym c) ∙ h)) [
      | inl e ↦ inl e
      | inr e ↦ inr (m ∙ e)
    ];
    emptied = λ h. inr (g h);
  }

  pub call_get-IsTidy : IsTidy n (begin call_get s)
  unfolding begin
  call_get-IsTidy =
      IsTidy-if n (is_playing s) _ _
        (calling (record s { call = asking }) refl refl refl (not_gone refl)) t

  pub call_available-IsTidy : IsTidy n (begin call_available s)
  unfolding begin
  call_available-IsTidy =
      IsTidy-if n (is_playing s) _ _
        (calling (record s { call = asking_available }) refl refl refl (not_gone refl)) t

  pub call_stop-IsTidy : IsTidy n (begin call_stop s)
  unfolding begin
  call_stop-IsTidy =
      IsTidy-if n (s.cameras == 0) _ _ t
        (freshened (record (stop_cameras s) { call = joining }) refl refl refl (not_gone refl))

  pub call_destroy-IsTidy : IsTidy n (begin call_destroy s)
  unfolding begin
  call_destroy-IsTidy =
      IsTidy-if n (s.cameras == 0) _ _
        (calling (record s { call = destroying }) refl refl refl (not_gone refl))
        (freshened (record (stop_cameras s) { call = destroying }) refl refl refl (not_gone refl))

-- The start is over.
module _ (n : ℕ) (s : Capture) (t : IsTidy (suc n) s) where
  no_more : n ≡ 0
  no_more = let h = t.once in omega arith

  pub skipped : IsTidy n s
  skipped = record {
    once = omega (arith, no_more);
    room = t.room;
    started = λ _. no_more;
    not_started = λ _. inl no_more;
    emptied = t.emptied;
  }

  unloaded : (k : ℕ) → s.call ≡ idle → IsTidy n (unload_cameras (record s { cameras = k }))
  unloaded k e =
      IsTidy-if n (k == 0) _ _
        (calling n s skipped (record s { cameras = k }) refl refl refl (not_gone (ap is_gone e)))
        (no_thread n s skipped (after_join (stop_cameras (record s { cameras = k }))) refl
          (inl no_more) (not_gone (ap is_gone e)))

  running :
      (d : Devices)
      → has_thread s.control_thread ≡ false
      → IsTidy n
          (record s { cameras = d.camera_count; stopped = false; control_thread = some testing })
  running d h = record {
    once = omega (arith, no_more);
    room = λ _. elim (t.not_started h) [ inl z ↦ absurd (omega arith) | inr m ↦ inr m ];
    started = λ _. no_more;
    not_started = λ _. inl no_more;
    emptied = λ _. inl refl;
  }

  pub start-IsTidy : (d : Devices) → s.call ≡ idle → IsTidy n (start d s)
  unfolding start
  start-IsTidy d e = elim (Bool-cases (has_thread s.control_thread)) [
    | inl h ↦ simp h (IsTidy-if n (not s.is_initialized) s s skipped skipped)
    | inr h ↦ simp h (
        IsTidy-if n (not s.is_initialized) _ _ skipped (
          IsTidy-if n (not d.hardware_ok) _ _ skipped (
            IsTidy-if n (not d.created_ok) _ _ (unloaded d.camera_count e)
              (IsTidy-if n (not d.connected_ok) _ _ (unloaded d.camera_count e) (running d h)))))
  ]
