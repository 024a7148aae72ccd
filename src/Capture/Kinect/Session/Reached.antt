-- ===== src/Capture/Kinect/Session/Reached.antt =====
-- The states that turns and calls reach, and how a call of `get_pointcloud` ends there.

use cwipc.Common.{
  ℕ, ◌≡◌, ◌≤◌, ◌<◌, ◌⊎◌, inl, inr, refl, sym, ap, ◌∙◌, arith, Bool, true, false, Bool-cases, Option,
  none, some, List, [], ◌∷◌, if◌then◌else◌,
}
use cwipc.Capture.{
  Place, testing, waiting, checking, grabbing, saving, processing, locking, locked, merging,
  publishing, ended, Call, idle, taking, Event, turn, proceed, call_start, call_available, call_get,
  call_stop, call_destroy, has_thread, holds_lock, with_merged,
}
use cwipc.Capture.Kinect.{Capture, new_capture, consumer_turn, begin, is_idle, step, run}
use cwipc.Capture.Kinect.Tidy.{is_gone}
use cwipc.Capture.Kinect.Delivery.{
  good_turns, rank, is_some, IsPending, IsReady, IsSame, pending_turns, ready_turns,
}
use cwipc.Capture.Kinect.Session.{
  IsLive, new-IsLive, control-IsLive, is_busy, is_ended, needs_thread, is_taking,
}
use cwipc.Capture.Kinect.Session.Calls.{consumer_turn-IsLive, begin-IsLive}

begun : (e : Event) (s : Capture) → IsLive s → IsLive (if is_idle s.call then begin e s else s)
begun e s l = by_call s.call refl
  where
    by_call : (c : Call) → s.call ≡ c → IsLive (if is_idle c then begin e s else s)
    by_call idle h = begin-IsLive s l h e
    by_call c h = l

step-IsLive : (e : Event) (s : Capture) → IsLive s → IsLive (step e s)
unfolding step
step-IsLive (turn a) s l = control-IsLive a s l
step-IsLive proceed s l = consumer_turn-IsLive s l s.call refl
step-IsLive (call_start d) s l = begun (call_start d) s l
step-IsLive call_available s l = begun call_available s l
step-IsLive call_get s l = begun call_get s l
step-IsLive call_stop s l = begun call_stop s l
step-IsLive call_destroy s l = begun call_destroy s l

pub run-IsLive : (es : List Event) (s : Capture) → IsLive s → IsLive (run es s)
unfolding run
run-IsLive [] s l = l
run-IsLive (e ∷ es) s l = run-IsLive es (step e s) (step-IsLive e s l)

module _ (s : Capture) (l : IsLive s) (c : s.call ≡ taking) (u : s.stopped ≡ false) where
  same : IsSame s s
  same = record { call = refl; delivered = refl; unstopped = u }

  not_over : is_ended s.control_thread ≡ false
  not_over = elim (Bool-cases (is_ended s.control_thread)) [
    | inl h ↦ let o = l.over h in absurd (ground arith)
    | inr h ↦ h
  ]

  -- A fresh point cloud is there, and the thread does not make another.
  ready : (p : Place) → s.control_thread ≡ some p → s.is_fresh ≡ true → IsReady s s
  ready p e f =
      let o = l.offered u f in
      let merged = o.1 (ap is_gone c) in
      record { place = by_place p e o.0; no_want = o.0; fresh = f; merged = merged; same = same }
    where
      not_busy : is_busy s.control_thread ≡ true → s.want_new ≡ false → {A : Type 0} → A
      not_busy b w = let b' = l.busy u b in absurd (ground arith)

      by_place :
          (p : Place)
          → s.control_thread ≡ some p
          → s.want_new ≡ false
          → (s.control_thread ≡ some testing) ⊎ (s.control_thread ≡ some waiting)
      by_place testing e w = inl e
      by_place waiting e w = inr e
      by_place checking e w = not_busy (ap is_busy e) w
      by_place grabbing e w = not_busy (ap is_busy e) w
      by_place (saving pc) e w = not_busy (ap is_busy e) w
      by_place (processing pc) e w = not_busy (ap is_busy e) w
      by_place (locking pc) e w = not_busy (ap is_busy e) w
      by_place locked e w = not_busy (ap is_busy e) w
      by_place merging e w = not_busy (ap is_busy e) w
      by_place publishing e w = not_busy (ap is_busy e) w
      by_place ended e w = let o = ap is_ended e in let n = not_over in absurd (ground arith)

  goes_on : (p : Place) → is_ended (some p) ≡ false → (0 < rank p) × (rank p ≤ 10)
  goes_on testing h = (omega arith, omega arith)
  goes_on waiting h = (omega arith, omega arith)
  goes_on checking h = (omega arith, omega arith)
  goes_on grabbing h = (omega arith, omega arith)
  goes_on (saving pc) h = (omega arith, omega arith)
  goes_on (processing pc) h = (omega arith, omega arith)
  goes_on (locking pc) h = (omega arith, omega arith)
  goes_on locked h = (omega arith, omega arith)
  goes_on merging h = (omega arith, omega arith)
  goes_on publishing h = (omega arith, omega arith)
  goes_on ended h = absurd (ground arith)

  pending : (p : Place) → s.control_thread ≡ some p → s.is_fresh ≡ false → IsPending s s p
  pending p e f = record {
    place = e;
    goes_on = (goes_on p (sym (ap is_ended e) ∙ not_over)).0;
    want = elim (l.asked u (ap is_taking c)) [ inl h ↦ absurd (ground arith) | inr w ↦ w ];
    stale = f;
    merged = λ h. l.stored (ap is_gone c) (ap holds_lock e ∙ h);
    same = same;
  }

  arrives : IsReady s (run (good_turns 10) s)
  arrives = by_thread s.control_thread refl
    where
      by_thread : (t : Option Place) → s.control_thread ≡ t → IsReady s (run (good_turns 10) s)
      by_thread none e =
          let h = l.calling (ap needs_thread c) in let n = ap has_thread e in absurd (ground arith)
      by_thread (some p) e = elim (Bool-cases s.is_fresh) [
        | inl f ↦ ready_turns s 10 s (ready p e f)
        | inr f ↦
            pending_turns s 10 s p (goes_on p (sym (ap is_ended e) ∙ not_over)).1 (pending p e f)
      ]

-- The call of `get_pointcloud` has ended and handed over a point cloud.
pub record IsDelivered (s s' : Capture) : Type 0 where
  pub pc : ℕ
  pub delivered : s'.delivered ≡ pc ∷ s.delivered
  pub returned : s'.call ≡ idle

-- The last two steps of the consumer.
taken :
    (s₀ s : Capture)
    → s₀.call ≡ taking
    → IsReady s₀ s
    → IsDelivered s₀ (step proceed (step proceed s))
unfolding step consumer_turn
taken s₀ s c r = by_merged s.merged_pc refl
  where
    lock : holds_lock s.control_thread ≡ false
    lock = elim r.place [ inl e ↦ ap holds_lock e | inr e ↦ ap holds_lock e ]

    by_merged : (m : Option ℕ) → s.merged_pc ≡ m → IsDelivered s₀ (step proceed (step proceed s))
    by_merged none e = let n = r.merged in let z = ap is_some e in absurd (ground arith)
    by_merged (some pc) e = record {
      pc = pc;
      delivered =
          simp (r.same.call, c, lock, r.fresh, lock)
            (ap (λ m. with_merged m s.delivered) e ∙ ap (λ ds. pc ∷ ds) r.same.delivered);
      returned = simp (r.same.call, c, lock, r.fresh, lock) refl;
    }

-- In every state of a Kinect capturer that turns and calls reach from a new one, where
-- get_pointcloud waits and the capturer is not stopped, ten turns of the control thread with good
-- answers of the cameras and two steps of the consumer make the call return with a point cloud.
pub get_delivers :
    (ok : Bool) (es : List Event)
    → (run es (new_capture ok)).call ≡ taking
    → (run es (new_capture ok)).stopped ≡ false
    → IsDelivered
        (run es (new_capture ok))
        (step proceed (step proceed (run (good_turns 10) (run es (new_capture ok)))))
get_delivers ok es c u =
    let s = run es (new_capture ok) in
    taken s (run (good_turns 10) s) c
      (arrives s (run-IsLive es (new_capture ok) (new-IsLive ok)) c u)
