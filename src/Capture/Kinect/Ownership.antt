-- ===== src/Capture/Kinect/Ownership.antt =====
-- The point clouds of `K4ABaseCapture` over any interleaving of its thread and its consumer.
use cwipc.Common.{
  ℕ, ◌≤◌, ◌<◌, ◌≡◌, inl, inr, refl, arith, Bool, Bool-cases, Option, none, some, List, [], ◌∷◌,
  ◌==◌,
}
use cwipc.Capture.{
  Answer, Place, Event, turn, proceed, call_start, call_available, call_get, call_stop,
  call_destroy, count,
}
use cwipc.Capture.Kinect.{Capture, new_capture, thread_turn, control, is_idle, step, run}
use cwipc.Capture.Kinect.Places.{
  places, Change, moved, made, overwritten, thread_turn-Change, consumer_turn-Change, begin-Change,
  same_place, Change-if,
}

unfoldable pub lost : ℕ → Event → Capture → ℕ
lost x (turn a) s = overwritten x s.control_thread s
lost x _ s = 0

module _ (x : ℕ) where
  control-Change :
      (a : Answer) (s : Capture) → Change x s (control a s) (overwritten x s.control_thread s)
  unfolding control overwritten
  control-Change a s = by_place s.control_thread refl
    where
      by_place :
          (t : Option Place)
          → s.control_thread ≡ t
          → Change x s (elim t [ none ↦ s | some p ↦ thread_turn a p s ]) (overwritten x t s)
      by_place none e = same_place x s
      by_place (some p) e = thread_turn-Change x a p s e

  pub step-Change : (e : Event) (s : Capture) → Change x s (step e s) (lost x e s)
  unfolding step lost
  step-Change (turn a) s = control-Change a s
  step-Change proceed s = consumer_turn-Change x s.call s
  step-Change (call_start d) s =
      Change-if x (is_idle s.call) s _ _ 0 (begin-Change x (call_start d) s) (same_place x s)
  step-Change call_available s =
      Change-if x (is_idle s.call) s _ _ 0 (begin-Change x call_available s) (same_place x s)
  step-Change call_get s =
      Change-if x (is_idle s.call) s _ _ 0 (begin-Change x call_get s) (same_place x s)
  step-Change call_stop s =
      Change-if x (is_idle s.call) s _ _ 0 (begin-Change x call_stop s) (same_place x s)
  step-Change call_destroy s =
      Change-if x (is_idle s.call) s _ _ 0 (begin-Change x call_destroy s) (same_place x s)

  pub record IsOwned (s : Capture) : Type 0 where
    pub once : places x s ≤ 1
    pub unmade : s.created ≤ x → places x s ≡ 0

  pub Change-IsOwned : (s s' : Capture) (l : ℕ) → Change x s s' l → IsOwned s → IsOwned s'
  Change-IsOwned s s' l (moved c p) o = record {
    once = let h = o.once in omega arith;
    unmade = λ h. let z = o.unmade (omega arith) in omega arith;
  }
  Change-IsOwned s s' l (made c p) o = elim (Bool-cases (x == s.created)) [
    | inl h ↦ record {
      once = let z = o.unmade (ground arith) in ground arith;
      unmade = λ h'. absurd (ground arith);
    }
    | inr h ↦ record {
      once = let z = o.once in ground arith;
      unmade = λ h'. let z = o.unmade (omega arith) in ground arith;
    }
  ]

  -- Every object that was made is in exactly one place.
  abbrev pub IsCounted : Capture → Type 0
  IsCounted s = x < s.created → places x s ≡ 1

  pub Change-IsCounted : (s s' : Capture) → Change x s s' 0 → IsOwned s → IsCounted s → IsCounted s'
  Change-IsCounted s s' (moved c p) o k = λ h. let z = k (omega arith) in omega arith
  Change-IsCounted s s' (made c p) o k = λ h. elim (Bool-cases (x == s.created)) [
    | inl e ↦ let z = o.unmade (ground arith) in ground arith
    | inr e ↦ let z = k (ground arith) in ground arith
  ]

  run-IsOwned : (es : List Event) (s : Capture) → IsOwned s → IsOwned (run es s)
  unfolding run
  run-IsOwned [] s o = o
  run-IsOwned (e ∷ es) s o =
      run-IsOwned es (step e s) (Change-IsOwned s (step e s) _ (step-Change e s) o)

  pub new-IsOwned : (ok : Bool) → IsOwned (new_capture ok)
  unfolding places count
  new-IsOwned ok = record { once = omega arith; unmade = λ h. refl }

-- Over any sequence of turns of the control thread and turns and calls of the consumer, each
-- object that the Kinect capturer makes is in one place at most: delivered once, or freed once,
-- or held by the capturer or its thread.
pub owned_once : (ok : Bool) (es : List Event) (x : ℕ) → places x (run es (new_capture ok)) ≤ 1
owned_once ok es x = (run-IsOwned x es (new_capture ok) (new-IsOwned x ok)).once
