-- ===== src/Capture/Kinect/Session.antt =====
-- What holds in every state that turns and calls reach: who waits for whom.
mod Calls
pub mod Reached
use cwipc.Common.{
  ℕ, zero, suc, ◌+◌, ◌≤◌, ◌<◌, ◌≡◌, ◌⊎◌, inl, inr, refl, sym, ap, ◌∙◌, arith, Bool, true, false,
  not, Bool-cases, ◌==◌, ◌&&◌, Option, none, some, List, [], ◌∷◌, if◌then◌else◌,
}
use cwipc.Capture.{
  Answer, Place, testing, waiting, checking, grabbing, saving, processing, locking, locked, merging,
  publishing, ended, Call, idle, asking_available, looking, asking, taking, asking_again, joining,
  destroying, gone, Devices, Event, turn, proceed, call_start, call_available, call_get, call_stop,
  call_destroy, has_thread, holds_lock,
}
use cwipc.Capture.Kinect.{
  Capture, new_capture, free_pc, free_merged, at, thread_turn, control, is_playing, request_new,
  take, stop_cameras, after_join, unload_cameras, start, joined, consumer_turn, begin, is_idle,
  step, run,
}
use cwipc.Capture.Kinect.Tidy.{is_gone}
use cwipc.Capture.Kinect.Delivery.{is_some}

-- From a request to the end of `publishing`.
abbrev pub is_busy : Option Place → Bool
is_busy none = false
is_busy (some testing) = false
is_busy (some waiting) = false
is_busy (some ended) = false
is_busy _ = true

abbrev pub is_ended : Option Place → Bool
is_ended (some ended) = true
is_ended _ = false

-- The calls that begin only while there is a thread, and do not end it.
abbrev pub needs_thread : Call → Bool
needs_thread asking_available = true
needs_thread looking = true
needs_thread asking = true
needs_thread taking = true
needs_thread asking_again = true
needs_thread _ = false

abbrev pub is_taking : Call → Bool
is_taking taking = true
is_taking _ = false

pub record IsLive (s : Capture) : Type 0 where
  pub quiet :
      has_thread s.control_thread ≡ false
      → (s.cameras ≡ 0) × (s.is_fresh ≡ false) × (s.want_new ≡ false)
  pub over : is_ended s.control_thread ≡ true → s.stopped ≡ true
  pub stored :
      is_gone s.call ≡ false → holds_lock s.control_thread ≡ true → is_some s.merged_pc ≡ true
  pub offered :
      s.stopped ≡ false
      → s.is_fresh ≡ true
      → (s.want_new ≡ false) × (is_gone s.call ≡ false → is_some s.merged_pc ≡ true)
  pub busy : s.stopped ≡ false → is_busy s.control_thread ≡ true → s.want_new ≡ true
  pub calling : needs_thread s.call ≡ true → has_thread s.control_thread ≡ true
  pub asked :
      s.stopped ≡ false → is_taking s.call ≡ true → (s.is_fresh ≡ true) ⊎ (s.want_new ≡ true)

pub new-IsLive : (ok : Bool) → IsLive (new_capture ok)
new-IsLive ok = record {
  quiet = λ h. (refl, refl, refl);
  over = λ h. absurd (ground arith);
  stored = λ g h. absurd (ground arith);
  offered = λ u h. absurd (ground arith);
  busy = λ u h. absurd (ground arith);
  calling = λ h. absurd (ground arith);
  asked = λ u h. absurd (ground arith);
}

pub IsLive-if :
    (b : Bool) (s₁ s₂ : Capture)
    → (b ≡ true → IsLive s₁)
    → (b ≡ false → IsLive s₂)
    → IsLive (if b then s₁ else s₂)
IsLive-if true s₁ s₂ h₁ h₂ = h₁ refl
IsLive-if false s₁ s₂ h₁ h₂ = h₂ refl

at-if-IsLive :
    (b : Bool) (p q : Place) (s : Capture)
    → (b ≡ true → IsLive (at p s))
    → (b ≡ false → IsLive (at q s))
    → IsLive (at (if b then p else q) s)
at-if-IsLive true p q s h₁ h₂ = h₁ refl
at-if-IsLive false p q s h₁ h₂ = h₂ refl

module _ (s : Capture) (l : IsLive s) where
  -- The thread goes to another place.
  at-IsLive :
      (q : Place)
      → has_thread s.control_thread ≡ true
      → (is_ended (some q) ≡ true → s.stopped ≡ true)
      → (is_gone s.call ≡ false → holds_lock (some q) ≡ true → is_some s.merged_pc ≡ true)
      → (s.stopped ≡ false → is_busy (some q) ≡ true → s.want_new ≡ true)
      → IsLive (at q s)
  at-IsLive q h o m b = record {
    quiet = λ e. absurd (ground arith);
    over = o;
    stored = m;
    offered = l.offered;
    busy = b;
    calling = λ e. refl;
    asked = l.asked;
  }

  -- The thread ends, and no longer matters.
  ended-IsLive : (s' : Capture) → s'.stopped ≡ true → IsLive (at ended s')
  ended-IsLive s' e = record {
    quiet = λ h. absurd (ground arith);
    over = λ h. e;
    stored = λ g h. absurd (ground arith);
    offered = λ u h. absurd (ground arith);
    busy = λ u h. absurd (ground arith);
    calling = λ h. refl;
    asked = λ u h. absurd (ground arith);
  }

  module _ (p : Place) (e : s.control_thread ≡ some p) where
    -- Between two places before the thread stores its object, while it is busy.
    goes :
        (q : Place)
        → is_ended (some q) ≡ false
        → holds_lock (some q) ≡ false
        → is_busy (some p) ≡ true
        → IsLive (at q s)
    goes q o m b =
        at-IsLive q (ap has_thread e) (λ h. absurd (ground arith)) (λ g h. absurd (ground arith))
          (λ u h. l.busy u (ap is_busy e ∙ b))

    keeps :
        (q : Place)
        → is_ended (some q) ≡ false
        → holds_lock (some p) ≡ true
        → is_busy (some p) ≡ true
        → IsLive (at q s)
    keeps q o m b =
        at-IsLive q (ap has_thread e) (λ h. absurd (ground arith))
          (λ g h. l.stored g (ap holds_lock e ∙ m)) (λ u h. l.busy u (ap is_busy e ∙ b))

  ending : s.stopped ≡ true → IsLive (at ended s)
  ending = ended-IsLive s

  pub recorded :
      (made : ℕ) (freed delivered : List ℕ)
      → IsLive (record s { created = made; freed = freed; delivered = delivered })
  recorded made freed delivered = record {
    quiet = l.quiet;
    over = l.over;
    stored = l.stored;
    offered = l.offered;
    busy = l.busy;
    calling = l.calling;
    asked = l.asked;
  }

  stores_new :
      (pc : ℕ) (freed : List ℕ)
      → s.control_thread ≡ some (locking pc)
      → IsLive (at locked (record s { freed = freed; merged_pc = some pc }))
  stores_new pc freed e = record {
    quiet = λ h. absurd (ground arith);
    over = λ h. absurd (ground arith);
    stored = λ g h. refl;
    offered = λ u h. ((l.offered u h).0, λ g. refl);
    busy = λ u h. l.busy u (ap is_busy e);
    calling = λ h. refl;
    asked = l.asked;
  }

  locking-IsLive :
      (pc : ℕ) (fresh : Bool)
      → s.control_thread ≡ some (locking pc)
      → IsLive (at locked (record (if fresh then free_merged s else s) { merged_pc = some pc }))
  locking-IsLive pc true e = stores_new pc _ e
  locking-IsLive pc false e = stores_new pc s.freed e

  publishing-IsLive :
      s.control_thread ≡ some publishing
      → IsLive (at testing (record s { is_fresh = true; want_new = false }))
  publishing-IsLive e = record {
    quiet = λ h. absurd (ground arith);
    over = λ h. absurd (ground arith);
    stored = λ g h. absurd (ground arith);
    offered = λ u h. (refl, λ g. l.stored g (ap holds_lock e));
    busy = λ u h. absurd (ground arith);
    calling = λ h. refl;
    asked = λ u h. inl refl;
  }

thread_turn-IsLive :
    (a : Answer) (p : Place) (s : Capture)
    → s.control_thread ≡ some p
    → IsLive s
    → IsLive (thread_turn a p s)
unfolding thread_turn
thread_turn-IsLive a testing s e l = at-if-IsLive s.stopped ended waiting s (ending s l) (λ h.
    at-IsLive s l waiting (ap has_thread e) (λ h. absurd (ground arith))
      (λ g h. absurd (ground arith)) (λ u h. absurd (ground arith)))
thread_turn-IsLive a waiting s e l =
    at-if-IsLive s.want_new checking waiting s
      (λ w.
        at-IsLive s l checking (ap has_thread e) (λ h. absurd (ground arith))
          (λ g h. absurd (ground arith)) (λ u h. w))
      (λ w.
        at-IsLive s l waiting (ap has_thread e) (λ h. absurd (ground arith))
          (λ g h. absurd (ground arith)) (λ u h. absurd (ground arith)))
thread_turn-IsLive a checking s e l =
    IsLive-if a.end_of_stream_reached _ _
      (λ h. ended-IsLive s l (record s { is_eof = true; stopped = true }) refl)
      (λ h.
        at-if-IsLive s.stopped ended grabbing s (ending s l)
          (λ h. goes s l checking e grabbing refl refl refl))
thread_turn-IsLive a grabbing s e l =
    IsLive-if (not a.all_captures_ok) _ _ (λ h. goes s l grabbing e testing refl refl refl)
      (λ h. IsLive-if s.stopped _ _ (ending s l) (λ h.
        goes (record s { created = suc s.created })
          (recorded s l (suc s.created) s.freed s.delivered) grabbing e (saving s.created) refl refl
          refl))
thread_turn-IsLive a (saving pc) s e l =
    IsLive-if s.stopped _ _ (ended-IsLive s l (free_pc pc s))
      (λ h. goes s l (saving pc) e (processing pc) refl refl refl)
thread_turn-IsLive a (processing pc) s e l =
    IsLive-if s.stopped _ _ (ended-IsLive s l (free_pc pc s))
      (λ h. goes s l (processing pc) e (locking pc) refl refl refl)
thread_turn-IsLive a (locking pc) s e l = locking-IsLive s l pc s.is_fresh e
thread_turn-IsLive a locked s e l =
    at-if-IsLive s.stopped ended merging s (ending s l)
      (λ h. keeps s l locked e merging refl refl refl)
thread_turn-IsLive a merging s e l =
    at-if-IsLive s.stopped ended publishing s (ending s l)
      (λ h. keeps s l merging e publishing refl refl refl)
thread_turn-IsLive a publishing s e l = publishing-IsLive s l e
thread_turn-IsLive a ended s e l = l

pub control-IsLive : (a : Answer) (s : Capture) → IsLive s → IsLive (control a s)
unfolding control
control-IsLive a s l = by_place s.control_thread refl
  where
    by_place :
        (p : Option Place)
        → s.control_thread ≡ p
        → IsLive (elim p [ none ↦ s | some p ↦ thread_turn a p s ])
    by_place none e = l
    by_place (some p) e = thread_turn-IsLive a p s e l
