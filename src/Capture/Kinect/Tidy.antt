-- ===== src/Capture/Kinect/Tidy.antt =====
-- The room for a new object in a capturer that is started once.
pub mod Calls
use cwipc.Common.{
  ℕ, suc, ◌≤◌, ◌≡◌, ◌⊎◌, inl, inr, refl, sym, ap, ◌∙◌, arith, Bool, true, false, not, Bool-cases,
  Option, none, some, ◌==◌, if◌then◌else◌,
}
use cwipc.Capture.{
  Answer, Place, testing, waiting, checking, grabbing, saving, processing, locking, locked, merging,
  publishing, ended, Call, idle, asking_available, looking, asking, taking, asking_again, joining,
  destroying, gone, Devices, call_available, call_get, call_stop, call_destroy, has_thread,
  holds_lock,
}
use cwipc.Capture.Kinect.{
  Capture, free_pc, free_merged, at, thread_turn, control, is_playing, request_new, take,
  stop_cameras, after_join, unload_cameras, start, joined, consumer_turn, begin,
}

-- Before the thread stores its object.
abbrev pub early : Option Place → Bool
early none = false
early (some locked) = false
early (some merging) = false
early (some publishing) = false
early (some ended) = false
early _ = true

abbrev pub HasRoom : Capture → Type 0
HasRoom s = (s.is_fresh ≡ true) ⊎ (s.merged_pc ≡ none)

-- What holds where `start` is still called `n` times, at most once.
pub record IsTidy (n : ℕ) (s : Capture) : Type 0 where
  pub once : n ≤ 1
  pub room : early s.control_thread ≡ true → HasRoom s
  pub started : has_thread s.control_thread ≡ true → n ≡ 0
  pub not_started : has_thread s.control_thread ≡ false → (n ≡ 0) ⊎ (s.merged_pc ≡ none)
  pub emptied : s.call ≡ gone → (has_thread s.control_thread ≡ true) ⊎ (s.merged_pc ≡ none)

pub IsTidy-if :
    (n : ℕ) (b : Bool) (s₁ s₂ : Capture)
    → IsTidy n s₁
    → IsTidy n s₂
    → IsTidy n (if b then s₁ else s₂)
IsTidy-if n true s₁ s₂ h₁ h₂ = h₁
IsTidy-if n false s₁ s₂ h₁ h₂ = h₂

-- The thread goes to a place, and there is room if it has not stored its object.
at-IsTidy :
    (n : ℕ) (p : Place) (s s' : Capture)
    → (early (some p) ≡ true → HasRoom s')
    → has_thread s.control_thread ≡ true
    → s'.call ≡ s.call
    → IsTidy n s
    → IsTidy n (at p s')
at-IsTidy n p s s' h some_thread c t = record {
  once = t.once;
  room = h;
  started = λ _. t.started some_thread;
  not_started = λ e. absurd (ground arith);
  emptied = λ e. inl refl;
}

abbrev pub is_gone : Call → Bool
is_gone gone = true
is_gone _ = false

pub not_gone : {c : Call} {A : Type 0} → is_gone c ≡ false → c ≡ gone → A
not_gone h e = let g = ap is_gone e in absurd (ground arith)

module _ (n : ℕ) (s : Capture) (t : IsTidy n s) where
  -- What the thread does before it stores its object.
  going :
      (p : Place)
      → early s.control_thread ≡ true
      → has_thread s.control_thread ≡ true
      → IsTidy n (at p s)
  going p e h = at-IsTidy n p s s (λ _. t.room e) h refl t

  late :
      (p : Place) (s' : Capture)
      → early (some p) ≡ false
      → has_thread s.control_thread ≡ true
      → s'.call ≡ s.call
      → IsTidy n (at p s')
  late p s' e h c = at-IsTidy n p s s' (λ e'. absurd (ground arith)) h c t

  late-if :
      (b : Bool) (p q : Place)
      → early (some p) ≡ false
      → early (some q) ≡ false
      → has_thread s.control_thread ≡ true
      → IsTidy n (at (if b then p else q) s)
  late-if true p q hp hq h = late p s hp h refl
  late-if false p q hp hq h = late q s hq h refl

  thread_turn-IsTidy :
      (a : Answer) (p : Place) → s.control_thread ≡ some p → IsTidy n (thread_turn a p s)
  unfolding thread_turn
  thread_turn-IsTidy a testing e = going _ (ap early e) (ap has_thread e)
  thread_turn-IsTidy a waiting e = going _ (ap early e) (ap has_thread e)
  thread_turn-IsTidy a checking e =
      IsTidy-if n a.end_of_stream_reached _ _
        (late ended (record s { is_eof = true; stopped = true }) refl (ap has_thread e) refl)
        (going _ (ap early e) (ap has_thread e))
  thread_turn-IsTidy a grabbing e =
      IsTidy-if n (not a.all_captures_ok) _ _ (going testing (ap early e) (ap has_thread e)) (
        IsTidy-if n s.stopped _ _ (late ended s refl (ap has_thread e) refl) (
          at-IsTidy n (saving s.created) s (record s { created = suc s.created })
            (λ _. t.room (ap early e)) (ap has_thread e) refl t))
  thread_turn-IsTidy a (saving pc) e =
      IsTidy-if n s.stopped _ _ (late ended (free_pc pc s) refl (ap has_thread e) refl)
        (going (processing pc) (ap early e) (ap has_thread e))
  thread_turn-IsTidy a (processing pc) e =
      IsTidy-if n s.stopped _ _ (late ended (free_pc pc s) refl (ap has_thread e) refl)
        (going (locking pc) (ap early e) (ap has_thread e))
  thread_turn-IsTidy a (locking pc) e =
      late locked (record (if s.is_fresh then free_merged s else s) { merged_pc = some pc }) refl
        (ap has_thread e) (call_of s.is_fresh)
    where
      call_of : (b : Bool) → (if b then free_merged s else s).call ≡ s.call
      call_of true = refl
      call_of false = refl
  thread_turn-IsTidy a locked e = late-if s.stopped ended merging refl refl (ap has_thread e)
  thread_turn-IsTidy a merging e = late-if s.stopped ended publishing refl refl (ap has_thread e)
  thread_turn-IsTidy a publishing e =
      at-IsTidy n testing s (record s { is_fresh = true; want_new = false }) (λ _. inl refl)
        (ap has_thread e) refl t
  thread_turn-IsTidy a ended e = t

  pub control-IsTidy : (a : Answer) → IsTidy n (control a s)
  unfolding control
  control-IsTidy a = by_place s.control_thread refl
    where
      by_place :
          (p : Option Place)
          → s.control_thread ≡ p
          → IsTidy n (elim p [ none ↦ s | some p ↦ thread_turn a p s ])
      by_place none e = t
      by_place (some p) e = thread_turn-IsTidy a p e
