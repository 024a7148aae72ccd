-- ===== src/Capture/Kinect/Delivery.antt =====
-- What the thread does while it is not stopped and the cameras answer.
use mathlib.Core.Path.{subst}
use cwipc.Common.{
  ℕ, zero, suc, ◌≤◌, ◌<◌, ◌≡◌, ◌⊎◌, inl, inr, refl, sym, ap, ◌∙◌, arith, Bool, true, false,
  Bool-cases, ◌==◌, Option, none, some, List, [], ◌∷◌, if◌then◌else◌,
}
use cwipc.Capture.{
  Answer, Place, testing, waiting, checking, grabbing, saving, processing, locking, locked, merging,
  publishing, ended, Event, turn, holds_lock,
}
use cwipc.Capture.Kinect.{Capture, free_merged, at, thread_turn, control, step, run}

abbrev pub good : Answer
good = record { end_of_stream_reached = false; all_captures_ok = true }

-- So many turns with good answers.
unfoldable pub good_turns : ℕ → List Event
good_turns zero = []
good_turns (suc n) = turn good ∷ good_turns n

-- The turns to the end of `publishing`.
abbrev pub rank : Place → ℕ
rank testing = 10
rank waiting = 9
rank checking = 8
rank grabbing = 7
rank (saving pc) = 6
rank (processing pc) = 5
rank (locking pc) = 4
rank locked = 3
rank merging = 2
rank publishing = 1
rank ended = 0

abbrev next_state : Place → Capture → Capture
next_state testing s = at waiting s
next_state waiting s = at checking s
next_state checking s = at grabbing s
next_state grabbing s = at (saving s.created) (record s { created = suc s.created })
next_state (saving pc) s = at (processing pc) s
next_state (processing pc) s = at (locking pc) s
next_state (locking pc) s = at locked (record s { merged_pc = some pc })
next_state locked s = at merging s
next_state merging s = at publishing s
next_state publishing s = at testing (record s { is_fresh = true; want_new = false })
next_state ended s = s

thread_turn-good :
    (p : Place) (s : Capture)
    → s.stopped ≡ false
    → s.want_new ≡ true
    → s.is_fresh ≡ false
    → thread_turn good p s ≡ next_state p s
unfolding thread_turn
thread_turn-good testing s u w f = ap (λ b. at (if b then ended else waiting) s) u
thread_turn-good waiting s u w f = ap (λ b. at (if b then checking else waiting) s) w
thread_turn-good checking s u w f = ap (λ b. at (if b then ended else grabbing) s) u
thread_turn-good grabbing s u w f =
    ap (λ b. if b then at ended s else at (saving s.created) (record s { created = suc s.created }))
      u
thread_turn-good (saving pc) s u w f =
    ap (λ b. if b then at ended (record s { freed = pc ∷ s.freed }) else at (processing pc) s) u
thread_turn-good (processing pc) s u w f =
    ap (λ b. if b then at ended (record s { freed = pc ∷ s.freed }) else at (locking pc) s) u
thread_turn-good (locking pc) s u w f =
    ap (λ b. at locked (record (if b then free_merged s else s) { merged_pc = some pc })) f
thread_turn-good locked s u w f = ap (λ b. at (if b then ended else merging) s) u
thread_turn-good merging s u w f = ap (λ b. at (if b then ended else publishing) s) u
thread_turn-good publishing s u w f = refl
thread_turn-good ended s u w f = refl

pub control-thread_turn :
    (a : Answer) (p : Place) (s : Capture)
    → s.control_thread ≡ some p
    → step (turn a) s ≡ thread_turn a p s
unfolding step control
control-thread_turn a p s e = ap (λ t. elim t [ none ↦ s | some p ↦ thread_turn a p s ]) e

abbrev pub is_some : Option ℕ → Bool
is_some none = false
is_some (some pc) = true

module _ (s₀ : Capture) where
  pub record IsSame (s : Capture) : Type 0 where
    pub call : s.call ≡ s₀.call
    pub delivered : s.delivered ≡ s₀.delivered
    pub unstopped : s.stopped ≡ false

  still :
      (s s' : Capture)
      → s'.call ≡ s.call
      → s'.delivered ≡ s.delivered
      → s'.stopped ≡ s.stopped
      → IsSame s
      → IsSame s'
  still s s' c d u same = record {
    call = c ∙ same.call;
    delivered = d ∙ same.delivered;
    unstopped = u ∙ same.unstopped;
  }

  -- The thread makes a new point cloud.
  pub record IsPending (s : Capture) (p : Place) : Type 0 where
    pub place : s.control_thread ≡ some p
    pub goes_on : 0 < rank p
    pub want : s.want_new ≡ true
    pub stale : s.is_fresh ≡ false
    pub merged : holds_lock (some p) ≡ true → is_some s.merged_pc ≡ true
    pub same : IsSame s

  -- It has made one, and waits or is about to wait.
  pub record IsReady (s : Capture) : Type 0 where
    pub place : (s.control_thread ≡ some testing) ⊎ (s.control_thread ≡ some waiting)
    pub no_want : s.want_new ≡ false
    pub fresh : s.is_fresh ≡ true
    pub merged : is_some s.merged_pc ≡ true
    pub same : IsSame s

  record Onward (p : Place) (s : Capture) : Type 0 where
    next : Place
    shorter : suc (rank next) ≡ rank p
    pending : IsPending s next

  -- A step of the thread that leaves its requests alone.
  onward :
      (s : Capture) (p q : Place)
      → suc (rank q) ≡ rank p
      → 0 < rank q
      → (holds_lock (some q) ≡ true → is_some s.merged_pc ≡ true)
      → IsPending s p
      → Onward p (at q s)
  onward s p q r g m w = record {
    next = q;
    shorter = r;
    pending = record {
      place = refl;
      goes_on = g;
      want = w.want;
      stale = w.stale;
      merged = m;
      same = still s _ refl refl refl w.same;
    };
  }

  next_state-Onward :
      (s : Capture) (p : Place) → 1 < rank p → IsPending s p → Onward p (next_state p s)
  next_state-Onward s testing h w =
      onward s testing waiting refl (omega arith) (λ e. absurd (ground arith)) w
  next_state-Onward s waiting h w =
      onward s waiting checking refl (omega arith) (λ e. absurd (ground arith)) w
  next_state-Onward s checking h w =
      onward s checking grabbing refl (omega arith) (λ e. absurd (ground arith)) w
  next_state-Onward s grabbing h w = record {
    next = saving s.created;
    shorter = refl;
    pending = record {
      place = refl;
      goes_on = omega arith;
      want = w.want;
      stale = w.stale;
      merged = λ e. absurd (ground arith);
      same = still s _ refl refl refl w.same;
    };
  }
  next_state-Onward s (saving pc) h w =
      onward s (saving pc) (processing pc) refl (omega arith) (λ e. absurd (ground arith)) w
  next_state-Onward s (processing pc) h w =
      onward s (processing pc) (locking pc) refl (omega arith) (λ e. absurd (ground arith)) w
  next_state-Onward s (locking pc) h w = record {
    next = locked;
    shorter = refl;
    pending = record {
      place = refl;
      goes_on = omega arith;
      want = w.want;
      stale = w.stale;
      merged = λ e. refl;
      same = still s _ refl refl refl w.same;
    };
  }
  next_state-Onward s locked h w = onward s locked merging refl (omega arith) (λ e. w.merged refl) w
  next_state-Onward s merging h w =
      onward s merging publishing refl (omega arith) (λ e. w.merged refl) w
  next_state-Onward s publishing h w = absurd (omega arith)
  next_state-Onward s ended h w = absurd (omega arith)

  published : (s : Capture) → IsPending s publishing → IsReady (next_state publishing s)
  published s w = record {
    place = inl refl;
    no_want = refl;
    fresh = refl;
    merged = w.merged refl;
    same = still s _ refl refl refl w.same;
  }

  pending_turn : (s : Capture) (p : Place) → IsPending s p → step (turn good) s ≡ next_state p s
  pending_turn s p w =
      control-thread_turn good p s w.place ∙ thread_turn-good p s w.same.unstopped w.want w.stale

  -- A ready thread stays so.
  ready_turn : (s : Capture) → IsReady s → IsReady (step (turn good) s)
  unfolding thread_turn
  ready_turn s r = elim r.place [
    | inl e ↦
        subst IsReady
          (sym (
            control-thread_turn good testing s e
            ∙ ap (λ b. at (if b then ended else waiting) s) r.same.unstopped))
          (waits s r)
    | inr e ↦
        subst IsReady
          (sym (
            control-thread_turn good waiting s e
            ∙ ap (λ b. at (if b then checking else waiting) s) r.no_want))
          (waits s r)
  ]
    where
      waits : (s : Capture) → IsReady s → IsReady (at waiting s)
      waits s r = record {
        place = inr refl;
        no_want = r.no_want;
        fresh = r.fresh;
        merged = r.merged;
        same = still s _ refl refl refl r.same;
      }

  pub ready_turns : (n : ℕ) (s : Capture) → IsReady s → IsReady (run (good_turns n) s)
  unfolding good_turns run
  ready_turns zero s r = r
  ready_turns (suc n) s r = ready_turns n (step (turn good) s) (ready_turn s r)

  pub pending_turns :
      (n : ℕ) (s : Capture) (p : Place)
      → rank p ≤ n
      → IsPending s p
      → IsReady (run (good_turns n) s)
  unfolding good_turns run
  pending_turns zero s p h w = absurd (let g = w.goes_on in omega arith)
  pending_turns (suc n) s p h w = elim (Bool-cases (rank p == 1)) [
    | inl one ↦ ready_turns n _ (subst IsReady (sym (pending_turn s p w)) (last p one w))
    | inr more ↦
        let g = w.goes_on in
        let o = next_state-Onward s p (ground arith) w in
        let shorter = o.shorter in
        subst (λ s'. IsReady (run (good_turns n) s')) (sym (pending_turn s p w))
          (pending_turns n (next_state p s) o.next (omega arith) o.pending)
  ]
    where
      last : (q : Place) → (rank q == 1) ≡ true → IsPending s q → IsReady (next_state q s)
      last publishing h w = published s w
      last testing h w = absurd (ground arith)
      last waiting h w = absurd (ground arith)
      last checking h w = absurd (ground arith)
      last grabbing h w = absurd (ground arith)
      last (saving pc) h w = absurd (ground arith)
      last (processing pc) h w = absurd (ground arith)
      last (locking pc) h w = absurd (ground arith)
      last locked h w = absurd (ground arith)
      last merging h w = absurd (ground arith)
      last ended h w = absurd (ground arith)
