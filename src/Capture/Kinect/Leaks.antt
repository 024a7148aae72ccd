-- ===== src/Capture/Kinect/Leaks.antt =====
-- The objects of a capturer that is started once: none is lost.
use mathlib.Core.Path.{subst}
use cwipc.Common.{
  ℕ, suc, ◌+◌, ◌≤◌, ◌<◌, ◌≡◌, inl, inr, refl, ap, arith, Bool, true, false, Option, none, some,
  List, [], ◌∷◌, if◌then◌else◌,
}
use cwipc.Capture.{
  Place, testing, waiting, checking, grabbing, saving, processing, locking, locked, merging,
  publishing, ended, Call, idle, gone, Devices, Event, turn, proceed, call_start, call_available,
  call_get, call_stop, call_destroy, has_thread, count, in_merged, in_thread,
}
use cwipc.Capture.Kinect.{Capture, new_capture, start, begin, is_idle, step, run}
use cwipc.Capture.Kinect.Places.{Change, places, overwritten}
use cwipc.Capture.Kinect.Ownership.{
  lost, step-Change, IsOwned, Change-IsOwned, new-IsOwned, IsCounted, Change-IsCounted,
}
use cwipc.Capture.Kinect.Tidy.{early, IsTidy, IsTidy-if, control-IsTidy}
use cwipc.Capture.Kinect.Tidy.Calls.{
  consumer_turn-IsTidy, call_get-IsTidy, call_available-IsTidy, call_stop-IsTidy,
  call_destroy-IsTidy, skipped, start-IsTidy,
}

-- The calls of `start`.
unfoldable pub starts : List Event → ℕ
starts [] = 0
starts (call_start d ∷ es) = suc (starts es)
starts (turn a ∷ es) = starts es
starts (proceed ∷ es) = starts es
starts (call_available ∷ es) = starts es
starts (call_get ∷ es) = starts es
starts (call_stop ∷ es) = starts es
starts (call_destroy ∷ es) = starts es

-- Nothing is overwritten where there is room.
overwritten_nothing :
    (x n : ℕ) (p : Option Place) (s : Capture)
    → s.control_thread ≡ p
    → IsTidy n s
    → overwritten x p s ≡ 0
unfolding overwritten
overwritten_nothing x n none s e t = refl
overwritten_nothing x n (some testing) s e t = refl
overwritten_nothing x n (some waiting) s e t = refl
overwritten_nothing x n (some checking) s e t = refl
overwritten_nothing x n (some grabbing) s e t = refl
overwritten_nothing x n (some (saving pc)) s e t = refl
overwritten_nothing x n (some (processing pc)) s e t = refl
overwritten_nothing x n (some (locking pc)) s e t = elim (t.room (ap early e)) [
  | inl f ↦ simp f refl
  | inr m ↦ simp m (both s.is_fresh)
]
  where
    both : (b : Bool) → ◌≡◌ {A = ℕ} (if b then 0 else 0) 0
    both true = refl
    both false = refl
overwritten_nothing x n (some locked) s e t = refl
overwritten_nothing x n (some merging) s e t = refl
overwritten_nothing x n (some publishing) s e t = refl
overwritten_nothing x n (some ended) s e t = refl

lost_nothing : (x n : ℕ) (e : Event) (s : Capture) → IsTidy n s → lost x e s ≡ 0
unfolding lost
lost_nothing x n (turn a) s t = overwritten_nothing x n s.control_thread s refl t
lost_nothing x n proceed s t = refl
lost_nothing x n (call_start d) s t = refl
lost_nothing x n call_available s t = refl
lost_nothing x n call_get s t = refl
lost_nothing x n call_stop s t = refl
lost_nothing x n call_destroy s t = refl

-- A call of `start` where the consumer is outside of all calls.
started-IsTidy :
    (n : ℕ) (d : Devices) (s : Capture) → IsTidy (suc n) s → IsTidy n (step (call_start d) s)
unfolding step begin
started-IsTidy n d s t = by_call s.call refl
  where
    by_call : (c : Call) → s.call ≡ c → IsTidy n (if is_idle c then start d s else s)
    by_call idle e = start-IsTidy n s t d e
    by_call c e = skipped n s t

step-IsTidy :
    (e : Event) (es : List Event) (s : Capture)
    → IsTidy (starts (e ∷ es)) s
    → IsTidy (starts es) (step e s)
unfolding starts step
step-IsTidy (turn a) es s t = control-IsTidy (starts es) s t a
step-IsTidy proceed es s t = consumer_turn-IsTidy (starts es) s t s.call
step-IsTidy (call_start d) es s t = started-IsTidy (starts es) d s t
step-IsTidy call_available es s t =
    IsTidy-if (starts es) (is_idle s.call) _ _ (call_available-IsTidy (starts es) s t) t
step-IsTidy call_get es s t =
    IsTidy-if (starts es) (is_idle s.call) _ _ (call_get-IsTidy (starts es) s t) t
step-IsTidy call_stop es s t =
    IsTidy-if (starts es) (is_idle s.call) _ _ (call_stop-IsTidy (starts es) s t) t
step-IsTidy call_destroy es s t =
    IsTidy-if (starts es) (is_idle s.call) _ _ (call_destroy-IsTidy (starts es) s t) t

record IsKept (x : ℕ) (s : Capture) : Type 0 where
  tidy : IsTidy 0 s
  counted : IsCounted x s

run-IsKept :
    (x : ℕ) (es : List Event) (s : Capture)
    → IsTidy (starts es) s
    → IsOwned x s
    → IsCounted x s
    → IsKept x (run es s)
unfolding starts run
run-IsKept x [] s t o k = record { tidy = t; counted = k }
run-IsKept x (e ∷ es) s t o k =
    let change =
      subst (Change x s (step e s)) (lost_nothing x (starts (e ∷ es)) e s t) (step-Change x e s) in
    run-IsKept x es (step e s) (step-IsTidy e es s t) (Change-IsOwned x s (step e s) 0 change o)
      (Change-IsCounted x s (step e s) change o k)

new-IsTidy : (ok : Bool) (n : ℕ) → n ≤ 1 → IsTidy n (new_capture ok)
new-IsTidy ok n h = record {
  once = h;
  room = λ e. absurd (ground arith);
  started = λ e. absurd (ground arith);
  not_started = λ e. inr refl;
  emptied = λ e. inr refl;
}

-- Over any sequence of turns and calls of a new Kinect capturer with at most one call of start,
-- after which the capturer is destroyed and has no thread, each object that was made was
-- delivered once or freed once, and not both.
pub all_released :
    (ok : Bool) (es : List Event) (x : ℕ)
    → starts es ≤ 1
    → (run es (new_capture ok)).call ≡ gone
    → (run es (new_capture ok)).control_thread ≡ none
    → x < (run es (new_capture ok)).created
    → count x (run es (new_capture ok)).delivered + count x (run es (new_capture ok)).freed ≡ 1
unfolding places
all_released ok es x once destroyed no_thread made =
    let s = run es (new_capture ok) in
    let k =
      run-IsKept x es (new_capture ok) (new-IsTidy ok (starts es) once) (new-IsOwned x ok)
        (λ h. absurd (omega arith)) in
    let total = k.counted made in
    let thread : in_thread x s.control_thread ≡ 0 = ap (in_thread x) no_thread in
    let merged : in_merged x s.merged_pc ≡ 0 = elim (k.tidy.emptied destroyed) [
      | inl h ↦
          let f : has_thread s.control_thread ≡ false = ap has_thread no_thread in
          absurd (ground arith)
      | inr m ↦ ap (in_merged x) m
    ] in
    omega arith
