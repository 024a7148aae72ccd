-- ===== src/Capture/Playback/Sync.antt =====
-- Recordings that are played in step.
use mathlib.Core.Bool.{true≢false}
use mathlib.Core.Path.{subst}
use cwipc.Common.{
  ℕ, ◌≤◌, ◌≡◌, ◌≢◌, refl, sym, ap, ◌∙◌, Bool, true, false, not, Bool-cases, inl, inr, ◌==◌, Option,
  none, some, List, [], ◌∷◌, map, if◌then◌else◌, arith,
}
use cwipc.Capture.Playback.{
  Frame, PlaybackCamera, new_camera, has_both, wait_for_captured_frameset, capture_master,
  capture_others, capture_all_cameras, rounds,
}
use cwipc.Capture.Playback.Tidy.{
  Shows, IsTidy, AreTidy, next_time, capture_master-AreTidy, rounds-AreTidy, opened-AreTidy,
}
use cwipc.Capture.Playback.Search.{first, wanted, reuses, Answers, searched}

-- A camera that has a frame with both images, not before a time.
abbrev pub HasFrame : ℕ → PlaybackCamera → Type 0
HasFrame t c =
    (f : Frame) × (c.current_captured_frameset ≡ some f) × (has_both f ≡ true) × (t ≤ f.timestamp)

abbrev IsRight : (Frame → Bool) → Option (Frame × List (Option Frame)) → Type 0
IsRight p none = true ≡ true
IsRight p (some (f, fs)) = p f ≡ true

first-IsRight : (p : Frame → Bool) (l : List (Option Frame)) → IsRight p (first p l)
first-IsRight p [] = refl
first-IsRight p (none ∷ l) = refl
first-IsRight p (some f ∷ l) = elim (Bool-cases (p f)) [
  | inl e ↦ subst (λ b. IsRight p (if b then some (f, l) else first p l)) (sym e) e
  | inr e ↦
      subst (λ b. IsRight p (if b then some (f, l) else first p l)) (sym e) (first-IsRight p l)
]

wanted-is_later : (t : ℕ) (f : Frame) → wanted t f ≡ true → (has_both f ≡ true) × (t ≤ f.timestamp)
wanted-is_later t f e = ground arith

-- The frame that a search gives, which has the time that it answers.
abbrev Gives : ℕ → PlaybackCamera × ℕ → Type 0
Gives t (c, t') =
    (f : Frame) × (c.current_captured_frameset ≡ some f)
    × (has_both f ≡ true)
    × (t' ≡ f.timestamp)
    × (t ≤ t')

Answers-Gives :
    (t : ℕ) (o : Option (Frame × List (Option Frame))) (r : PlaybackCamera × ℕ)
    → IsRight (wanted t) o
    → Answers o r
    → r.1 ≢ 0
    → Gives t r
Answers-Gives t none (c, t') h e some_time = absurd (some_time e)
Answers-Gives t (some (f, fs)) (c, t') h (e, cur, rec) some_time =
    let (both, late) = wanted-is_later t f h in (f, cur, both, e, subst (λ x. t ≤ x) (sym e) late)

shown :
    (o : Option Frame) (t : ℕ)
    → Shows o t
    → elim o [ none ↦ false | some f ↦ true ] ≡ true
    → (f : Frame) × (o ≡ some f) × (has_both f ≡ true) × (t ≡ f.timestamp)
shown none t h e = absurd (true≢false (sym e))
shown (some f) t (e, both) _ = (f, refl, both, e)

wait_for_captured_frameset-Gives :
    (t : ℕ) (c : PlaybackCamera)
    → IsTidy c
    → (wait_for_captured_frameset t c).1 ≢ 0
    → Gives t (wait_for_captured_frameset t c)
wait_for_captured_frameset-Gives t c (run, shows) some_time =
    let (kept, found) = searched t c run in
    elim (Bool-cases (reuses t c)) [
      | inl e ↦
          let (f, cur, both, ts) =
            shown c.current_captured_frameset c.current_frameset_timestamp shows (ground arith) in
          subst (Gives t) (sym (kept e)) (f, cur, both, ts, ground arith)
      | inr e ↦
          Answers-Gives t (first (wanted t) c.recording) (wait_for_captured_frameset t c)
            (first-IsRight (wanted t) c.recording) (found e) some_time
    ]

-- Every camera but the masters has a frame, not before a time.
abbrev pub AreInStep : ℕ → List PlaybackCamera → Type 0
AreInStep t [] = true ≡ true
AreInStep t (c ∷ cs) = (c.is_sync_master ≡ false → HasFrame t c) × AreInStep t cs

abbrev InStep : ℕ → List PlaybackCamera × ℕ × Bool → Type 0
InStep t (cs, t', ok) = ok ≡ true → AreInStep t' cs × (t ≤ t') × (t ≢ 0 → t' ≡ t)

gave_times :
    (t r t' : ℕ)
    → t ≤ r
    → r ≢ 0
    → (next_time false t r ≢ 0 → t' ≡ next_time false t r)
    → (t' ≤ r) × (t ≤ t') × (t ≢ 0 → t' ≡ t)
gave_times t r t' late some_time same = elim (Bool-cases (t == 0)) [
  | inl zero_time ↦
      let next : next_time false t r ≡ r = ap (λ b. if not b then t else r) zero_time in
      let at_r : t' ≡ r = same (λ z. some_time (sym next ∙ z)) ∙ next in
      (omega arith, ground arith, λ n. absurd (n (ground arith)))
  | inr later ↦
      let next : next_time false t r ≡ t = ap (λ b. if not b then t else r) later in
      let nonzero : t ≢ 0 = ground arith in
      let at_t : t' ≡ t = same (λ z. nonzero (sym next ∙ z)) ∙ next in
      (omega arith, omega arith, λ n. at_t)
]

-- A camera that gave a frame, and the others.
gave-InStep :
    (t r t' : ℕ) (c : PlaybackCamera) (cs : List PlaybackCamera) (ok : Bool)
    → Gives t (c, r)
    → r ≢ 0
    → InStep (next_time false t r) (cs, t', ok)
    → InStep t (c ∷ cs, t', ok)
gave-InStep t r t' c cs ok (f, cur, both, ts, late) some_time ih e =
    let (others, least, same) = ih e in
    let (early, least', same') = gave_times t r t' late some_time same in
    (((λ no. (f, cur, both, subst (λ x. t' ≤ x) ts early)), others), least', same')

others_step :
    (t r : ℕ) (c c' : PlaybackCamera) (cs cs' : List PlaybackCamera) (t' : ℕ) (ok m : Bool)
    → c.is_sync_master ≡ m
    → (r ≢ 0 → Gives t (c', r))
    → InStep (next_time m t r) (cs', t', ok)
    → InStep t (
        if m then (c ∷ cs', t', ok) else if r == 0 then (c' ∷ cs, t, false) else (c' ∷ cs', t', ok))
others_step t r c c' cs cs' t' ok true is_master gives ih = λ e.
    let (others, least, same) = ih e in
    ((λ no. absurd (true≢false (sym is_master ∙ no)), others), least, same)
others_step t r c c' cs cs' t' ok false no_master gives ih = elim (Bool-cases (r == 0)) [
  | inl e ↦
      subst (λ b. InStep t (if b then (c' ∷ cs, t, false) else (c' ∷ cs', t', ok))) (sym e)
        (λ f. absurd (true≢false (sym f)))
  | inr e ↦
      let some_time : r ≢ 0 = ground arith in
      subst (λ b. InStep t (if b then (c' ∷ cs, t, false) else (c' ∷ cs', t', ok))) (sym e)
        (gave-InStep t r t' c' cs' ok (gives some_time) some_time ih)
]

capture_others-InStep :
    (t : ℕ) (cs : List PlaybackCamera) → AreTidy cs → InStep t (capture_others t cs)
unfolding capture_others
capture_others-InStep t [] h = λ e. (refl, omega arith, λ n. refl)
capture_others-InStep t (c ∷ cs) (h, hs) =
    let (c', r) = wait_for_captured_frameset t c in
    let (cs', t', ok) = capture_others (next_time c.is_sync_master t r) cs in
    others_step t r c c' cs cs' t' ok c.is_sync_master refl (wait_for_captured_frameset-Gives t c h)
      (capture_others-InStep (next_time c.is_sync_master t r) cs hs)

whole_step :
    (ok : Bool) (cs : List PlaybackCamera) (t : ℕ) (p : List PlaybackCamera × ℕ × Bool)
    → InStep t p
    → let (cs', t', ok') = if ok then p else (cs, t, false) in ok' ≡ true → AreInStep t' cs'
whole_step true cs t p h = λ e. (h e).0
whole_step false cs t p h = λ e. absurd (true≢false (sym e))

-- A capture after so many turns.
abbrev pub captured : ℕ → List (Bool × List (Option Frame)) → List PlaybackCamera × ℕ × Bool
captured n files = capture_all_cameras 0 (rounds n (map (λ f. new_camera f.0 f.1) files))

-- After any number of turns of Kinect cameras that play recordings, a capture of all cameras that
-- succeeds leaves each of those that is no master with a frame that has both images and whose
-- time stamp is not before the one that is answered.
pub capture_all_cameras-AreInStep :
    (n : ℕ) (files : List (Bool × List (Option Frame)))
    → (captured n files).2 ≡ true
    → AreInStep (captured n files).1 (captured n files).0
unfolding capture_all_cameras
capture_all_cameras-AreInStep n files =
    let cs : List PlaybackCamera = rounds n (map (λ f. new_camera f.0 f.1) files) in
    let tidy = rounds-AreTidy n _ (opened-AreTidy files) in
    let (cs', t', ok) = capture_master 0 cs in
    whole_step ok cs' t' (capture_others t' cs')
      (capture_others-InStep t' cs' (capture_master-AreTidy 0 cs tidy))
