-- ===== src/Capture/Playback/Search.antt =====
-- The loops of a playback camera, as searches of the file.
use mathlib.Core.Path.{subst}
use mathlib.Core.Bool.{true≢false}
use cwipc.Common.{
  ℕ, zero, suc, ◌<◌, ◌≡◌, refl, sym, ap, ◌∙◌, Bool, true, false, ◌&&◌, Bool-cases, inl, inr, Option,
  none, some, List, [], ◌∷◌, if◌then◌else◌, ltb, length, arith,
}
use cwipc.Capture.Playback.{
  Frame, PlaybackCamera, has_both, has_frameset, next_valid, capture_next_valid_frame, no_earlier,
  capture_frame_no_earlier_than_timestamp, wait_for_captured_frameset,
}

-- The first frame with a property, and what follows it; a failure ends the search.
abbrev pub first : (Frame → Bool) → List (Option Frame) → Option (Frame × List (Option Frame))
first p [] = none
first p (none ∷ fs) = none
first p (some f ∷ fs) = if p f then some (f, fs) else first p fs

-- What a search says of a camera after it and of its answer.
abbrev pub Found : Option (Frame × List (Option Frame)) → PlaybackCamera × Bool → Type 0
Found none (c, ok) = (ok ≡ false) × (c.camera_stopped ≡ false)
Found (some (f, fs)) (c, ok) =
    (ok ≡ true)
    × (c.camera_stopped ≡ false)
    × (c.current_captured_frameset ≡ some f)
    × (c.current_frameset_timestamp ≡ f.timestamp)
    × (c.recording ≡ fs)

next_valid-Found :
    (fs : List (Option Frame)) (c : PlaybackCamera)
    → c.camera_stopped ≡ false
    → Found (first has_both fs) (next_valid fs c)
unfolding next_valid
next_valid-Found [] c run = (refl, run)
next_valid-Found (none ∷ fs) c run = (refl, run)
next_valid-Found (some f ∷ fs) c run = elim (Bool-cases (has_both f)) [
  | inl e ↦ rw e (refl, run, refl, refl, refl)
  | inr e ↦ rw e (next_valid-Found fs _ run)
]

abbrev pub is_later : ℕ → Frame → Bool
is_later t f = has_both f && ltb t f.timestamp

-- A search for a later frame goes on after the first frame that has both images.
abbrev Continues : ℕ → List (Option Frame) → Option (Frame × List (Option Frame)) → Type 0
Continues t l none = first (is_later t) l ≡ none
Continues t l (some (f, fs)) =
    (length fs < length l)
    × (first (is_later t) l ≡ (if ltb t f.timestamp then some (f, fs) else first (is_later t) fs))

skip_frame :
    (t : ℕ) (f : Frame) (fs : List (Option Frame))
    → has_both f ≡ false
    → first (is_later t) (some f ∷ fs) ≡ first (is_later t) fs
skip_frame t f fs e =
    ap (λ b. if b && ltb t f.timestamp then some (f, fs) else first (is_later t) fs) e

skipped-Continues :
    (t : ℕ) (f : Frame) (fs : List (Option Frame)) (o : Option (Frame × List (Option Frame)))
    → has_both f ≡ false
    → Continues t fs o
    → Continues t (some f ∷ fs) o
skipped-Continues t f fs none e h = skip_frame t f fs e ∙ h
skipped-Continues t f fs (some (g, gs)) e (shorter, h) = (omega arith, skip_frame t f fs e ∙ h)

first-Continues : (t : ℕ) (l : List (Option Frame)) → Continues t l (first has_both l)
first-Continues t [] = refl
first-Continues t (none ∷ fs) = refl
first-Continues t (some f ∷ fs) = elim (Bool-cases (has_both f)) [
  | inl e ↦
      subst (λ b. Continues t (some f ∷ fs) (if b then some (f, fs) else first has_both fs)) (sym e)
        (
          omega arith,
          ap (λ b. if b && ltb t f.timestamp then some (f, fs) else first (is_later t) fs) e,
        )
  | inr e ↦
      subst (λ b. Continues t (some f ∷ fs) (if b then some (f, fs) else first has_both fs)) (sym e)
        (skipped-Continues t f fs (first has_both fs) e (first-Continues t fs))
]

capture_next_valid_frame-Found :
    (c : PlaybackCamera)
    → c.camera_stopped ≡ false
    → Found (first has_both c.recording) (capture_next_valid_frame c)
unfolding capture_next_valid_frame
capture_next_valid_frame-Found c run =
    subst
      (λ b. Found (first has_both c.recording) (if b then (c, false) else next_valid c.recording c))
      (sym run) (next_valid-Found c.recording c run)

-- One turn of the loop, by what it finds.
no_earlier_step :
    (n t : ℕ) (c : PlaybackCamera) (o : Option (Frame × List (Option Frame)))
    (r : PlaybackCamera × Bool)
    → length c.recording < suc n
    → Found o r
    → Continues t c.recording o
    → ((c' : PlaybackCamera)
        → c'.camera_stopped ≡ false
        → length c'.recording < n
        → Found (first (is_later t) c'.recording) (no_earlier n t c'))
    → Found (first (is_later t) c.recording) (
        if r.1
        then if ltb t (r.0).current_frameset_timestamp then (r.0, true) else no_earlier n t r.0
        else (r.0, false))
no_earlier_step n t c none (c', ok) few (e, run) go next =
    subst
      (λ b. Found (first (is_later t) c.recording) (
        if b
        then if ltb t c'.current_frameset_timestamp then (c', true) else no_earlier n t c'
        else (c', false)))
      (sym e) (subst (λ o. Found o (c', false)) (sym go) (refl, run))
no_earlier_step n t c (some (f, fs)) (c', ok) few (e, run, cur, ts, rec) (shorter, go) next =
    let later : Option (Frame × List (Option Frame)) = first (is_later t) c.recording in
    let chosen : Bool → PlaybackCamera × Bool = λ b. if b then (c', true) else no_earlier n t c' in
    let same : ltb t c'.current_frameset_timestamp ≡ ltb t f.timestamp = ap (ltb t) ts in
    subst
      (λ b. Found later (if b then chosen (ltb t c'.current_frameset_timestamp) else (c', false)))
      (sym e)
      (elim (Bool-cases (ltb t f.timestamp)) [
        | inl past ↦
            let here : later ≡ some (f, fs) =
              go ∙ ap (λ b. if b then some (f, fs) else first (is_later t) fs) past in
            subst (λ b. Found later (chosen b)) (sym (same ∙ past))
              (subst (λ o. Found o (c', true)) (sym here) (refl, run, cur, ts, rec))
        | inr early ↦
            let further : later ≡ first (is_later t) c'.recording =
              go
              ∙ ap (λ b. if b then some (f, fs) else first (is_later t) fs) early
              ∙ ap (first (is_later t)) (sym rec) in
            let few' : length c'.recording < n =
              subst (λ l. length l < n) (sym rec) (omega arith) in
            subst (λ b. Found later (chosen b)) (sym (same ∙ early))
              (subst (λ o. Found o (no_earlier n t c')) (sym further) (next c' run few'))
      ])

no_earlier-Found :
    (n t : ℕ) (c : PlaybackCamera)
    → c.camera_stopped ≡ false
    → length c.recording < n
    → Found (first (is_later t) c.recording) (no_earlier n t c)
unfolding no_earlier
no_earlier-Found zero t c run few = absurd (omega arith)
no_earlier-Found (suc n) t c run few =
    no_earlier_step n t c (first has_both c.recording) (capture_next_valid_frame c) few
      (capture_next_valid_frame-Found c run) (first-Continues t c.recording)
      (λ c' run' few'. no_earlier-Found n t c' run' few')

abbrev pub reuses : ℕ → PlaybackCamera → Bool
reuses t c = ltb 0 t && (has_frameset c && ltb t c.current_frameset_timestamp)

abbrev pub wanted : ℕ → Frame → Bool
wanted t = if ltb 0 t then is_later t else has_both

abbrev pub Answers : Option (Frame × List (Option Frame)) → PlaybackCamera × ℕ → Type 0
Answers none (c, t) = t ≡ 0
Answers (some (f, fs)) (c, t) =
    (t ≡ f.timestamp) × (c.current_captured_frameset ≡ some f) × (c.recording ≡ fs)

Found-Answers :
    (o : Option (Frame × List (Option Frame))) (p : PlaybackCamera × Bool)
    → Found o p
    → Answers o (p.0, if p.1 then (p.0).current_frameset_timestamp else 0)
Found-Answers none (c, ok) (e, run) = rw e refl
Found-Answers (some (f, fs)) (c, ok) (e, run, cur, ts, rec) = (rw e ts, cur, rec)

abbrev pub WaitsFor : ℕ → PlaybackCamera → Bool → Bool → PlaybackCamera × ℕ → Type 0
WaitsFor t c later kept r =
    ((later && kept) ≡ true → r ≡ (c, c.current_frameset_timestamp))
    × ((later && kept) ≡ false
        → Answers (first (if later then is_later t else has_both) c.recording) r)

abbrev answer : PlaybackCamera × Bool → PlaybackCamera × ℕ
answer p = (p.0, if p.1 then (p.0).current_frameset_timestamp else 0)

choice-WaitsFor :
    (t : ℕ) (c : PlaybackCamera) (later kept : Bool) (p q : PlaybackCamera × Bool)
    → Found (first (is_later t) c.recording) p
    → Found (first has_both c.recording) q
    → WaitsFor t c later kept (answer (if later then if kept then (c, true) else p else q))
choice-WaitsFor t c true true p q h h' = (λ e. refl, λ e. absurd (true≢false e))
choice-WaitsFor t c true false p q h h' =
    (λ e. absurd (true≢false (sym e)), λ e. Found-Answers (first (is_later t) c.recording) p h)
choice-WaitsFor t c false kept p q h h' =
    (λ e. absurd (true≢false (sym e)), λ e. Found-Answers (first has_both c.recording) q h')

pub searched :
    (t : ℕ) (c : PlaybackCamera)
    → c.camera_stopped ≡ false
    → WaitsFor t c
        (ltb 0 t)
        (has_frameset c && ltb t c.current_frameset_timestamp)
        (wait_for_captured_frameset t c)
unfolding wait_for_captured_frameset capture_frame_no_earlier_than_timestamp
searched t c run =
    subst
      (λ b. WaitsFor t c (ltb 0 t) (has_frameset c && ltb t c.current_frameset_timestamp) (
        if b
        then (c, 0)
        else answer (
            if ltb 0 t
            then capture_frame_no_earlier_than_timestamp t c
            else capture_next_valid_frame c)))
      (sym run)
      (choice-WaitsFor t c (ltb 0 t) (has_frameset c && ltb t c.current_frameset_timestamp)
        (no_earlier (suc (length c.recording)) t c) (capture_next_valid_frame c)
        (no_earlier-Found (suc (length c.recording)) t c run (omega arith))
        (capture_next_valid_frame-Found c run))

-- A playback camera that is not stopped is asked for a frame later than a time, or for any frame
-- if the time is 0. If it has a frame later than a time that is not 0, it does not change and
-- answers the time stamp of that frame. Else it answers the time stamp of the first frame that is
-- left in its file, before any failure, that has both images and is late enough, and has that
-- frame and what follows it in the file; or it answers 0 if there is no such frame.
pub wait_for_captured_frameset-first :
    (t : ℕ) (c : PlaybackCamera)
    → c.camera_stopped ≡ false
    → if reuses t c
      then wait_for_captured_frameset t c ≡ (c, c.current_frameset_timestamp)
      else Answers (first (wanted t) c.recording) (wait_for_captured_frameset t c)
wait_for_captured_frameset-first t c run =
    let (kept, found) = searched t c run in
    elim (Bool-cases (reuses t c)) [ inl e ↦ rw e (kept e) | inr e ↦ rw e (found e) ]
