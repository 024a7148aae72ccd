-- ===== src/Capture/Playback/Tidy.antt =====
-- What every capture of a playback camera keeps.

use cwipc.Common.{
  ℕ, zero, suc, ◌≡◌, refl, ◌∙◌, Bool, true, false, ◌&&◌, ◌||◌, not, Bool-cases, inl, inr, ◌==◌,
  Option, none, some, List, [], ◌∷◌, map, if◌then◌else◌, ltb, length,
}
use cwipc.Capture.Playback.{
  Frame, PlaybackCamera, new_camera, has_both, has_frameset, next_valid, capture_next_valid_frame,
  no_earlier, capture_frame_no_earlier_than_timestamp, wait_for_captured_frameset, capture_master,
  capture_others, capture_all_cameras, process_pointcloud_from_frameset, grab, rounds,
}

-- A frame that is kept has both images, and its time stamp is the one that is kept.
abbrev pub Shows : Option Frame → ℕ → Type 0
Shows none t = true ≡ true
Shows (some f) t = (t ≡ f.timestamp) × (has_both f ≡ true)

abbrev pub IsTidy : PlaybackCamera → Type 0
IsTidy c =
    (c.camera_stopped ≡ false) × Shows c.current_captured_frameset c.current_frameset_timestamp

-- What no capture changes, and what every one keeps.
abbrev pub Keeps : PlaybackCamera → PlaybackCamera → Type 0
Keeps c c' = (c'.is_sync_master ≡ c.is_sync_master) × IsTidy c'

next_valid-Keeps :
    (fs : List (Option Frame)) (c : PlaybackCamera)
    → c.camera_stopped ≡ false
    → Keeps c (next_valid fs c).0
unfolding next_valid
next_valid-Keeps [] c run = (refl, (run, refl))
next_valid-Keeps (none ∷ fs) c run = (refl, (run, refl))
next_valid-Keeps (some f ∷ fs) c run = elim (Bool-cases (has_both f)) [
  | inl e ↦ rw e (refl, (run, (refl, e)))
  | inr e ↦ rw e (next_valid-Keeps fs _ run)
]

-- Whatever a test decides.
Keeps-if :
    {A : Type 0}
    → (c : PlaybackCamera) (b : Bool) (p q : PlaybackCamera × A) → Keeps c p.0
    → Keeps c q.0
    → Keeps c (if b then p else q).0
Keeps-if c true p q h h' = h
Keeps-if c false p q h h' = h'

capture_next_valid_frame-Keeps :
    (c : PlaybackCamera) → IsTidy c → Keeps c (capture_next_valid_frame c).0
unfolding capture_next_valid_frame
capture_next_valid_frame-Keeps c (run, shows) =
    Keeps-if c c.camera_stopped (c, false) (next_valid c.recording c) (refl, (run, shows))
      (next_valid-Keeps c.recording c run)

no_earlier-Keeps : (n t : ℕ) (c : PlaybackCamera) → IsTidy c → Keeps c (no_earlier n t c).0
unfolding no_earlier
no_earlier-Keeps zero t c h = (refl, h)
no_earlier-Keeps (suc n) t c h =
    let (c', ok) = capture_next_valid_frame c in
    let (same, h') = capture_next_valid_frame-Keeps c h in
    let (same', h'') = no_earlier-Keeps n t c' h' in
    Keeps-if c ok (if ltb t c'.current_frameset_timestamp then (c', true) else no_earlier n t c')
      (c', false)
      (Keeps-if c (ltb t c'.current_frameset_timestamp) (c', true) (no_earlier n t c') (same, h')
        (same' ∙ same, h''))
      (same, h')

pub wait_for_captured_frameset-Keeps :
    (t : ℕ) (c : PlaybackCamera) → IsTidy c → Keeps c (wait_for_captured_frameset t c).0
unfolding wait_for_captured_frameset capture_frame_no_earlier_than_timestamp
wait_for_captured_frameset-Keeps t c h =
    let reused : Bool = has_frameset c && ltb t c.current_frameset_timestamp in
    let late : PlaybackCamera × Bool = capture_frame_no_earlier_than_timestamp t c in
    let found : PlaybackCamera × Bool = if ltb 0 t then late else capture_next_valid_frame c in
    Keeps-if c c.camera_stopped (c, 0)
      (found.0, if found.1 then (found.0).current_frameset_timestamp else 0) (refl, h)
      (Keeps-if c (ltb 0 t) late (capture_next_valid_frame c)
        (Keeps-if c reused (c, true) (no_earlier (suc (length c.recording)) t c) (refl, h)
          (no_earlier-Keeps (suc (length c.recording)) t c h))
        (capture_next_valid_frame-Keeps c h))

abbrev pub AreTidy : List PlaybackCamera → Type 0
AreTidy [] = true ≡ true
AreTidy (c ∷ cs) = IsTidy c × AreTidy cs

abbrev pub next_time : Bool → ℕ → ℕ → ℕ
next_time is_master t r = if is_master || not (t == 0) then t else r

AreTidy-if :
    (b : Bool) (p q : List PlaybackCamera × ℕ × Bool)
    → AreTidy p.0
    → AreTidy q.0
    → AreTidy (if b then p else q).0
AreTidy-if true p q h h' = h
AreTidy-if false p q h h' = h'

pub capture_master-AreTidy :
    (t : ℕ) (cs : List PlaybackCamera) → AreTidy cs → AreTidy (capture_master t cs).0
unfolding capture_master
capture_master-AreTidy t [] h = refl
capture_master-AreTidy t (c ∷ cs) (h, hs) =
    let (c', r) = wait_for_captured_frameset t c in
    let (cs', t', ok) = capture_master t cs in
    AreTidy-if c.is_sync_master (c' ∷ cs, r, not (r == 0)) (c ∷ cs', t', ok)
      ((wait_for_captured_frameset-Keeps t c h).1, hs) (h, capture_master-AreTidy t cs hs)

pub capture_others-AreTidy :
    (t : ℕ) (cs : List PlaybackCamera) → AreTidy cs → AreTidy (capture_others t cs).0
unfolding capture_others
capture_others-AreTidy t [] h = refl
capture_others-AreTidy t (c ∷ cs) (h, hs) =
    let (c', r) = wait_for_captured_frameset t c in
    let next : ℕ = next_time c.is_sync_master t r in
    let (cs', t', ok) = capture_others next cs in
    let h' = (wait_for_captured_frameset-Keeps t c h).1 in
    let hs' = capture_others-AreTidy next cs hs in
    AreTidy-if c.is_sync_master (c ∷ cs', t', ok)
      (if r == 0 then (c' ∷ cs, t, false) else (c' ∷ cs', t', ok)) (h, hs')
      (AreTidy-if (r == 0) (c' ∷ cs, t, false) (c' ∷ cs', t', ok) (h', hs) (h', hs'))

capture_all_cameras-AreTidy :
    (t : ℕ) (cs : List PlaybackCamera) → AreTidy cs → AreTidy (capture_all_cameras t cs).0
unfolding capture_all_cameras
capture_all_cameras-AreTidy t cs h =
    let (cs', t', ok) = capture_master t cs in
    let h' = capture_master-AreTidy t cs h in
    AreTidy-if ok (capture_others t' cs') (cs', t', false) (capture_others-AreTidy t' cs' h') h'

process_all-AreTidy :
    (cs : List PlaybackCamera) → AreTidy cs → AreTidy (map process_pointcloud_from_frameset cs)
process_all-AreTidy [] h = refl
process_all-AreTidy (c ∷ cs) ((run, shows), hs) = ((run, refl), process_all-AreTidy cs hs)

AreTidy-choice :
    (ok : Bool) (cs : List PlaybackCamera)
    → AreTidy cs
    → AreTidy (if ok then map process_pointcloud_from_frameset cs else cs)
AreTidy-choice true cs h = process_all-AreTidy cs h
AreTidy-choice false cs h = h

pub rounds-AreTidy : (n : ℕ) (cs : List PlaybackCamera) → AreTidy cs → AreTidy (rounds n cs)
rounds-AreTidy zero cs h = h
rounds-AreTidy (suc n) cs h =
    let (cs', t, ok) = capture_all_cameras 0 cs in
    let h' = capture_all_cameras-AreTidy 0 cs h in
    rounds-AreTidy n (grab cs) (AreTidy-choice ok cs' h')

pub opened-AreTidy :
    (files : List (Bool × List (Option Frame))) → AreTidy (map (λ f. new_camera f.0 f.1) files)
opened-AreTidy [] = refl
opened-AreTidy (f ∷ fs) = ((refl, refl), opened-AreTidy fs)
