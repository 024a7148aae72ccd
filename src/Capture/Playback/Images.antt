-- ===== src/Capture/Playback/Images.antt =====
-- The images that a playback camera keeps.
use cwipc.Common.{
  ℕ, zero, suc, ◌≡◌, refl, ◌∙◌, Bool, true, false, ◌&&◌, ◌+◌, Option, none, some, List, [], ◌∷◌,
  if◌then◌else◌, ltb, length, arith,
}
use cwipc.Common.Int.{pos, ◌+ℤ◌}
use cwipc.Capture.Playback.{
  Frame, PlaybackCamera, has_both, has_frameset, kept_images, next_valid, capture_next_valid_frame,
  no_earlier, capture_frame_no_earlier_than_timestamp, wait_for_captured_frameset,
}

-- The images of a frame that has a color image or a depth image and not both, by these two.
abbrev pub single : Bool → Bool → ℕ
single true false = 1
single false true = 1
single true true = 0
single false false = 0

-- The single images of the frames of a file.
abbrev pub single_images : List (Option Frame) → ℕ
single_images [] = 0
single_images (none ∷ fs) = single_images fs
single_images (some f ∷ fs) = single f.color f.depth + single_images fs

kept_images-single : (f : Frame) → kept_images f ≡ single f.color f.depth
kept_images-single f = ground arith

-- The images that are kept, and those that are still in the file.
abbrev pub total : PlaybackCamera → ℕ
total c = c.images + single_images c.recording

total-if :
    {A : Type 0}
    → (n : ℕ) (b : Bool) (p q : PlaybackCamera × A) → total p.0 ≡ n
    → total q.0 ≡ n
    → total (if b then p else q).0 ≡ n
total-if n true p q e e' = e
total-if n false p q e e' = e'

next_valid-total :
    (fs : List (Option Frame)) (c : PlaybackCamera)
    → total (next_valid fs c).0 ≡ c.images + single_images fs
unfolding next_valid
next_valid-total [] c = refl
next_valid-total (none ∷ fs) c = refl
next_valid-total (some f ∷ fs) c =
    let got : PlaybackCamera = record c {
      current_captured_frameset = some f;
      capture_id = c.capture_id +ℤ pos 1;
      waiting_for_capture = true;
      images = c.images + kept_images f;
      recording = fs;
    } in
    let one = single f.color f.depth in
    let sum : total got ≡ c.images + (one + single_images fs) =
      omega (arith, kept_images-single f) in
    total-if (c.images + (one + single_images fs)) (has_both f)
      (record got { current_frameset_timestamp = f.timestamp }, true) (next_valid fs got) sum
      (next_valid-total fs got ∙ sum)

capture_next_valid_frame-total :
    (c : PlaybackCamera) → total (capture_next_valid_frame c).0 ≡ total c
unfolding capture_next_valid_frame
capture_next_valid_frame-total c =
    total-if (total c) c.camera_stopped (c, false) (next_valid c.recording c) refl
      (next_valid-total c.recording c)

no_earlier-total : (n t : ℕ) (c : PlaybackCamera) → total (no_earlier n t c).0 ≡ total c
unfolding no_earlier
no_earlier-total zero t c = refl
no_earlier-total (suc n) t c =
    let (c', ok) = capture_next_valid_frame c in
    let e : total c' ≡ total c = capture_next_valid_frame-total c in
    total-if (total c) ok
      (if ltb t c'.current_frameset_timestamp then (c', true) else no_earlier n t c') (c', false)
      (total-if (total c) (ltb t c'.current_frameset_timestamp) (c', true) (no_earlier n t c') e
        (no_earlier-total n t c' ∙ e))
      e

-- Waiting for a frame releases no image of a frame that has only a color image or only a depth
-- image: the images that a playback camera keeps and those single ones that are still in its file
-- are together as many as before.
pub wait_for_captured_frameset-total :
    (t : ℕ) (c : PlaybackCamera)
    → let c' = (wait_for_captured_frameset t c).0 in
      c'.images + single_images c'.recording ≡ c.images + single_images c.recording
unfolding wait_for_captured_frameset capture_frame_no_earlier_than_timestamp
wait_for_captured_frameset-total t c =
    let late : PlaybackCamera × Bool = capture_frame_no_earlier_than_timestamp t c in
    let found : PlaybackCamera × Bool = if ltb 0 t then late else capture_next_valid_frame c in
    total-if (total c) c.camera_stopped (c, 0)
      (found.0, if found.1 then (found.0).current_frameset_timestamp else 0) refl
      (total-if (total c) (ltb 0 t) late (capture_next_valid_frame c)
        (total-if (total c) (has_frameset c && ltb t c.current_frameset_timestamp) (c, true)
          (no_earlier (suc (length c.recording)) t c) refl
          (no_earlier-total (suc (length c.recording)) t c))
        (capture_next_valid_frame-total c))
