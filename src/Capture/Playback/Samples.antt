-- ===== src/Capture/Playback/Samples.antt =====
-- Two recordings: of the other camera, one frame is too early and one has no depth image.
use cwipc.Common.{ℕ, ◌+◌, ◌≡◌, refl, Bool, true, false, Option, some, List, [], ◌∷◌}
use cwipc.Capture.Playback.{
  Frame, new_camera, capture_all_cameras, capture_master, capture_others,
  wait_for_captured_frameset, capture_next_valid_frame, next_valid, no_earlier,
  capture_frame_no_earlier_than_timestamp,
}
use cwipc.Capture.Playback.Search.{Answers, wait_for_captured_frameset-first}
use cwipc.Capture.Playback.Sync.{captured, AreInStep, capture_all_cameras-AreInStep}
use cwipc.Capture.Playback.Images.{single_images, wait_for_captured_frameset-total}

abbrev at_time : ℕ → Option Frame
at_time t = some (record { timestamp = t; color = true; depth = true })

abbrev no_depth : ℕ → Option Frame
no_depth t = some (record { timestamp = t; color = true; depth = false })

abbrev other_file : List (Option Frame)
other_file = at_time 90 ∷ no_depth 150 ∷ at_time 160 ∷ at_time 260 ∷ []

abbrev files : List (Bool × List (Option Frame))
files = (true, at_time 100 ∷ at_time 200 ∷ []) ∷ (false, other_file) ∷ []

second_turn : ((captured 1 files).1 ≡ 200) × ((captured 1 files).2 ≡ true)
unfolding capture_all_cameras capture_master capture_others wait_for_captured_frameset
    capture_next_valid_frame next_valid no_earlier capture_frame_no_earlier_than_timestamp
second_turn = (refl, refl)

capture_all_cameras-AreInStep_example : AreInStep (captured 1 files).1 (captured 1 files).0
capture_all_cameras-AreInStep_example = capture_all_cameras-AreInStep 1 files second_turn.1

wait_for_captured_frameset-first_example :
    Answers
      (some (record { timestamp = 160; color = true; depth = true }, at_time 260 ∷ []))
      (wait_for_captured_frameset 100 (new_camera false other_file))
wait_for_captured_frameset-first_example =
    wait_for_captured_frameset-first 100 (new_camera false other_file) refl

wait_for_captured_frameset-total_example :
    let c' = (wait_for_captured_frameset 100 (new_camera false other_file)).0 in
    c'.images + single_images c'.recording ≡ 1
wait_for_captured_frameset-total_example =
    wait_for_captured_frameset-total 100 (new_camera false other_file)
