-- ===== src/Capture/Playback.antt =====
-- The frames of Kinect recordings, in step: cwipc_kinect/src/K4APlaybackCamera.cpp and
-- K4APlaybackCapture.cpp. What the SDK reads of a file is a list: frames, `none` for a failure, and the
-- end of the file. Log lines are left out, and so is `max_delay`, which decides about them only. The
-- control thread is the only one that runs these functions, and `camera_stopped` changes after it.
pub mod Search
pub mod Tidy
pub mod Images
mod Samples
pub mod Sync
use cwipc.Common.{
  ℕ, zero, suc, Bool, true, false, not, ◌&&◌, ◌||◌, ◌+◌, ◌==◌, Option, none, some, List, [], ◌∷◌,
  if◌then◌else◌, ltb, length, map,
}
use cwipc.Common.Int.{ℤ, pos, negsuc, ◌+ℤ◌}

-- A capture: the time stamp of its color image, and the images that are there.
pub record Frame : Type 0 where
  pub timestamp : ℕ
  pub color : Bool
  pub depth : Bool

-- `images` counts the images that were got and not released, less those of the current frame.
pub record PlaybackCamera : Type 0 where
  pub camera_stopped : Bool
  pub is_sync_master : Bool
  pub current_captured_frameset : Option Frame
  pub current_frameset_timestamp : ℕ
  pub capture_id : ℤ
  pub waiting_for_capture : Bool
  pub end_of_stream_reached : Bool
  pub images : ℕ
  pub recording : List (Option Frame)

abbrev pub new_camera : Bool → List (Option Frame) → PlaybackCamera
new_camera is_master recording = record {
  camera_stopped = false;
  is_sync_master = is_master;
  current_captured_frameset = none;
  current_frameset_timestamp = 0;
  capture_id = negsuc 0;
  waiting_for_capture = false;
  end_of_stream_reached = false;
  images = 0;
  recording = recording;
}

abbrev pub has_both : Frame → Bool
has_both f = f.color && f.depth

-- The images that a frame keeps which lacks one: it is not used, and the other is not released.
abbrev pub kept_images : Frame → ℕ
kept_images f = if has_both f then 0 else if f.color || f.depth then 1 else 0

-- The loop of `_capture_next_valid_frame`, over what is left of the file.
unfoldable pub next_valid : List (Option Frame) → PlaybackCamera → PlaybackCamera × Bool
next_valid [] c = (
  record c {
    current_captured_frameset = none;
    waiting_for_capture = true;
    end_of_stream_reached = true;
    recording = [];
  },
  false,
)
next_valid (none ∷ fs) c = (
  record c { current_captured_frameset = none; waiting_for_capture = true; recording = fs },
  false,
)
next_valid (some f ∷ fs) c =
    let got : PlaybackCamera = record c {
      current_captured_frameset = some f;
      capture_id = c.capture_id +ℤ pos 1;
      waiting_for_capture = true;
      images = c.images + kept_images f;
      recording = fs;
    } in
    let rest = next_valid fs got in
    if has_both f then (record got { current_frameset_timestamp = f.timestamp }, true) else rest

unfoldable pub capture_next_valid_frame : PlaybackCamera → PlaybackCamera × Bool
capture_next_valid_frame c = if c.camera_stopped then (c, false) else next_valid c.recording c

-- The loop of `_capture_frame_no_earlier_than_timestamp`, at most so often.
unfoldable pub no_earlier : ℕ → ℕ → PlaybackCamera → PlaybackCamera × Bool
no_earlier zero master_timestamp c = (c, false)
no_earlier (suc n) master_timestamp c =
    let (c', ok) = capture_next_valid_frame c in
    let rest = no_earlier n master_timestamp c' in
    if ok
    then if ltb master_timestamp c'.current_frameset_timestamp then (c', true) else rest
    else (c', false)

abbrev pub has_frameset : PlaybackCamera → Bool
has_frameset c = elim c.current_captured_frameset [ none ↦ false | some f ↦ true ]

unfoldable pub capture_frame_no_earlier_than_timestamp : ℕ → PlaybackCamera → PlaybackCamera × Bool
capture_frame_no_earlier_than_timestamp master_timestamp c =
    if has_frameset c && ltb master_timestamp c.current_frameset_timestamp
    then (c, true)
    else no_earlier (suc (length c.recording)) master_timestamp c

-- 0 is no frame.
unfoldable pub wait_for_captured_frameset : ℕ → PlaybackCamera → PlaybackCamera × ℕ
wait_for_captured_frameset earliest_timestamp c =
    if c.camera_stopped
    then (c, 0)
    else let (c', ok) =
        if ltb 0 earliest_timestamp
        then capture_frame_no_earlier_than_timestamp earliest_timestamp c
        else capture_next_valid_frame c in
      (c', if ok then c'.current_frameset_timestamp else 0)

-- The first loop of `_capture_all_cameras`, which ends at the first master.
unfoldable pub capture_master : ℕ → List PlaybackCamera → List PlaybackCamera × ℕ × Bool
capture_master timestamp [] = ([], timestamp, true)
capture_master timestamp (c ∷ cs) =
    let (c', t) = wait_for_captured_frameset timestamp c in
    let (cs', t', ok) = capture_master timestamp cs in
    if c.is_sync_master then (c' ∷ cs, t, not (t == 0)) else (c ∷ cs', t', ok)

-- The second loop: the others, in step with the master or with the first of them.
unfoldable pub capture_others : ℕ → List PlaybackCamera → List PlaybackCamera × ℕ × Bool
capture_others timestamp [] = ([], timestamp, true)
capture_others timestamp (c ∷ cs) =
    let (c', t) = wait_for_captured_frameset timestamp c in
    let next : ℕ = if c.is_sync_master || not (timestamp == 0) then timestamp else t in
    let (cs', t', ok) = capture_others next cs in
    if c.is_sync_master
    then (c ∷ cs', t', ok)
    else if t == 0
    then (c' ∷ cs, timestamp, false)
    else (c' ∷ cs', t', ok)

unfoldable pub capture_all_cameras : ℕ → List PlaybackCamera → List PlaybackCamera × ℕ × Bool
capture_all_cameras timestamp cameras =
    let (cs, t, ok) = capture_master timestamp cameras in
    let others = capture_others t cs in if ok then others else (cs, t, false)

-- The frame goes to the processing thread, or is dropped where its queue is full.
abbrev pub process_pointcloud_from_frameset : PlaybackCamera → PlaybackCamera
process_pointcloud_from_frameset c = record c { current_captured_frameset = none }

-- One turn of the control thread: every camera's frame goes on, where all could be captured.
abbrev pub grab : List PlaybackCamera → List PlaybackCamera
grab cs =
    let (cs', t, ok) = capture_all_cameras 0 cs in
    if ok then map process_pointcloud_from_frameset cs' else cs'

-- So many turns.
abbrev pub rounds : ℕ → List PlaybackCamera → List PlaybackCamera
rounds zero cs = cs
rounds (suc n) cs = rounds n (grab cs)
