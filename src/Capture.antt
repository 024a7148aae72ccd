-- ===== src/Capture.antt =====
-- What the capturers of the cameras share: a control thread that makes point clouds on request, and one
-- consumer that calls the capturer. The thread and the consumer go on in turns. A turn of the thread reads
-- `stopped` or waits at most once; what the cameras answer in it is its input.
pub mod Kinect
pub mod RealSense
pub mod Playback
pub mod Samples
use cwipc.Common.{ℕ, Bool, true, false, Option, none, some, List, [], ◌∷◌, ◌+◌, ◌==◌, if◌then◌else◌}

pub record Answer : Type 0 where
  pub end_of_stream_reached : Bool
  pub all_captures_ok : Bool

-- The next thing that the control thread does, with `newPC` where it is not yet the merged point cloud.
pub data Place : Type 0 where
  testing waiting checking grabbing : Place
  saving processing locking : ℕ → Place
  locked merging publishing : Place
  ended : Place

-- The next thing that the consumer does: `idle` is outside of all calls, `gone` after the destructor.
pub data Call : Type 0 where
  idle asking_available looking asking taking asking_again joining destroying gone : Call

-- What opening the cameras answers: of `_init_hardware_for_all_cameras`, `_create_cameras` and
-- `_check_cameras_connected`, and the number of cameras.
pub record Devices : Type 0 where
  pub hardware_ok : Bool
  pub created_ok : Bool
  pub camera_count : ℕ
  pub connected_ok : Bool

-- A turn of the thread, the consumer going on, or a call.
pub data Event : Type 0 where
  turn : Answer → Event
  proceed : Event
  call_start : Devices → Event
  call_available call_get call_stop call_destroy : Event

abbrev pub has_thread : Option Place → Bool
has_thread none = false
has_thread (some p) = true

-- A `std::unique_lock` of `mergedPC_mutex` is held from `locked` on.
abbrev pub holds_lock : Option Place → Bool
holds_lock (some locked) = true
holds_lock (some merging) = true
holds_lock (some publishing) = true
holds_lock _ = false

-- The merged point cloud, if there is one, in front of a list.
abbrev pub with_merged : Option ℕ → List ℕ → List ℕ
with_merged none ids = ids
with_merged (some pc) ids = pc ∷ ids

-- The number of times that an object occurs.
unfoldable pub count : ℕ → List ℕ → ℕ
count x [] = 0
count x (y ∷ ys) = (if x == y then 1 else 0) + count x ys

abbrev pub in_merged : ℕ → Option ℕ → ℕ
in_merged x none = 0
in_merged x (some y) = if x == y then 1 else 0

abbrev pub in_thread : ℕ → Option Place → ℕ
in_thread x (some (saving y)) = if x == y then 1 else 0
in_thread x (some (processing y)) = if x == y then 1 else 0
in_thread x (some (locking y)) = if x == y then 1 else 0
in_thread x _ = 0
