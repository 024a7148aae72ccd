-- ===== src/Capture/RealSense.antt =====
-- `RS2BaseCapture` (cwipc_realsense2/src/RS2BaseCapture.hpp). Point clouds are numbered as they are made.
-- The writes of `_stop_cameras` up to the join are one step.
pub mod Destroying
use cwipc.Common.{
  ℕ, zero, suc, Bool, true, false, not, ◌&&◌, ◌||◌, Option, none, some, List, [], ◌∷◌, ◌==◌,
  if◌then◌else◌,
}
use cwipc.Capture.{
  Answer, Place, testing, waiting, checking, grabbing, saving, processing, locking, locked, merging,
  publishing, ended, Call, idle, asking_available, looking, asking, taking, asking_again, joining,
  destroying, gone, Devices, Event, turn, proceed, call_start, call_available, call_get, call_stop,
  call_destroy, has_thread, holds_lock, with_merged,
}

pub record Capture : Type 0 where
  pub cameras : ℕ
  pub configured : ℕ
  pub is_initialized : Bool
  pub stopping : Bool
  pub stopped : Bool
  pub is_eof : Bool
  pub merged_pc : Option ℕ
  pub is_fresh : Bool
  pub want_new : Bool
  pub control_thread : Option Place
  pub call : Call
  -- How many were made, and what became of them, the last one first.
  pub created : ℕ
  pub freed : List ℕ
  pub delivered : List ℕ

abbrev pub new_capture : Bool → ℕ → Capture
new_capture is_initialized configured = record {
  cameras = 0;
  configured = configured;
  is_initialized = is_initialized;
  stopping = false;
  stopped = false;
  is_eof = false;
  merged_pc = none;
  is_fresh = false;
  want_new = false;
  control_thread = none;
  call = idle;
  created = 0;
  freed = [];
  delivered = [];
}

abbrev pub free_pc : ℕ → Capture → Capture
free_pc pc s = record s { freed = pc ∷ s.freed }

abbrev pub free_merged : Capture → Capture
free_merged s = record s { freed = with_merged s.merged_pc s.freed; merged_pc = none }

abbrev pub at : Place → Capture → Capture
at p s = record s { control_thread = some p }

-- The control thread, from each place to the next.
unfoldable pub thread_turn : Answer → Place → Capture → Capture
thread_turn a testing s = at (if s.stopped || s.stopping then ended else waiting) s
thread_turn a waiting s = at (if s.want_new then checking else waiting) s
thread_turn a checking s =
    if a.end_of_stream_reached
    then at ended (record s { is_eof = true; stopped = true })
    else at (if s.stopped then ended else grabbing) s
thread_turn a grabbing s =
    if not a.all_captures_ok
    then at testing s
    else if s.stopped
    then at ended s
    else at (saving s.created) (record s { created = suc s.created })
thread_turn a (saving pc) s = if s.stopped then at ended (free_pc pc s) else at (processing pc) s
thread_turn a (processing pc) s = if s.stopped then at ended (free_pc pc s) else at (locking pc) s
thread_turn a (locking pc) s =
    let s' : Capture = if s.is_fresh then free_merged s else s in
    at locked (record s' { merged_pc = some pc })
thread_turn a locked s = at (if s.stopped then ended else merging) s
thread_turn a merging s = at publishing s
thread_turn a publishing s = at testing (record s { is_fresh = true; want_new = false })
thread_turn a ended s = s

unfoldable pub control : Answer → Capture → Capture
control a s = elim s.control_thread [ none ↦ s | some p ↦ thread_turn a p s ]

abbrev pub is_playing : Capture → Bool
is_playing s = has_thread s.control_thread

abbrev pub request_new : Capture → Capture
request_new s = record s {
  want_new = if not s.want_new && not s.is_fresh then true else s.want_new;
}

-- The end of the wait in `get_pointcloud`.
abbrev pub take : Capture → Capture
take s = record s { is_fresh = false; delivered = with_merged s.merged_pc s.delivered }

-- `_stop_cameras` before the join.
abbrev pub stop_cameras : Capture → Capture
stop_cameras s = record s { stopping = true; stopped = true; is_fresh = true; want_new = true }

-- The rest of it, and of `_unload_cameras`.
abbrev pub after_join : Capture → Capture
after_join s = record s { control_thread = none; cameras = 0 }

-- `_unload_cameras` where there is no thread to join.
abbrev pub unload_cameras : Capture → Capture
unload_cameras s = after_join (stop_cameras s)

unfoldable pub start : Devices → Capture → Capture
start d s =
    let opened : Capture = record s { cameras = d.camera_count } in
    if not s.is_initialized
    then s
    else if is_playing s
    then s
    else if s.configured == 0
    then s
    else if not d.created_ok
    then unload_cameras opened
    else if not d.connected_ok
    then unload_cameras opened
    else record opened { stopped = false; stopping = false; control_thread = some testing }

abbrev pub joined : Option Place → Bool
joined none = true
joined (some ended) = true
joined _ = false

-- The consumer goes on where it can: with the mutex, when there is a fresh point cloud, or after the
-- thread has ended.
unfoldable pub consumer_turn : Call → Capture → Capture
consumer_turn asking_available s =
    if holds_lock s.control_thread then s else record (request_new s) { call = looking }
consumer_turn looking s = if holds_lock s.control_thread then s else record s { call = idle }
consumer_turn asking s =
    if holds_lock s.control_thread then s else record (request_new s) { call = taking }
consumer_turn taking s =
    if holds_lock s.control_thread
    then s
    else if s.is_fresh
    then record (take s) { call = asking_again }
    else s
consumer_turn asking_again s =
    if holds_lock s.control_thread then s else record (request_new s) { call = idle }
consumer_turn joining s =
    if joined s.control_thread then record (after_join s) { call = idle } else s
consumer_turn destroying s =
    if joined s.control_thread then record (free_merged (after_join s)) { call = gone } else s
consumer_turn idle s = s
consumer_turn gone s = s

-- A call begins where the consumer is outside of all calls.
unfoldable pub begin : Event → Capture → Capture
begin (call_start d) s = start d s
begin call_available s = if is_playing s then record s { call = asking_available } else s
begin call_get s = if is_playing s then record s { call = asking } else s
begin call_stop s = record (stop_cameras s) { call = joining }
begin call_destroy s = record (stop_cameras s) { call = destroying }
begin _ s = s

abbrev pub is_idle : Call → Bool
is_idle idle = true
is_idle _ = false

-- There is one consumer thread, which begins no call within another; calls of a second thread are not modelled.
unfoldable pub step : Event → Capture → Capture
step (turn a) s = control a s
step proceed s = consumer_turn s.call s
step e s = if is_idle s.call then begin e s else s

unfoldable pub run : List Event → Capture → Capture
run [] s = s
run (e ∷ es) s = run es (step e s)
