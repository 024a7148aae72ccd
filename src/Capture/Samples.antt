-- ===== src/Capture/Samples.antt =====
-- Runs of the capturers.
use cwipc.Common.{◌+◌, ◌≤◌, ◌≡◌, refl, arith, true, List, [], ◌∷◌, some, none, map}
use cwipc.Capture.{
  testing, waiting, checking, taking, Devices, Event, turn, proceed, call_start, call_available,
  call_get, call_stop, call_destroy, count,
}
use cwipc.Capture.Kinect.{
  Capture, new_capture, control, thread_turn, consumer_turn, begin, start, step, run,
}
use cwipc.Capture.Kinect.Places.{places}
use cwipc.Capture.Kinect.Ownership.{owned_once}
use cwipc.Capture.Kinect.Leaks.{starts, all_released}
use cwipc.Capture.Kinect.Delivery.{good, good_turns}
use cwipc.Capture.Kinect.Session.Reached.{IsDelivered, get_delivers}
use cwipc.Capture.Kinect.Ending.{at_end, move, get_blocks}
use cwipc.Capture.RealSense
use cwipc.Capture.RealSense.Destroying.{destroy_frees_delivered}

abbrev one_camera : Devices
one_camera = record { hardware_ok = true; created_ok = true; camera_count = 1; connected_ok = true }

-- The consumer waits for its first point cloud.
abbrev first_get : List Event
first_get = call_start one_camera ∷ call_get ∷ proceed ∷ []

-- It gets it, and the capturer is destroyed.
abbrev whole_session : List Event
whole_session =
    call_start one_camera
    ∷ call_get
    ∷ proceed
    ∷ turn good
    ∷ turn good
    ∷ turn good
    ∷ turn good
    ∷ turn good
    ∷ turn good
    ∷ turn good
    ∷ turn good
    ∷ turn good
    ∷ turn good
    ∷ proceed
    ∷ proceed
    ∷ turn good
    ∷ turn good
    ∷ turn good
    ∷ turn good
    ∷ call_destroy
    ∷ turn good
    ∷ proceed
    ∷ []

owned_once_example : places 0 (run whole_session (new_capture true)) ≤ 1
owned_once_example = owned_once true whole_session 0

all_released_example :
    count 0 (run whole_session (new_capture true)).delivered
      + count 0 (run whole_session (new_capture true)).freed
    ≡ 1
unfolding run step control thread_turn consumer_turn begin start starts
all_released_example = all_released true whole_session 0 (omega arith) refl refl (omega arith)

get_delivers_example :
    IsDelivered
      (run first_get (new_capture true))
      (step proceed (step proceed (run (good_turns 10) (run first_get (new_capture true)))))
unfolding run step control thread_turn consumer_turn begin start
get_delivers_example = get_delivers true first_get refl refl

abbrev started : Capture
started = record (new_capture true) { cameras = 1; control_thread = some testing }

-- The consumer waits, and the thread is about to look for the end of the stream.
abbrev at_check : Capture
at_check = record started { control_thread = some checking; call = taking; want_new = true }

get_blocks_example :
    (run (turn at_end ∷ map move (none ∷ some good ∷ none ∷ [])) at_check).call ≡ taking
get_blocks_example = get_blocks at_check (none ∷ some good ∷ none ∷ []) refl refl refl

at_check_reached :
    run (call_start one_camera ∷ call_get ∷ proceed ∷ turn good ∷ turn good ∷ []) (new_capture true)
    ≡ at_check
unfolding run step control thread_turn consumer_turn begin start
at_check_reached = refl

-- A session that is stopped before its object is taken, and the next one: the object is nowhere.
abbrev two_sessions : List Event
two_sessions =
    call_start one_camera
    ∷ call_available
    ∷ proceed
    ∷ proceed
    ∷ turn good
    ∷ turn good
    ∷ turn good
    ∷ turn good
    ∷ turn good
    ∷ turn good
    ∷ turn good
    ∷ turn good
    ∷ turn good
    ∷ turn good
    ∷ call_stop
    ∷ turn good
    ∷ proceed
    ∷ call_start one_camera
    ∷ call_available
    ∷ proceed
    ∷ proceed
    ∷ turn good
    ∷ turn good
    ∷ turn good
    ∷ turn good
    ∷ turn good
    ∷ turn good
    ∷ turn good
    ∷ []

second_session_loses : places 0 (run two_sessions (new_capture true)) ≡ 0
unfolding run step control thread_turn consumer_turn begin start places count
second_session_loses = refl

abbrev ready : RealSense.Capture
ready = record (RealSense.new_capture true 1) {
  cameras = 1;
  control_thread = some waiting;
  call = taking;
  is_fresh = true;
  merged_pc = some 0;
  created = 1;
}

destroy_frees_delivered_example :
    let s' : RealSense.Capture =
      RealSense.run
        (proceed ∷ proceed ∷ call_destroy ∷ turn good ∷ turn at_end ∷ proceed ∷ [])
        ready in
    (s'.delivered ≡ 0 ∷ []) × (s'.freed ≡ 0 ∷ [])
destroy_frees_delivered_example = destroy_frees_delivered ready 0 good at_end refl refl refl refl
