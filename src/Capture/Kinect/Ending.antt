-- ===== src/Capture/Kinect/Ending.antt =====
-- What the end of the stream does to a waiting consumer.
use mathlib.Core.Path.{subst}
use cwipc.Common.{
  ◌≡◌, refl, sym, ap, ◌∙◌, true, false, none, some, Option, map, List, [], ◌∷◌, if◌then◌else◌,
}
use cwipc.Capture.{Answer, checking, ended, taking, asking_again, Event, turn, proceed, holds_lock}
use cwipc.Capture.Kinect.{Capture, at, thread_turn, control, take, consumer_turn, step, run}
use cwipc.Capture.Kinect.Delivery.{control-thread_turn}

-- Nothing moves any more: the thread has ended, and the consumer waits for it.
record IsStuck (s : Capture) : Type 0 where
  place : s.control_thread ≡ some ended
  stale : s.is_fresh ≡ false
  call : s.call ≡ taking

-- The moves while no other thread calls the capturer: a turn of its thread, or the consumer going on.
abbrev pub move : Option Answer → Event
move (some a) = turn a
move none = proceed

move-IsStuck : (m : Option Answer) (s : Capture) → IsStuck s → step (move m) s ≡ s
unfolding step control thread_turn consumer_turn
move-IsStuck (some a) s t = ap (λ p. elim p [ none ↦ s | some q ↦ thread_turn a q s ]) t.place
move-IsStuck none s t =
    ap (λ c. consumer_turn c s) t.call
    ∙ ap (λ b. if b then s else (if s.is_fresh then record (take s) { call = asking_again } else s))
        (ap holds_lock t.place)
    ∙ ap (λ b. if b then record (take s) { call = asking_again } else s) t.stale

run-IsStuck : (ms : List (Option Answer)) (s : Capture) → IsStuck s → run (map move ms) s ≡ s
unfolding run
run-IsStuck [] s t = refl
run-IsStuck (m ∷ ms) s t = ap (run (map move ms)) (move-IsStuck m s t) ∙ run-IsStuck ms s t

abbrev pub at_end : Answer
at_end = record { end_of_stream_reached = true; all_captures_ok = false }

-- If the end of the stream is found while get_pointcloud of a Kinect capturer waits and nothing
-- is fresh, the call never returns, whatever turns of the capturer's thread and of the waiting
-- consumer follow, as long as no other thread calls the capturer.
pub get_blocks :
    (s : Capture) (ms : List (Option Answer))
    → s.control_thread ≡ some checking
    → s.is_fresh ≡ false
    → s.call ≡ taking
    → (run (turn at_end ∷ map move ms) s).call ≡ taking
unfolding run thread_turn
get_blocks s ms e f c =
    let s' : Capture = at ended (record s { is_eof = true; stopped = true }) in
    subst (λ t. (run (map move ms) t).call ≡ taking) (sym (control-thread_turn at_end checking s e))
      (ap (λ t. t.call) (run-IsStuck ms s' (record { place = refl; stale = f; call = c })) ∙ c)
