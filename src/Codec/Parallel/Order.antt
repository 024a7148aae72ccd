-- ===== src/Codec/Parallel/Order.antt =====
-- `cwipc_multithreaded_encoder_impl` (cwipc_codec/src/cwipc_codec.cpp): which encoder gets which frame.
use cwipc.Common.{
  ℕ, zero, suc, ◌<◌, ◌≡◌, refl, sym, some, List, [], ◌∷◌, ◌++◌, length-replicate, replicate,
  get_elem?, arith, All,
}
use mathlib.Core.Path.{subst}
use mathlib.Core.List.{append-nil, append_assoc}
use native.Mathlib.Nat.{zero-mod}
use cwipc.Common.Int.{pos_part}
use cwipc.World.{World, Env}
use cwipc.Codec.{Codec, Encoder, EncoderParams}
use cwipc.Codec.Single.{new_encoder_impl}
use cwipc.Codec.Threads
use cwipc.Codec.Threads.{enable_threads}
use cwipc.Codec.Threads.Running.{IsRunning}
use cwipc.Codec.Threads.Order.{act-Keeps}
use cwipc.Codec.Parallel.{MultithreadedEncoder, new_multithreaded}
use cwipc.Codec.Parallel.Deal.{dealt, Slot}
use cwipc.Codec.Parallel.Steps.{
  Event, feeds, reads, tilefilter_turn, encoder_turn, SoundEvent, IsDealt, fed, fed_by, happen, run,
  feeds-IsDealt, turn-IsDealt, reads-IsDealt,
}

happen-IsDealt :
    (env : Env) (codec : Codec) (n : ℕ) (event : Event) (m : MultithreadedEncoder) (ts : List ℕ)
    (w : World)
    → SoundEvent n event
    → IsDealt n m ts
    → IsDealt n (happen env codec event m w).0 (ts ++ fed_by event)
unfolding happen
happen-IsDealt env codec n (feeds p) m ts w sound d = feeds-IsDealt env codec n m ts p w sound d
happen-IsDealt env codec n (reads size) m ts w sound d =
    subst (IsDealt n _) (sym (append-nil ts)) (reads-IsDealt env codec n size m ts w d)
happen-IsDealt env codec n (tilefilter_turn i) m ts w sound d =
    subst (IsDealt n _) (sym (append-nil ts)) (
      turn-IsDealt env codec n i Threads.tilefilter_turn m ts w sound
        (λ e r. act-Keeps env codec Threads.tilefilter_turn e w tt r) d)
happen-IsDealt env codec n (encoder_turn i) m ts w sound d =
    subst (IsDealt n _) (sym (append-nil ts)) (
      turn-IsDealt env codec n i Threads.encoder_turn m ts w sound
        (λ e r. act-Keeps env codec Threads.encoder_turn e w tt r) d)

run-IsDealt :
    (env : Env) (codec : Codec) (n : ℕ) (events : List Event) (m : MultithreadedEncoder)
    (ts : List ℕ) (w : World)
    → All (SoundEvent n) events
    → IsDealt n m ts
    → IsDealt n (run env codec events m w).0 (ts ++ fed events)
unfolding run
run-IsDealt env codec n [] m ts w sound d = subst (IsDealt n m) (sym (append-nil ts)) d
run-IsDealt env codec n (event ∷ events) m ts w sound d =
    let (m', w') = happen env codec event m w in
    let step = happen-IsDealt env codec n event m ts w sound.0 d in
    subst (IsDealt n _) (append_assoc ts (fed_by event) (fed events))
      (run-IsDealt env codec n events m' (ts ++ fed_by event) w' sound.1 step)

get_elem?-replicate : (n i : ℕ) (e : Encoder) → i < n → get_elem? (replicate n e) i ≡ some e
get_elem?-replicate zero i e h = elim h [ ]
get_elem?-replicate (suc n) zero e h = refl
get_elem?-replicate (suc n) (suc i) e h = get_elem?-replicate n i e (omega arith)

new_multithreaded-IsDealt :
    (codec : Codec) (params : EncoderParams)
    → 0 < pos_part params.n_parallel
    → IsDealt (pos_part params.n_parallel) (new_multithreaded codec params) []
unfolding enable_threads
new_multithreaded-IsDealt codec params many =
    let e = enable_threads codec (new_encoder_impl params) in
    let runs : IsRunning e = record {
      alive = refl;
      threads = refl;
      tilefilter = refl;
      encoder = refl;
      tilefilter_queue = tt;
      encoder_queue = tt;
    } in
    record {
      positive = many;
      number = refl;
      size = length-replicate (pos_part params.n_parallel) e;
      next_in = sym (zero-mod (pos_part params.n_parallel));
      next_out = many;
      slots = λ i h. (e, get_elem?-replicate (pos_part params.n_parallel) i e h, runs, refl);
    }

-- In any interleaving of feeding and reading with the turns of the threads of a new multithreaded
-- encoder, where every object that is fed shows some points and has a cell size that is not
-- negative, every one of the encoders keeps running, and the time stamps of the frames that it
-- has encoded or has in its queues are, in order, those of the objects fed whose number is its
-- own number modulo the number of encoders.
pub run-dealt :
    (env : Env) (codec : Codec) (params : EncoderParams) (events : List Event) (i : ℕ) (w : World)
    → i < pos_part params.n_parallel
    → All (SoundEvent (pos_part params.n_parallel)) events
    → Slot
        (run env codec events (new_multithreaded codec params) w).0.m_encoders
        i
        (dealt (pos_part params.n_parallel) i 0 (fed events))
run-dealt env codec params events i w inside sound =
    let many : 0 < pos_part params.n_parallel = omega (arith, inside) in
    (run-IsDealt env codec (pos_part params.n_parallel) events (new_multithreaded codec params) [] w
        sound (new_multithreaded-IsDealt codec params many)).slots
      i inside
