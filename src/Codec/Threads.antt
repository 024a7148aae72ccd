-- ===== src/Codec/Threads.antt =====
-- The two threads of `cwipc_encoder_impl` (cwipc_codec/src/cwipc_codec.cpp), `close` and `free`. One step
-- of a thread is one turn of its loop, from an element of its queue to its next test of `m_alive`; an
-- interleaving is a list of steps.
pub mod Running
pub mod Turns
pub mod Order
pub mod Close
use cwipc.Common.{
  ℕ, Bool, true, false, not, ◌&&◌, Option, none, some, List, [], ◌∷◌, ◌++◌, String, length,
  if◌then◌else◌,
}
use cwipc.Logging.{level_error}
use cwipc.World.{Env, M, pure, ◌>>=◌, ◌>>◌, log}
use cwipc.Pointcloud.{Pointcloud}
use cwipc.Codec.{Codec, Encoder, Waits, returns, blocks}
use cwipc.Codec.Single.{feed, copy_data, run_single_tilefilter, run_single_encode}

-- `try_enqueue(nullptr)` does nothing where there is no room.
pub try_enqueue_null : Codec → List (Option Pointcloud) → List (Option Pointcloud)
try_enqueue_null codec queue = if codec.has_room (length queue) then queue ++ none ∷ [] else queue

-- What follows the loop of each thread.
abbrev end_encoder : Encoder → Encoder
end_encoder e = record e { m_alive = false; encoder_waits = false }

end_tilefilter : Codec → Encoder → Encoder
unfolding try_enqueue_null
end_tilefilter codec e = record e {
  m_alive = false;
  tilefilter_waits = false;
  m_queue_encoder = try_enqueue_null codec e.m_queue_encoder;
}

-- The threads of a closed encoder end at once.
unfoldable pub enable_threads : Codec → Encoder → Encoder
unfolding end_tilefilter
enable_threads codec e =
    let started : Encoder = record e {
      m_use_threads = true;
      tilefilter_waits = true;
      encoder_waits = true;
    } in
    if e.m_use_threads
    then e
    else if e.m_alive
    then started
    else end_tilefilter codec (end_encoder started)

-- A turn that failed is logged if the encoder is alive.
log_if_alive : Bool → Bool → String → M (Unit {0})
log_if_alive ok alive text =
    if not ok && alive then log level_error "cwipc_encoder" text else pure tt

-- The end of a turn: the loop goes on if the turn succeeded and the encoder is alive.
turn_encoder : Waits (Bool × Encoder) → Encoder → M Encoder
unfolding log_if_alive
turn_encoder blocks e = pure e
turn_encoder (returns (ok, e')) e = do
  log_if_alive ok e'.m_alive "threaded encoder failure"
  pure (if ok && e'.m_alive then e' else end_encoder e')

turn_tilefilter : Codec → Waits (Bool × Encoder) → Encoder → M Encoder
unfolding log_if_alive end_tilefilter
turn_tilefilter codec blocks e = pure e
turn_tilefilter codec (returns (ok, e')) e = do
  log_if_alive ok e'.m_alive "threaded tilefilter failure"
  pure (if ok && e'.m_alive then e' else end_tilefilter codec e')

-- A thread that has ended, or waits in an empty queue, does nothing.
unfoldable pub encoder_step : Codec → Encoder → M Encoder
unfolding turn_encoder run_single_encode
encoder_step codec e =
    if e.encoder_waits then (do rv ← run_single_encode codec e; turn_encoder rv e) else pure e

unfoldable pub tilefilter_step : Env → Codec → Encoder → M Encoder
unfolding turn_tilefilter run_single_tilefilter
tilefilter_step env codec e =
    if e.tilefilter_waits
    then (do rv ← run_single_tilefilter env e; turn_tilefilter codec rv e)
    else pure e

-- `join`: the thread makes its last turn; it blocks if its queue is empty.
pub join_encoder : Codec → Encoder → M (Waits Encoder)
unfolding turn_encoder
join_encoder codec e =
    if e.encoder_waits
    then (do
      rv ← run_single_encode codec e
      elim rv [
        | blocks ↦ pure blocks
        | returns turn ↦ do e' ← turn_encoder (returns turn) e; pure (returns e')
      ])
    else pure (returns e)

pub join_tilefilter : Env → Codec → Encoder → M (Waits Encoder)
unfolding turn_tilefilter
join_tilefilter env codec e =
    if e.tilefilter_waits
    then (do
      rv ← run_single_tilefilter env e
      elim rv [
        | blocks ↦ pure blocks
        | returns turn ↦ do e' ← turn_tilefilter codec (returns turn) e; pure (returns e')
      ])
    else pure (returns e)

-- The last turns may come in the other order too: the encoder's takes the first element of its queue in
-- either.
unfoldable pub close : Env → Codec → Encoder → M (Waits Encoder)
close env codec e =
    if e.m_use_threads
    then (do
      let e₁ : Encoder = record e {
        m_alive = false;
        m_queue_encoder = try_enqueue_null codec e.m_queue_encoder;
        m_queue_tilefilter = try_enqueue_null codec e.m_queue_tilefilter;
      }
      rv ← join_encoder codec e₁
      elim rv [
        | blocks ↦ pure blocks
        | returns e₂ ↦ do
          rv' ← join_tilefilter env codec e₂
          elim rv' [
            | blocks ↦ pure blocks
            | returns e₃ ↦ pure (returns (record e₃ { m_use_threads = false }))
          ]
      ])
    else pure (returns (record e { m_alive = false }))

unfoldable pub free : Env → Codec → Encoder → M (Waits Encoder)
free env codec e = do
  rv ← close env codec e
  elim rv [
    | blocks ↦ pure blocks
    | returns e' ↦
        pure (returns (record e' { m_encoder = none; m_result = none; m_result_size = 0 }))
  ]

-- A loop over several encoders.
unfoldable pub each : (Encoder → M (Waits Encoder)) → List Encoder → M (Waits (List Encoder))
each f [] = pure (returns [])
each f (e ∷ es) = do
  rv ← f e
  elim rv [
    | blocks ↦ pure blocks
    | returns e' ↦ do
      rest ← each f es
      elim rest [ blocks ↦ pure blocks | returns es' ↦ pure (returns (e' ∷ es')) ]
  ]

-- What can happen to an open encoder with threads.
pub data Action : Type 0 where
  feeds : Pointcloud → Action
  copies : ℕ → Action
  tilefilter_turn encoder_turn : Action

abbrev left_by : Waits Encoder → Encoder → Encoder
left_by blocks e = e
left_by (returns e') e = e'

-- With threads, `feed` does not block.
unfoldable pub act : Env → Codec → Action → Encoder → M Encoder
act env codec (feeds p) e = do rv ← feed env codec e p; pure (left_by rv.1 e)
act env codec (copies size) e = pure (copy_data e size).2
act env codec tilefilter_turn e = tilefilter_step env codec e
act env codec encoder_turn e = encoder_step codec e

unfoldable pub run : Env → Codec → List Action → Encoder → M Encoder
unfolding act
run env codec [] e = pure e
run env codec (a ∷ schedule) e = do e' ← act env codec a e; run env codec schedule e'
