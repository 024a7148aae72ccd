-- ===== src/Codec/Single.antt =====
-- `cwipc_encoder_impl` (cwipc_codec/src/cwipc_codec.cpp). A call takes the encoder and returns it as it
-- leaves it; a point cloud that is fed is returned too. The allocation of the result succeeds.
mod Expected
pub mod Feed
pub mod Blocks
use cwipc.Common.{
  ℕ, Bool, true, false, not, Option, none, some, List, [], ◌∷◌, ◌++◌, length, take, ltb, String,
  if◌then◌else◌,
}
use cwipc.Common.Int.{pos, ◌-ℤ◌, ltb_ℤ}
use cwipc.Float32.{Float32, lt_f}
use cwipc.Logging.{level_error, level_warning}
use cwipc.Point.{PclPoint, new_pcl_point}
use cwipc.World.{Env, M, pure, ◌>>=◌, ◌>>◌, log}
use cwipc.Pointcloud.{Pointcloud}
use cwipc.Pointcloud.Virtual
use cwipc.Filters.{tilefilter, eq_ℤ}
use cwipc.Codec.{EncoderParams, Frame, Coder, Codec, Encoder, Waits, returns, blocks}

-- The constructor.
abbrev pub new_encoder_impl : EncoderParams → Encoder
new_encoder_impl params = record {
  m_params = params;
  m_encoder = none;
  m_result = none;
  m_result_size = 0;
  m_remaining_frames_in_gop = pos 0;
  m_alive = true;
  m_queue_tilefilter = [];
  m_queue_encoder = [];
  tilefilter_waits = false;
  encoder_waits = false;
  m_use_threads = false;
}

abbrev pub eof : Encoder → Bool
eof e = not e.m_alive

-- Without waiting.
abbrev pub available : Encoder → Bool
available e = elim e.m_result [ none ↦ false | some result ↦ true ]

abbrev pub at_gop_boundary : Encoder → Bool
at_gop_boundary e = not (ltb_ℤ (pos 0) e.m_remaining_frames_in_gop)

abbrev pub get_encoded_size : Encoder → ℕ
get_encoded_size e = e.m_result_size

-- Whether it copied, and the bytes written to the buffer.
unfoldable pub copy_data : Encoder → ℕ → Bool × List ℕ × Encoder
copy_data e buffer_size = elim e.m_result [
  | none ↦ (false, [], e)
  | some result ↦
      if ltb buffer_size e.m_result_size
      then (false, [], e)
      else (true, take e.m_result_size result, record e { m_result = none; m_result_size = 0 })
]

abbrev new_coder : Codec → EncoderParams → Coder
new_coder codec params = record {
  octree_resolution = codec.resolution params.octree_bits;
  jpeg_quality = params.jpeg_quality;
  macroblock_size = params.macroblock_size;
  encoded = [];
}

-- The encoder of the codec is returned in front.
pub alloc_encoder : Codec → Encoder → Coder × Encoder
alloc_encoder codec e = (
  new_coder codec e.m_params,
  record e {
    m_encoder = some (new_coder codec e.m_params);
    m_remaining_frames_in_gop = e.m_params.gop_size;
  },
)

-- `m_queue_tilefilter.enqueue` and `m_queue_encoder.enqueue`.
abbrev pub enqueue_tilefilter : Pointcloud → Encoder → Encoder
enqueue_tilefilter pc e = record e { m_queue_tilefilter = e.m_queue_tilefilter ++ some pc ∷ [] }

abbrev pub enqueue_encoder : Pointcloud → Encoder → Encoder
enqueue_encoder pc e = record e { m_queue_encoder = e.m_queue_encoder ++ some pc ∷ [] }

-- A tile number selects points; 0 passes the point cloud on.
unfoldable pub filter_and_enqueue : Env → Pointcloud → Encoder → M (Bool × Encoder)
filter_and_enqueue env pc e =
    if eq_ℤ e.m_params.tilenumber 0 then pure (true, enqueue_encoder pc e) else (do
      filtered ← tilefilter env (some pc) e.m_params.tilenumber
      elim filtered.0 [
        | none ↦ pure (false, e)
        | some pc' ↦ do
          freed ← Virtual.free pc'
          elim filtered.1 [
            | none ↦ do log level_error "cwipc_encoder" "tilefilter failed"; pure (false, e)
            | some newpc ↦ pure (true, enqueue_encoder newpc e)
          ]
      ])

tilefilter_next : Env → List (Option Pointcloud) → Encoder → M (Waits (Bool × Encoder))
unfolding filter_and_enqueue
tilefilter_next env [] e = pure blocks
tilefilter_next env (none ∷ queue) e =
    pure (returns (false, record e { m_queue_tilefilter = queue }))
tilefilter_next env (some pc ∷ queue) e = do
  rv ← filter_and_enqueue env pc (record e { m_queue_tilefilter = queue })
  pure (returns rv)

unfoldable pub run_single_tilefilter : Env → Encoder → M (Waits (Bool × Encoder))
unfolding tilefilter_next
run_single_tilefilter env e = tilefilter_next env e.m_queue_tilefilter e

-- An empty cloud is encoded as one black point.
abbrev pub points_to_encode : List PclPoint → List PclPoint
points_to_encode [] = new_pcl_point ∷ []
points_to_encode (pt ∷ pts) = pt ∷ pts

-- The encoder of the codec gets the cell size as its resolution if that is coarser, and encodes.
abbrev pub coarsen : Float32 → Coder → Coder
coarsen cellsize coder =
    if lt_f coder.octree_resolution cellsize
    then record coder { octree_resolution = cellsize }
    else coder

store_result : List ℕ → Coder → Frame → Encoder → Encoder
store_result comp_frame coder frame e = record e {
  m_encoder = some (record coder { encoded = coder.encoded ++ frame ∷ [] });
  m_remaining_frames_in_gop = e.m_remaining_frames_in_gop -ℤ pos 1;
  m_result = some comp_frame;
  m_result_size = length comp_frame;
}

unfoldable pub encode_pcl : Codec → Pointcloud → List PclPoint → Coder → Encoder → Encoder
unfolding store_result
encode_pcl codec newpc pcl_pc coder e =
    let points = points_to_encode pcl_pc in
    let coder' = coarsen (Virtual.cellsize newpc) coder in
    let t = Virtual.timestamp newpc in
    store_result (codec.encode coder' points t) coder' (record { points = points; timestamp = t }) e

-- The encoder of the codec, which is made if there is none.
unfoldable pub with_coder : Codec → Encoder → Coder × Encoder
unfolding alloc_encoder
with_coder codec e = elim e.m_encoder [ some coder ↦ (coder, e) | none ↦ alloc_encoder codec e ]

abbrev pub start_frame : Encoder → Encoder
start_frame e = record e {
  m_remaining_frames_in_gop = if e.m_params.do_inter_frame then e.m_params.gop_size else pos 1;
}

-- A point cloud without PCL cloud is not freed.
unfoldable pub encode_pointcloud : Codec → Pointcloud → Encoder → M (Bool × Encoder)
unfolding with_coder encode_pcl
encode_pointcloud codec newpc e = do
  let (coder, e₁) = with_coder codec e
  let e₂ = start_frame e₁
  made ← Virtual.access_pcl_pointcloud newpc
  elim made.1 [
    | none ↦ do
      log level_error "cwipc_encoder" "Pointcloud has NULL cwipc_pcl_pointcloud"
      pure (false, e₂)
    | some pcl_pc ↦ do
      freed ← Virtual.free made.0
      pure (true, encode_pcl codec made.0 pcl_pc coder e₂)
  ]

encode_next : Codec → List (Option Pointcloud) → Encoder → M (Waits (Bool × Encoder))
unfolding encode_pointcloud
encode_next codec [] e = pure blocks
encode_next codec (none ∷ queue) e = pure (returns (false, record e { m_queue_encoder = queue }))
encode_next codec (some newpc ∷ queue) e = do
  rv ← encode_pointcloud codec newpc (record e { m_queue_encoder = queue })
  pure (returns rv)

unfoldable pub run_single_encode : Codec → Encoder → M (Waits (Bool × Encoder))
unfolding encode_next
run_single_encode codec e = encode_next codec e.m_queue_encoder e

-- An error is only logged.
log_failure : Bool → String → M (Unit {0})
log_failure true text = pure tt
log_failure false text = log level_error "cwipc_encoder" text

-- `feed` without threads, behind `_shallowcopy`.
try_enqueue_tilefilter : Codec → Pointcloud → Encoder → Bool × Encoder
try_enqueue_tilefilter codec pc e =
    if codec.has_room (length e.m_queue_tilefilter)
    then (true, enqueue_tilefilter pc e)
    else (false, e)

feed_encode : Codec → Waits (Bool × Encoder) → M (Waits Encoder)
unfolding run_single_encode log_failure
feed_encode codec blocks = pure blocks
feed_encode codec (returns filtered) = do
  log_failure filtered.0 "unthreaded tilefilter failure"
  rv ← run_single_encode codec filtered.1
  elim rv [
    | blocks ↦ pure blocks
    | returns encoded ↦ do
      log_failure encoded.0 "unthreaded encode failure"
      pure (returns encoded.1)
  ]

pub feed_unthreaded : Env → Codec → Encoder → Pointcloud → M (Waits Encoder)
unfolding try_enqueue_tilefilter run_single_tilefilter feed_encode
feed_unthreaded env codec e pc = do
  let queued = try_enqueue_tilefilter codec pc e
  log_failure queued.0 "unthreaded try_enqueue failed"
  filtered ← run_single_tilefilter env queued.1
  feed_encode codec filtered

unfoldable pub feed : Env → Codec → Encoder → Pointcloud → M (Pointcloud × Waits Encoder)
feed env codec e pc =
    if not e.m_alive
    then (do log level_warning "cwipc_encoder" "feed() called after close()"; pure (pc, returns e))
    else (do
      copies ← Virtual.shallowcopy env pc
      if e.m_use_threads
          then pure (copies.0, returns (enqueue_tilefilter copies.1 e))
          else (do rv ← feed_unthreaded env codec e copies.1; pure (copies.0, rv)))
