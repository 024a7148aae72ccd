-- ===== src/Codec/Group.antt =====
-- `cwipc_encodergroup_impl` (cwipc_codec/src/cwipc_codec.cpp): encoders that are fed the same clouds.
pub mod Members
pub mod Uniform
use cwipc.Common.{
  ℕ, Bool, true, false, not, ◌&&◌, Option, none, some, List, [], ◌∷◌, ◌++◌, length, ltb, ◌==◌, map,
  if◌then◌else◌,
}
use cwipc.Float32.{Float32, zero_f, lt_f, le_f, eq_f}
use cwipc.Logging.{bad_version, level_error}
use cwipc.World.{Env, M, pure, ◌>>=◌, ◌>>◌, log, set_errorbuf, store_message}
use cwipc.Pointcloud.{Pointcloud}
use cwipc.Pointcloud.Virtual
use cwipc.Pointcloud.Create.{version_refused, api_version}
use cwipc.Filters.Grid.{Grid, downsample}
use cwipc.World.{Outcome, done, undefined}
use cwipc.Codec.{EncoderParams, Codec, Encoder, Waits, returns, blocks}
use cwipc.Codec.Single
use cwipc.Codec.Threads
use cwipc.Codec.Threads.{enable_threads, each}
use cwipc.Codec.Create.{AnyEncoder, single, parallel, new_encoder}

pub record EncoderGroup : Type 0 where
  pub m_encoders : List Encoder
  pub m_voxelsize : Float32

-- The constructor: the voxel size is -1.
abbrev pub new_group : EncoderGroup
new_group = record { m_encoders = []; m_voxelsize = 0xbf80_0000 }

-- `cwipc_new_encodergroup`.
unfoldable pub new_encodergroup : Option ℕ → ℕ → M (Option EncoderGroup)
new_encodergroup error_message api =
    if version_refused api
    then (do store_message error_message (bad_version "cwipc_new_encodergroup" api); pure none)
    else (do set_errorbuf none; pure (some new_group))

-- `errorMessage && *errorMessage == NULL`.
is_unset : Option ℕ → M Bool
is_unset none w = (false, w)
is_unset (some p) w = (elim (w.log.cells p) [ none ↦ true | some m ↦ false ], w)

-- The encoder that a group of one has gets threads when the second is added.
abbrev pub enable_first : Codec → List Encoder → List Encoder
enable_first codec (e ∷ []) = enable_threads codec e ∷ []
enable_first codec es = es

abbrev pub push_encoder : Codec → List Encoder → Encoder → List Encoder
push_encoder codec es e =
    enable_first codec es ++ (if ltb 0 (length es) then enable_threads codec e else e) ∷ []

-- `addencoder` behind its test of the voxel size. An encoder of the other class is used as one of this
-- class, which is undefined. The result is the index of the new encoder in the group.
unfoldable pub added :
    Codec → EncoderGroup → Option ℕ → Option AnyEncoder → M (EncoderGroup × Outcome (Option ℕ))
unfolding is_unset
added codec g error_message none = do
  unset ← is_unset error_message
  if unset
      then (do
        log level_error "cwipc_encodergroup::addencoder" "unspecified error"
        set_errorbuf none
        pure (g, done none))
      else (do set_errorbuf none; pure (g, done none))
added codec g error_message (some (parallel m)) = pure (g, undefined)
added codec g error_message (some (single e)) = do
  set_errorbuf none
  pure (
    record g { m_encoders = push_encoder codec g.m_encoders e },
    done (some (length g.m_encoders)),
  )

unfoldable pub addencoder :
    Codec → EncoderGroup → ℕ → EncoderParams → Option ℕ → M (EncoderGroup × Outcome (Option ℕ))
addencoder codec g version params error_message = do
  set_errorbuf error_message
  if le_f zero_f g.m_voxelsize && not (eq_f g.m_voxelsize params.voxelsize)
      then (do
        log level_error "cwipc_encodergroup" "all encoders in a group must have the same voxelsize"
        set_errorbuf none
        pure (g, done none))
      else (do
        rv ← new_encoder codec version (some params) error_message api_version
        added codec (record g { m_voxelsize = params.voxelsize }) error_message rv)

unfoldable pub free : Env → Codec → EncoderGroup → M (Waits EncoderGroup)
free env codec g = do
  rv ← each (Threads.free env codec) g.m_encoders
  elim rv [ blocks ↦ pure blocks | returns es ↦ pure (returns (record g { m_encoders = [] })) ]

unfoldable pub close : Env → Codec → EncoderGroup → M (Waits EncoderGroup)
close env codec g = do
  rv ← each (Threads.close env codec) g.m_encoders
  elim rv [ blocks ↦ pure blocks | returns es ↦ pure (returns (record g { m_encoders = es })) ]

-- The point cloud is fed to each encoder and freed.
feed_each : Env → Codec → List Encoder → Pointcloud → M (Waits (List Encoder))
feed_each env codec [] newpc = do freed ← Virtual.free newpc; pure (returns [])
feed_each env codec (e ∷ es) newpc = do
  rv ← Single.feed env codec e newpc
  elim rv.1 [
    | blocks ↦ pure blocks
    | returns e' ↦ do
      rest ← feed_each env codec es rv.0
      elim rest [ blocks ↦ pure blocks | returns es' ↦ pure (returns (e' ∷ es')) ]
  ]

-- What the encoders are fed: a coarser cloud, or a copy.
source_cloud : Grid → Env → EncoderGroup → Pointcloud → M (Option Pointcloud × Option Pointcloud)
source_cloud grid env g pc =
    if lt_f zero_f g.m_voxelsize
    then downsample grid env (some pc) g.m_voxelsize
    else (do copies ← Virtual.shallowcopy env pc; pure (some copies.0, some copies.1))

-- The object as it is left, and the group.
unfoldable pub feed :
    Grid → Env → Codec → EncoderGroup → Pointcloud → M (Option Pointcloud × Waits EncoderGroup)
unfolding source_cloud feed_each
feed grid env codec g pc = do
  copies ← source_cloud grid env g pc
  elim copies.1 [
    | none ↦ do
      log level_error "cwipc_encodergroup" "downsampling failed"
      pure (copies.0, returns g)
    | some newpc ↦ do
      rv ← feed_each env codec g.m_encoders newpc
      elim rv [
        | blocks ↦ pure (copies.0, blocks)
        | returns es ↦ pure (copies.0, returns (record g { m_encoders = es }))
      ]
  ]
