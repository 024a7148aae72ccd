-- ===== src/Codec.antt =====
-- The encoders and decoders of cwipc_codec/src/cwipc_codec.cpp. The bit stream of the point cloud codec
-- (cwipc_codec/cloud_codec_v2) and the queues of readerwriterqueue.h stand as parameters. The build
-- does not define `delete_encoder_at_end_of_gop`.
pub mod Single
pub mod Threads
pub mod Decoding
pub mod Parallel
pub mod Create
pub mod Group
pub mod Samples
pub use cwipc.World.{Waits, returns, blocks}
use cwipc.Common.{ℕ, Bool, Option, List}
use cwipc.Common.Int.{ℤ}
use cwipc.Float32.{Float32}
use cwipc.Point.{PclPoint}
use cwipc.Pointcloud.{Pointcloud}

-- `struct cwipc_encoder_params` (cwipc_codec/include/cwipc_codec/api.h).
pub record EncoderParams : Type 0 where
  pub do_inter_frame : Bool
  pub gop_size : ℤ
  pub exp_factor : Float32
  pub octree_bits : ℤ
  pub jpeg_quality : ℤ
  pub macroblock_size : ℤ
  pub tilenumber : ℤ
  pub voxelsize : Float32
  pub n_parallel : ℤ

-- What `encodePointCloud` is given: the points and the time stamp.
pub record Frame : Type 0 where
  pub points : List PclPoint
  pub timestamp : ℕ

-- A `cwipc_pointcloud_codec` that encodes. Its output may depend on what it has encoded before, the
-- latest frame first. The resolution is a power of two or a cell size, so that the double is a float.
pub record Coder : Type 0 where
  pub octree_resolution : Float32
  pub jpeg_quality : ℤ
  pub macroblock_size : ℤ
  pub encoded : List Frame

-- What `decodePointCloud` gives: its result, the points, the time stamp and the resolution it read.
pub record Decoded : Type 0 where
  pub ok : Bool
  pub points : List PclPoint
  pub timestamp : ℕ
  pub octree_resolution : Float32

-- The parameters: the power of two, the bit stream (a decoder's result may depend on the packets that it
-- decoded before), and whether `try_enqueue` finds room in a queue of this length.
pub record Codec : Type 0 where
  pub resolution : ℤ → Float32
  pub encode : Coder → List PclPoint → ℕ → List ℕ
  pub decode : List (List ℕ) → List ℕ → Decoded
  pub has_room : ℕ → Bool

-- `cwipc_encoder_impl`. The queues hold NULL pointers too. A thread waits in its queue or has ended.
pub record Encoder : Type 0 where
  pub m_params : EncoderParams
  pub m_encoder : Option Coder
  pub m_result : Option (List ℕ)
  pub m_result_size : ℕ
  pub m_remaining_frames_in_gop : ℤ
  pub m_alive : Bool
  pub m_queue_tilefilter : List (Option Pointcloud)
  pub m_queue_encoder : List (Option Pointcloud)
  pub tilefilter_waits : Bool
  pub encoder_waits : Bool
  pub m_use_threads : Bool
