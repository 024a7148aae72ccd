-- ===== src/Codec/Decoding.antt =====
-- `cwipc_decoder_impl` (cwipc_codec/src/cwipc_codec.cpp). The decoder of the codec is the list of the
-- packets that it has decoded; `cwipc_from_pcl` returns an object for the version that it is given here.
pub mod Empty
use cwipc.Common.{
  ℕ, ◌%◌, ◌^◌, Bool, true, false, not, ◌&&◌, Option, none, some, List, [], ◌∷◌, ◌++◌, ltb, leb,
  if◌then◌else◌,
}
use cwipc.Float32.{Float32, magnitude}
use cwipc.Logging.{level_warning}
use cwipc.Point.{PclPoint}
use cwipc.World.{Env, M, pure, ◌>>=◌, ◌>>◌, log}
use cwipc.Pointcloud.{Pointcloud}
use cwipc.Pointcloud.Virtual
use cwipc.Pointcloud.Create.{from_pcl, api_version}
use cwipc.Codec.{Codec, Decoded}

pub record Decoder : Type 0 where
  pub m_result : Option Pointcloud
  pub m_decoder_v2 : Option (List (List ℕ))
  pub m_alive : Bool

abbrev pub new_decoder_impl : Decoder
new_decoder_impl = record { m_result = none; m_decoder_v2 = none; m_alive = true }

abbrev pub free : Decoder → Decoder
free d = record d { m_alive = false }

abbrev pub close : Decoder → Decoder
close d = record d { m_alive = false }

abbrev pub eof : Decoder → Bool
eof d = not d.m_alive

-- A stream of packets cannot be searched.
abbrev pub seek : Decoder → ℕ → Bool
seek d timestamp = false

-- Without waiting.
abbrev pub available : Decoder → Bool
available d = elim d.m_result [ none ↦ false | some result ↦ true ]

-- `abs(f) < 0.01`: 0x3c23d70a is the largest float below the double 0.01.
abbrev pub near_zero : Float32 → Bool
near_zero f = leb (magnitude f) 0x3c23_d70a

abbrev pub is_black : PclPoint → Bool
is_black pt =
    near_zero pt.x && near_zero pt.y && near_zero pt.z && ltb pt.r 2 && ltb pt.g 2 && ltb pt.b 2

-- One black point at the origin stands for an empty cloud.
abbrev pub clear_black : List PclPoint → List PclPoint
clear_black (pt ∷ []) = if is_black pt then [] else pt ∷ []
clear_black pts = pts

-- `alloc_decoder` makes a decoder that has decoded nothing.
abbrev pub with_decoder : Option (List (List ℕ)) → List (List ℕ)
with_decoder none = []
with_decoder (some packets) = packets

-- The new result.
decoded_result : Env → Decoded → M (Option Pointcloud)
decoded_result env d =
    if d.ok
    then (do
      rv ← from_pcl (some (clear_black d.points)) d.timestamp none api_version
      elim rv [
        | none ↦ pure none
        | some q ↦ do q' ← Virtual.set_cellsize env q d.octree_resolution; pure (some q')
      ])
    else pure none

-- An earlier result that was not taken is lost.
unfoldable pub feed : Env → Codec → Decoder → List ℕ → M Decoder
unfolding decoded_result
feed env codec d buffer =
    if not d.m_alive
    then (do log level_warning "cwipc_decoder" "feed() called after close()"; pure d)
    else (do
      let packets = with_decoder d.m_decoder_v2
      rv ← decoded_result env (codec.decode packets buffer)
      pure (record d { m_result = rv; m_decoder_v2 = some (packets ++ buffer ∷ []) }))

unfoldable pub get : Decoder → Option Pointcloud × Decoder
get d = (d.m_result, record d { m_result = none })
