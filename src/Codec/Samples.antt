-- ===== src/Codec/Samples.antt =====
-- Concrete encoders, groups and decoders, and the theorems on them at these.
use cwipc.Common.{ℕ, ◌≡◌, refl, true, false, none, some, List, [], ◌∷◌, arith, map, ltb}
use cwipc.Common.Int.{pos}
use cwipc.Float32.{zero_f}
use cwipc.Point.{PclPoint, new_pcl_point}
use cwipc.World.{fresh_world}
use cwipc.Pointcloud.{Impl, Pointcloud, impl}
use cwipc.Pointcloud.Virtual
use cwipc.Pointcloud.Samples.{sample_env, red, two_points, sample, sample-Shows}
use cwipc.Filters.Pointwise.{Yields}
use cwipc.Codec.{EncoderParams, Codec, Encoder, Decoded, returns, blocks}
use cwipc.Codec.Single.{new_encoder_impl}
use cwipc.Codec.Single
use cwipc.Codec.Single.Feed.{Encodes, feed-Encodes}
use cwipc.Codec.Single.Blocks.{feed-blocks}
use cwipc.Codec.Threads.{
  Action, feeds, copies, tilefilter_turn, encoder_turn, run, enable_threads, close,
}
use cwipc.Codec.Threads.Running.{times, Sound}
use cwipc.Codec.Threads.Order.{run-keeps_order}
use cwipc.Codec.Threads.Close.{close_returns}
use cwipc.Codec.Parallel.{new_multithreaded}
use cwipc.Codec.Parallel.Deal.{Slot}
use cwipc.Codec.Parallel.Steps
use cwipc.Codec.Parallel.Steps.{Event}
use cwipc.Codec.Parallel.Order.{run-dealt}
use cwipc.Codec.Decoding.{new_decoder_impl}
use cwipc.Codec.Decoding
use cwipc.Codec.Decoding.Empty.{KeepsBlack, decode-encode_empty}
use cwipc.Codec.Create.{default_params, encoder_param_version}
use cwipc.Codec.Group.{new_group}
use cwipc.Codec.Group.Members.{SameVoxelsize, Threaded}
use cwipc.Codec.Group.Uniform.{Addition, add_all, add_all-IsUniform}

-- A codec that keeps the time stamp and the red values.
abbrev reds : List PclPoint → List ℕ
reds [] = []
reds (pt ∷ pts) = pt.r ∷ reds pts

abbrev of_red : ℕ → PclPoint
of_red red = record new_pcl_point { r = red }

abbrev decode_reds : List ℕ → Decoded
decode_reds [] = record { ok = false; points = []; timestamp = 0; octree_resolution = zero_f }
decode_reds (t ∷ red) = record {
  ok = true;
  points = map of_red red;
  timestamp = t;
  octree_resolution = 0x3b00_0000;
}

abbrev red_codec : Codec
red_codec = record {
  resolution = λ bits. 0x3b00_0000;
  encode = λ coder points t. t ∷ reds points;
  decode = λ packets packet. decode_reds packet;
  has_room = λ n. ltb n 1;
}

abbrev tile_params : EncoderParams
tile_params = record default_params { tilenumber = pos 2 }

feed-Encodes_example :
    Encodes sample_env red_codec sample two_points fresh_world (new_encoder_impl tile_params)
unfolding Virtual.cellsize
feed-Encodes_example =
    feed-Encodes sample_env red_codec (new_encoder_impl tile_params) sample two_points fresh_world
      (omega arith) sample-Shows refl refl refl refl refl refl

abbrev freed_cloud : Impl
freed_cloud = record { m_timestamp = 0; m_cellsize = zero_f; m_pc = none; m_metadata = none }

feed-blocks_example :
    (Single.feed sample_env red_codec
      (new_encoder_impl tile_params)
      (impl freed_cloud)
      fresh_world).0.1
    ≡ blocks
feed-blocks_example =
    feed-blocks sample_env red_codec (new_encoder_impl tile_params) freed_cloud fresh_world refl
      refl refl refl refl refl refl

sample-Sound : Sound sample
unfolding Virtual.cellsize
sample-Sound = (two_points, omega arith, sample-Shows, refl)

-- Two clouds are fed; the first has reached the codec, and its packet was read.
abbrev schedule : List Action
schedule =
    feeds sample ∷ tilefilter_turn ∷ feeds sample ∷ encoder_turn ∷ copies 64 ∷ tilefilter_turn ∷ []

run-keeps_order_example :
    let e =
      (run sample_env red_codec schedule
        (enable_threads red_codec (new_encoder_impl tile_params))
        fresh_world).0 in
    (e.m_alive ≡ true) × (times e ≡ 1000 ∷ 1000 ∷ [])
unfolding Virtual.timestamp
run-keeps_order_example =
    run-keeps_order sample_env red_codec tile_params schedule fresh_world
      (sample-Sound, (tt, (sample-Sound, (tt, (tt, (tt, tt))))))

close_returns_example :
    let e = enable_threads red_codec (new_encoder_impl tile_params) in
    (e' : Encoder) × ((close sample_env red_codec e fresh_world).0 ≡ returns e')
    × (e'.m_alive ≡ false)
    × (e'.encoder_waits ≡ false)
    × (e'.tilefilter_waits ≡ false)
unfolding enable_threads
close_returns_example =
    close_returns sample_env red_codec (enable_threads red_codec (new_encoder_impl tile_params))
      fresh_world refl refl

red_codec-KeepsBlack : KeepsBlack red_codec
red_codec-KeepsBlack coder t packets = (new_pcl_point, 0x3b00_0000, refl, refl, refl)

abbrev other_tile : EncoderParams
other_tile = record default_params { tilenumber = pos 7 }

decode-encode_empty_example :
    (e' : Encoder) × (packet : List ℕ) × (c : ℕ) × ((Single.feed sample_env red_codec
        (new_encoder_impl other_tile)
        sample
        fresh_world).0.1
      ≡ returns e')
    × (e'.m_result ≡ some packet)
    × Yields
        (Decoding.feed sample_env red_codec new_decoder_impl packet fresh_world).0.m_result
        []
        (Virtual.timestamp sample)
        c
unfolding Virtual.cellsize
decode-encode_empty_example =
    decode-encode_empty sample_env red_codec (new_encoder_impl other_tile) new_decoder_impl sample
      two_points fresh_world fresh_world (omega arith) sample-Shows refl refl refl refl refl refl
      refl red_codec-KeepsBlack refl

-- Two encoders with a voxel size of 0.5, and one of 1.0 that is refused.
abbrev half_params : EncoderParams
half_params = record default_params { voxelsize = 0x3f00_0000 }

abbrev one_params : EncoderParams
one_params = record default_params { voxelsize = 0x3f80_0000 }

abbrev additions : List Addition
additions =
    (encoder_param_version, half_params, none)
    ∷ (encoder_param_version, one_params, none)
    ∷ (encoder_param_version, half_params, none)
    ∷ []

add_all-IsUniform_example :
    let g = (add_all red_codec additions new_group fresh_world).0 in
    SameVoxelsize g × Threaded g.m_encoders
add_all-IsUniform_example =
    add_all-IsUniform red_codec additions fresh_world (refl, (refl, (refl, tt)))

-- Three clouds are fed to two encoders; the second encoder gets the second of them.
abbrev two_encoders : EncoderParams
two_encoders = record default_params { n_parallel = pos 2 }

abbrev later_cloud : Pointcloud
later_cloud =
    impl (record { m_timestamp = 2000; m_cellsize = zero_f; m_pc = some []; m_metadata = none })

later_cloud-Sound : Sound later_cloud
unfolding Virtual.cellsize
later_cloud-Sound = ([], omega arith, refl, refl)

abbrev parallel_events : List Event
parallel_events =
    Event.feeds sample
    ∷ Event.feeds later_cloud
    ∷ Event.tilefilter_turn 1
    ∷ Event.encoder_turn 1
    ∷ Event.reads 100
    ∷ Event.feeds sample
    ∷ []

run-dealt_example :
    Slot
      (Steps.run sample_env red_codec parallel_events
        (new_multithreaded red_codec two_encoders)
        fresh_world).0.m_encoders
      1
      (2000 ∷ [])
unfolding Virtual.timestamp
run-dealt_example =
    run-dealt sample_env red_codec two_encoders parallel_events 1 fresh_world (omega arith)
      (sample-Sound, (later_cloud-Sound, (omega arith, (omega arith, (tt, (sample-Sound, tt))))))
