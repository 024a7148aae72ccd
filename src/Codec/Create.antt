-- ===== src/Codec/Create.antt =====
-- The entry points of cwipc_codec/src/cwipc_codec.cpp that make encoders, groups and decoders.
use cwipc.Common.{ℕ, false, not, ◌&&◌, Option, none, some, ◌==◌, if◌then◌else◌, String}
use mathlib.Core.Option.{get_or}
use cwipc.Common.Int.{pos, ltb_ℤ}
use cwipc.Float32.{zero_f}
use cwipc.Logging.{bad_version, literal, level_error}
use cwipc.World.{M, pure, ◌>>◌, log, set_errorbuf, store_message}
use cwipc.Filters.{eq_ℤ}
use cwipc.Pointcloud.Create.{version_refused}
use cwipc.Codec.{EncoderParams, Codec, Encoder}
use cwipc.Codec.Single.{new_encoder_impl}
use cwipc.Codec.Parallel.{MultithreadedEncoder, new_multithreaded}
use cwipc.Codec.Decoding.{Decoder, new_decoder_impl}

-- `CWIPC_ENCODER_PARAM_VERSION` and `CWIPC_ENCODER_PARAM_VERSION_OLD`.
abbrev pub encoder_param_version : ℕ
encoder_param_version = 0x2022_0607

abbrev pub encoder_param_version_old : ℕ
encoder_param_version_old = 0x2019_0506

-- A `cwipc_encoder`, of either class.
pub data AnyEncoder : Type 0 where
  single : Encoder → AnyEncoder
  parallel : MultithreadedEncoder → AnyEncoder

-- The parameters that are taken for NULL.
abbrev pub default_params : EncoderParams
default_params = record {
  do_inter_frame = false;
  gop_size = pos 1;
  exp_factor = 0x3f80_0000;
  octree_bits = pos 9;
  jpeg_quality = pos 85;
  macroblock_size = pos 16;
  tilenumber = pos 0;
  voxelsize = zero_f;
  n_parallel = pos 0;
}

unfoldable pub refuse : String → M (Option AnyEncoder)
refuse text = do log level_error "cwipc_new_encoder" text; set_errorbuf none; pure none

-- `cwipc_new_encoder` behind its tests of the versions.
unfoldable pub make_encoder : Codec → ℕ → EncoderParams → M (Option AnyEncoder)
make_encoder codec version params =
    if params.do_inter_frame
    then refuse "inter-frame encoding not supported in this version"
    else if not (eq_ℤ params.gop_size 1)
    then refuse "gop_size != 1 not supported in this version"
    else (do
      set_errorbuf none
      pure (
          some (
            if version == encoder_param_version && ltb_ℤ (pos 1) params.n_parallel
            then parallel (new_multithreaded codec params)
            else single (new_encoder_impl params))))

-- The parameter version is read as an unsigned word.
unfoldable pub new_encoder : Codec → ℕ → Option EncoderParams → Option ℕ → ℕ → M (Option AnyEncoder)
new_encoder codec version params error_message api =
    if version_refused api
    then (do store_message error_message (bad_version "cwipc_new_encoder" api); pure none)
    else if not (version == encoder_param_version) && not (version == encoder_param_version_old)
    then (do
      store_message error_message (literal "cwipc_new_encoder: incorrect encoder param version")
      pure none)
    else (do set_errorbuf error_message; make_encoder codec version (get_or params default_params))

unfoldable pub new_decoder : Option ℕ → ℕ → M (Option Decoder)
new_decoder error_message api =
    if version_refused api
    then (do store_message error_message (bad_version "cwipc_new_decoder" api); pure none)
    else (do set_errorbuf none; pure (some new_decoder_impl))
