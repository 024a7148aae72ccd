-- ===== src/Pointcloud/Create.antt =====
-- The entry points of cwipc_util/src/cwipc_util.cpp that make point clouds from PCL clouds, arrays of
-- points and packets. `none` is a NULL result. An array holds as many points as its size says, and a
-- packet is the list of its bytes.
use cwipc.Common.{
  ℕ, ◌+◌, ◌-◌, ◌/◌, Bool, not, ◌&&◌, ◌||◌, Option, none, some, List, drop, ltb, ◌==◌, if◌then◌else◌,
}
use cwipc.Common.Int.{ℤ, pos, ltb_ℤ}
use cwipc.Words.{to_size_t, to_int, mul_size, sub_size, bytes_eq}
use cwipc.Logging.{level_error, level_warning, bad_version}
use cwipc.Point.{Point, PclPoint, sizeof_point}
use cwipc.Point.Encoding.{decode_points}
use cwipc.World.{World, Env, M, pure, ◌>>=◌, ◌>>◌, log, set_errorbuf, store_message}
use cwipc.Pointcloud.{Pointcloud, impl, uncompressed}
use cwipc.Pointcloud.Base
use cwipc.Pointcloud.Raw
use cwipc.Pointcloud.Raw.{null_uncompressed}
use cwipc.Pointcloud.Virtual.{sizeof_header, dump_header, dump_version, Header, decode_header}

-- `CWIPC_API_VERSION_OLD` and `CWIPC_API_VERSION`.
abbrev pub api_version_old : ℕ
api_version_old = 0x2026_0129

abbrev pub api_version : ℕ
api_version = 0x2026_0129

-- The test that opens every entry point which makes an object.
abbrev pub version_refused : ℕ → Bool
version_refused v = ltb v api_version_old || ltb api_version v

unfoldable pub from_pcl : Option (List PclPoint) → ℕ → Option ℕ → ℕ → M (Option Pointcloud)
unfolding Base.new
from_pcl pc timestamp error_message version =
    if version_refused version
    then (do store_message error_message (bad_version "cwipc_from_pcl" version); pure none)
    else (do
      set_errorbuf error_message
      rv ← Base.new pc timestamp
      set_errorbuf none
      pure (some (impl rv)))

-- The error buffer stays set when the call succeeds, as in the source.
unfoldable pub from_points : Env → List Point → ℕ → ℤ → ℕ → Option ℕ → ℕ → M (Option Pointcloud)
from_points env points size npoint timestamp error_message version =
    if version_refused version
    then (do store_message error_message (bad_version "cwipc_from_points" version); pure none)
    else (do
      set_errorbuf error_message
      rv ← Raw.from_points env null_uncompressed points size npoint timestamp
      if ltb_ℤ rv.0 (pos 0)
          then (do
            log level_error "cwipc_from_points" "cannot load points (size error?)"
            set_errorbuf none
            pure none)
          else pure (some (uncompressed rv.1)))

-- `cwipc_from_packet` behind its tests of the header.
unfoldable pub from_packet_points : Env → Header → List ℕ → ℕ → M (Option Pointcloud)
from_packet_points env header points data_size = do
  let npoint = to_int (header.size / sizeof_point)
  rv ←
      Raw.from_points env null_uncompressed (decode_points (data_size / sizeof_point) points)
        data_size npoint header.timestamp
  if ltb_ℤ rv.0 (pos 0)
      then (do
        log level_error "cwipc_from_packet" "cannot load points (size error?)"
        set_errorbuf none
        pure none)
      else (do
        rv' ← Raw.set_cellsize env rv.1 header.cellsize
        set_errorbuf none
        pure (some (uncompressed rv')))

unfoldable pub check_packet : Env → Header → List ℕ → ℕ → M (Option Pointcloud)
check_packet env header points size =
    if not (bytes_eq header.hdr dump_header) || not (header.magic == dump_version)
    then (do
      log level_error "cwipc_util" "cwipc_from_packet: incorrect packet header or version"
      set_errorbuf none
      pure none)
    else if mul_size (to_size_t (to_int (header.size / sizeof_point))) sizeof_point
        == sub_size size sizeof_header
    then from_packet_points env header points (sub_size size sizeof_header)
    else (do
      log level_error "cwipc_util" "cwipc_from_packet: inconsistent dataSize"
      set_errorbuf none
      pure none)

unfoldable pub from_packet : Env → List ℕ → ℕ → Option ℕ → ℕ → M (Option Pointcloud)
from_packet env packet size error_message version =
    if version_refused version
    then (do store_message error_message (bad_version "cwipc_from_packet" version); pure none)
    else (do
      set_errorbuf error_message
      check_packet env (decode_header packet) (drop sizeof_header packet) size)

-- `cwipc_dangling_allocations`, for its result: |x - y| of each pair of counters.
abbrev distance_ℕ : ℕ → ℕ → ℕ
distance_ℕ a b = (a - b) + (b - a)

abbrev pub allocation_mismatch : World → ℕ × ℕ
allocation_mismatch w = (
  distance_ℕ w.n_cwipc_pointcloud_alloc w.n_cwipc_pointcloud_dealloc,
  distance_ℕ w.n_cwipc_uncompressed_pointcloud_alloc w.n_cwipc_uncompressed_pointcloud_dealloc,
)

-- The `&&` of the test binds tighter than its `||`.
unfoldable pub dangling_allocations : Bool → M ℕ
dangling_allocations log_wanted w =
    let (compressed, raw) = allocation_mismatch w in
    if log_wanted && not (compressed == 0) || not (raw == 0)
    then (do
      log level_warning "cwipc_pointcloud" "free() mismatch"
      log level_warning "cwipc_pointcloud_uncompressed" "free() mismatch"
      pure (compressed + raw))
        w
    else (compressed + raw, w)
