-- ===== src/Pointcloud/Files.antt =====
-- Point clouds in files (cwipc_util/src/cwipc_util.cpp): the dump format, and PLY files through the
-- PCL reader and writer, whose results are arguments.
use cwipc.Common.{
  ℕ, ◌-◌, ◌/◌, Bool, not, Option, none, some, List, ◌++◌, String, take, drop, length, ltb, ◌==◌,
  if◌then◌else◌, min,
}
use cwipc.Common.Int.{ℤ, pos, negsuc, pos_part, ltb_ℤ}
use cwipc.Words.{to_size_t, to_int, mul_size, bytes_eq}
use cwipc.Logging.{level_error, bad_version}
use cwipc.Point.{Point, PclPoint, sizeof_point}
use cwipc.Point.Encoding.{decode_points, encode_points}
use cwipc.World.{Env, M, pure, ◌>>=◌, ◌>>◌, log, set_errorbuf, store_message}
use cwipc.Pointcloud.{Pointcloud, impl, uncompressed}
use cwipc.Pointcloud.Base
use cwipc.Pointcloud.Raw
use cwipc.Pointcloud.Raw.{null_uncompressed}
use cwipc.Pointcloud.Virtual
use cwipc.Pointcloud.Virtual.{
  sizeof_header, dump_header, dump_version, dump, Header, decode_header, encode_header,
}
use cwipc.Pointcloud.Create.{version_refused}

-- An error that ends a call with a NULL result, and one that ends it with -1.
abbrev pub fail : String → String → M (Option Pointcloud)
fail name text = do log level_error name text; set_errorbuf none; pure none

abbrev pub fail_int {ℓ} : {A : Type ℓ} → String → String → A → M (ℤ × A)
fail_int name text a = do log level_error name text; set_errorbuf none; pure (negsuc 0, a)

-- `cwipc_read_debugdump` behind its tests: the number that `from_points` returns is not looked at, and
-- the error buffer stays set.
load_dump : Env → Header → List ℕ → M (Option Pointcloud)
load_dump env hdr rest = do
  let npoint = to_int (hdr.size / sizeof_point)
  pc ←
      Raw.from_points env null_uncompressed (decode_points (hdr.size / sizeof_point) rest) hdr.size
        npoint hdr.timestamp
  pc' ← Raw.set_cellsize env pc.1 hdr.cellsize
  pure (some (uncompressed pc'))

check_dump : Env → Header → List ℕ → M (Option Pointcloud)
unfolding load_dump
check_dump env hdr rest =
    if not (bytes_eq hdr.hdr dump_header)
    then fail "cwipc_read_debugdump" "Pointcloud dumpfile header incorrect"
    else if not (hdr.magic == dump_version)
    then fail "cwipc_read_debugdump" "Pointcloud dumpfile version incorrect"
    else if not (mul_size (to_size_t (to_int (hdr.size / sizeof_point))) sizeof_point == hdr.size)
    then fail "cwipc_read_debugdump" "Pointcloud dumpfile datasize inconsistent"
    else if not (env.malloc hdr.size)
    then fail "cwipc_read_debugdump" "Could not allocate memory for point data"
    else if ltb (length rest) hdr.size
    then fail "cwipc_read_debugdump" "Could not read point data of correct size"
    else load_dump env hdr rest

-- `none` for a file that cannot be opened.
unfoldable pub read_debugdump : Env → Option (List ℕ) → Option ℕ → ℕ → M (Option Pointcloud)
unfolding check_dump
read_debugdump env file error_message version =
    if version_refused version
    then (do store_message error_message (bad_version "cwipc_read_debugdump" version); pure none)
    else (do
      set_errorbuf error_message
      elim file [
        | none ↦ fail "cwipc_read_debugdump" "Cannot open file"
        | some bytes ↦
            if ltb (length bytes) sizeof_header
            then fail "cwipc_read_debugdump" "Cannot read pointcloud dumpfile header"
            else check_dump env (decode_header bytes) (drop sizeof_header bytes)
      ])

-- Whether the file can be opened for writing, and how many bytes can be written to it.
pub record Disk : Type 0 where
  pub opens : Bool
  pub capacity : ℕ

-- `fwrite` of so many points, behind the header.
abbrev pub points_written : Disk → ℕ → ℕ
points_written disk npoint = min npoint ((disk.capacity - sizeof_header) / sizeof_point)

write_points : Disk → Pointcloud → ℕ → ℤ → List Point → M (ℤ × Option (List ℕ))
write_points disk pc data_size npoint points =
    let bytes =
      encode_header (dump (Virtual.timestamp pc) (Virtual.cellsize pc) data_size)
      ++ encode_points (take (pos_part npoint) points) in
    if not disk.opens
    then fail_int "cwipc_write_debugdump" "Cannot open output file" none
    else if not (points_written disk (pos_part npoint) == pos_part npoint)
    then fail_int "cwipc_write_debugdump" "Cannot write point data"
        (some (take disk.capacity bytes))
    else (do set_errorbuf none; pure (pos 0, some (take disk.capacity bytes)))

-- The number returned, and what the file holds afterwards; `none` where it was not opened.
unfoldable pub write_debugdump : Env → Disk → Pointcloud → Option ℕ → M (ℤ × Option (List ℕ))
unfolding write_points
write_debugdump env disk pc error_message = do
  data_size ← Virtual.get_uncompressed_size pc
  set_errorbuf error_message
  if not (env.malloc data_size)
      then fail_int "cwipc_write_debugdump" "Cannot allocate memory" none
      else (do
        copied ← Virtual.copy_uncompressed pc data_size
        if ltb_ℤ copied.0 (pos 0)
            then fail_int "cwipc_write_debugdump" "Cannot copy points" none
            else write_points disk pc data_size copied.0 copied.1)

-- `cwipc_read`, with what the PLY reader makes of the file.
unfoldable pub read : Option (List PclPoint) → ℕ → Option ℕ → ℕ → M (Option Pointcloud)
read ply timestamp error_message version =
    if version_refused version
    then (do store_message error_message (bad_version "cwipc_read" version); pure none)
    else (do
      set_errorbuf error_message
      elim ply [
        | none ↦ fail "cwipc_read" "Loading of PLY file failed"
        | some pc ↦ do rv ← Base.new (some pc) timestamp; set_errorbuf none; pure (some (impl rv))
      ])

-- `cwipc_write_ext` (and `cwipc_write`, which writes text), with the status of the PLY writer for the
-- points and the binary flag.
unfoldable pub write_ext :
    (List PclPoint → Bool → ℤ) → Pointcloud → Bool → Option ℕ → M (ℤ × Pointcloud)
write_ext writer pointcloud binary error_message = do
  made ← Virtual.access_pcl_pointcloud pointcloud
  set_errorbuf error_message
  elim made.1 [
    | none ↦ fail_int "cwipc_write_ext" "Saving NULL pointcloud not implemented" made.0
    | some pc ↦
        if ltb_ℤ (writer pc binary) (pos 0)
        then (do
          log level_error "cwipc_write_ext" "Saving of PLY file failed"
          set_errorbuf none
          pure (writer pc binary, made.0))
        else (do set_errorbuf none; pure (writer pc binary, made.0))
  ]
