-- ===== src/Pointcloud/Virtual.antt =====
-- The interface `cwipc_pointcloud`: each call goes to the method of the object's class. Here is also
-- `copy_packet` of cwipc_util/src/cwipc_util.cpp, which calls the object's own methods.
use cwipc.Common.{
  ℕ, ◌+◌, Bool, not, Option, none, some, List, [], ◌∷◌, ◌++◌, ◌==◌, if◌then◌else◌, take, drop,
}
use cwipc.Common.Int.{ℤ}
use cwipc.Words.{le_bytes, le_value}
use cwipc.Float32.{Float32}
use cwipc.Logging.{level_warning}
use cwipc.Point.{Point, PclPoint}
use cwipc.Point.Encoding.{encode_points}
use cwipc.World.{Env, M, pure, ◌>>=◌, ◌>>◌, log}
use cwipc.Metadata.{Metadata}
use cwipc.Pointcloud.{Impl, Pointcloud, impl, uncompressed}
use cwipc.Pointcloud.Base
use cwipc.Pointcloud.Raw

-- The part that both classes have.
abbrev pub base : Pointcloud → Impl
base (impl p) = p
base (uncompressed p) = p.base

abbrev pub raw_points : Pointcloud → Option (List Point)
raw_points (impl p) = none
raw_points (uncompressed p) = p.m_points

unfoldable pub timestamp : Pointcloud → ℕ
timestamp p = (base p).m_timestamp

unfoldable pub cellsize : Pointcloud → Float32
cellsize p = (base p).m_cellsize

unfoldable pub free : Pointcloud → M Pointcloud
unfolding Base.free Raw.free
free (impl p) = do p' ← Base.free p; pure (impl p')
free (uncompressed p) = do p' ← Raw.free p; pure (uncompressed p')

unfoldable pub access_pcl_pointcloud : Pointcloud → M (Pointcloud × Option (List PclPoint))
unfolding Raw.access_pcl_pointcloud
access_pcl_pointcloud (impl p) = pure (impl p, p.m_pc)
access_pcl_pointcloud (uncompressed p) = do
  p' ← Raw.access_pcl_pointcloud p
  pure (uncompressed p', p'.base.m_pc)

unfoldable pub set_cellsize : Env → Pointcloud → Float32 → M Pointcloud
unfolding Base.set_cellsize Raw.set_cellsize
set_cellsize env (impl p) cellsize = pure (impl (Base.set_cellsize env p cellsize))
set_cellsize env (uncompressed p) cellsize = do
  p' ← Raw.set_cellsize env p cellsize
  pure (uncompressed p')

unfoldable pub set_timestamp : Pointcloud → ℕ → Pointcloud
unfolding Base.set_timestamp Raw.set_timestamp
set_timestamp (impl p) timestamp = impl (Base.set_timestamp p timestamp)
set_timestamp (uncompressed p) timestamp = uncompressed (Raw.set_timestamp p timestamp)

-- The object, and its copy.
unfoldable pub shallowcopy : Env → Pointcloud → M (Pointcloud × Pointcloud)
unfolding Base.shallowcopy Raw.shallowcopy
shallowcopy env (impl p) = do rv ← Base.shallowcopy env p; pure (impl p, impl rv)
shallowcopy env (uncompressed p) = do
  made ← Raw.shallowcopy env p
  pure (uncompressed made.0, impl made.1)

unfoldable pub count : Pointcloud → M ℤ
unfolding Base.count Raw.count
count (impl p) = Base.count p
count (uncompressed p) = pure (Raw.count p)

unfoldable pub get_uncompressed_size : Pointcloud → M ℕ
unfolding Base.get_uncompressed_size Raw.get_uncompressed_size
get_uncompressed_size (impl p) = Base.get_uncompressed_size p
get_uncompressed_size (uncompressed p) = pure (Raw.get_uncompressed_size p)

unfoldable pub copy_uncompressed : Pointcloud → ℕ → M (ℤ × List Point)
unfolding Base.copy_uncompressed Raw.copy_uncompressed
copy_uncompressed (impl p) size = Base.copy_uncompressed p size
copy_uncompressed (uncompressed p) size = Raw.copy_uncompressed p size

unfoldable pub access_metadata : Pointcloud → Pointcloud × Metadata
unfolding Base.access_metadata
access_metadata (impl p) = let (p', m) = Base.access_metadata p in (impl p', m)
access_metadata (uncompressed p) =
    let (p', m) = Base.access_metadata p.base in (uncompressed (record p { base = p' }), m)

-- `struct cwipc_cwipcdump_header`: the four characters, the version, the time stamp, the cell size, an
-- unused word and the size of the data, 32 bytes in all.
pub record Header : Type 0 where
  pub hdr : List ℕ
  pub magic : ℕ
  pub timestamp : ℕ
  pub cellsize : Float32
  pub unused : ℕ
  pub size : ℕ

abbrev pub sizeof_header : ℕ
sizeof_header = 32

-- `CWIPC_CWIPCDUMP_HEADER`.
abbrev pub dump_header : List ℕ
dump_header = b'c' ∷ b'p' ∷ b'c' ∷ b'd' ∷ []

-- `CWIPC_CWIPCDUMP_VERSION`.
abbrev pub dump_version : ℕ
dump_version = 0x2021_0208

abbrev pub dump : ℕ → Float32 → ℕ → Header
dump timestamp cellsize size = record {
  hdr = dump_header;
  magic = dump_version;
  timestamp = timestamp;
  cellsize = cellsize;
  unused = 0;
  size = size;
}

unfoldable pub encode_header : Header → List ℕ
encode_header h =
    h.hdr
    ++ (le_bytes 4 h.magic
        ++ (le_bytes 8 h.timestamp
            ++ (le_bytes 4 h.cellsize ++ (le_bytes 4 h.unused ++ le_bytes 8 h.size))))

-- The header that the first bytes of a packet hold.
unfoldable pub decode_header : List ℕ → Header
decode_header bytes = record {
  hdr = take 4 bytes;
  magic = le_value (take 4 (drop 4 bytes));
  timestamp = le_value (take 8 (drop 8 bytes));
  cellsize = le_value (take 4 (drop 16 bytes));
  unused = le_value (take 4 (drop 20 bytes));
  size = le_value (take 8 (drop 24 bytes));
}

-- `copy_packet` of an object that has a PCL cloud: the number returned, and the bytes written.
unfoldable pub packet_of : Pointcloud → Bool → ℕ → M (ℕ × List ℕ)
unfolding get_uncompressed_size copy_uncompressed encode_header
packet_of p has_packet size = do
  data_size ← get_uncompressed_size p
  let needed = sizeof_header + data_size
  if not has_packet
      then pure (needed, [])
      else if size == needed
      then (do
        copied ← copy_uncompressed p data_size
        pure (
          needed,
          encode_header (dump (timestamp p) (cellsize p) data_size) ++ encode_points copied.1,
        ))
      else pure (0, [])

-- `has_packet` is false for a NULL packet, which asks for the size that is needed.
unfoldable pub copy_packet : Pointcloud → Bool → ℕ → M (Pointcloud × ℕ × List ℕ)
unfolding access_pcl_pointcloud
copy_packet p has_packet size = do
  made ← access_pcl_pointcloud p
  elim made.1 [
    | none ↦ do log level_warning "cwipc_util" "copy_packet: NULL pointcloud"; pure (made.0, 0, [])
    | some pc ↦ do written ← packet_of made.0 has_packet size; pure (made.0, written.0, written.1)
  ]
