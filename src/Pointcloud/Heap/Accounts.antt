-- ===== src/Pointcloud/Heap/Accounts.antt =====
-- cwipc_util/src/cwipc_util.cpp: what one call does to the allocation counters.
use cwipc.Common.{ℕ, ◌+◌, ◌≡◌, Bool, Option, none, some, arith}
use cwipc.Float32.{Float32}
use cwipc.World.{World, Env}
use cwipc.Pointcloud.{Pointcloud, impl, uncompressed}
use cwipc.Pointcloud.Virtual
use cwipc.Pointcloud.Virtual.{base, raw_points}

abbrev pub holds {ℓ} : {A : Type ℓ} → Option A → ℕ
holds none = 0
holds (some a) = 1

-- From `w` to `w'` the allocations less the deallocations of the two kinds grow as the numbers of
-- held buffers do, from h and k to h' and k'.
pub record Accounts (w w' : World) (h h' k k' : ℕ) : Type 0 where
  pub compressed :
      w'.n_cwipc_pointcloud_alloc + w.n_cwipc_pointcloud_dealloc + h
      ≡ w.n_cwipc_pointcloud_alloc + w'.n_cwipc_pointcloud_dealloc + h'
  pub raw :
      w'.n_cwipc_uncompressed_pointcloud_alloc + w.n_cwipc_uncompressed_pointcloud_dealloc + k
      ≡ w.n_cwipc_uncompressed_pointcloud_alloc + w'.n_cwipc_uncompressed_pointcloud_dealloc + k'

abbrev pub pcl_count : Pointcloud → ℕ
pcl_count p = holds (base p).m_pc

abbrev pub raw_count : Pointcloud → ℕ
raw_count p = holds (raw_points p)

abbrev pub AccountsObject : World → World → Pointcloud → Pointcloud → Type 0
AccountsObject w w' p p' = Accounts w w' (pcl_count p) (pcl_count p') (raw_count p) (raw_count p')

pub free-Accounts :
    (p : Pointcloud) (w : World) → AccountsObject w (Virtual.free p w).1 p (Virtual.free p w).0
unfolding Virtual.free
free-Accounts (impl p) w = ground arith
free-Accounts (uncompressed p) w = ground arith

pub access-Accounts :
    (p : Pointcloud) (w : World)
    → AccountsObject w
        (Virtual.access_pcl_pointcloud p w).1
        p
        (Virtual.access_pcl_pointcloud p w).0.0
unfolding Virtual.access_pcl_pointcloud
access-Accounts (impl p) w = ground arith
access-Accounts (uncompressed p) w = ground arith

pub set_cellsize-Accounts :
    (env : Env) (p : Pointcloud) (c : Float32) (w : World)
    → AccountsObject w (Virtual.set_cellsize env p c w).1 p (Virtual.set_cellsize env p c w).0
unfolding Virtual.set_cellsize
set_cellsize-Accounts env (impl p) c w = ground arith
set_cellsize-Accounts env (uncompressed p) c w = ground arith

pub set_timestamp-Accounts :
    (p : Pointcloud) (t : ℕ) (w : World) → AccountsObject w w p (Virtual.set_timestamp p t)
unfolding Virtual.set_timestamp
set_timestamp-Accounts (impl p) t w = ground arith
set_timestamp-Accounts (uncompressed p) t w = ground arith

pub access_metadata-Accounts :
    (p : Pointcloud) (w : World) → AccountsObject w w p (Virtual.access_metadata p).0
unfolding Virtual.access_metadata
access_metadata-Accounts (impl p) w = ground arith
access_metadata-Accounts (uncompressed p) w = ground arith

pub shallowcopy-Accounts :
    (env : Env) (p : Pointcloud) (w : World)
    → let ((p', rv), w') = Virtual.shallowcopy env p w in
      Accounts w w'
        (pcl_count p)
        (pcl_count p' + pcl_count rv)
        (raw_count p)
        (raw_count p' + raw_count rv)
unfolding Virtual.shallowcopy
shallowcopy-Accounts env (impl p) w = ground arith
shallowcopy-Accounts env (uncompressed p) w = ground arith

-- The calls that only read leave the counters alone.
pub count-Accounts : (p : Pointcloud) (w : World) → AccountsObject w (Virtual.count p w).1 p p
unfolding Virtual.count
count-Accounts (impl p) w = ground arith
count-Accounts (uncompressed p) w = ground arith

pub get_uncompressed_size-Accounts :
    (p : Pointcloud) (w : World) → AccountsObject w (Virtual.get_uncompressed_size p w).1 p p
unfolding Virtual.get_uncompressed_size
get_uncompressed_size-Accounts (impl p) w = ground arith
get_uncompressed_size-Accounts (uncompressed p) w = ground arith

pub copy_uncompressed-Accounts :
    (p : Pointcloud) (size : ℕ) (w : World)
    → AccountsObject w (Virtual.copy_uncompressed p size w).1 p p
unfolding Virtual.copy_uncompressed
copy_uncompressed-Accounts (impl p) size w = ground arith
copy_uncompressed-Accounts (uncompressed p) size w = ground arith

packet_of-Accounts :
    (p : Pointcloud) (has_packet : Bool) (size : ℕ) (w : World)
    → AccountsObject w (Virtual.packet_of p has_packet size w).1 p p
unfolding Virtual.packet_of
packet_of-Accounts (impl p) has_packet size w = ground arith
packet_of-Accounts (uncompressed p) has_packet size w = ground arith

pub copy_packet-Accounts :
    (p : Pointcloud) (has_packet : Bool) (size : ℕ) (w : World)
    → let (written, w') = Virtual.copy_packet p has_packet size w in AccountsObject w w' p written.0
unfolding Virtual.copy_packet
copy_packet-Accounts p has_packet size w = ground (
  arith,
  access-Accounts p w,
  packet_of-Accounts (Virtual.access_pcl_pointcloud p w).0.0 has_packet size
      (Virtual.access_pcl_pointcloud p w).1,
)
