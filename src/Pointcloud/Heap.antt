-- ===== src/Pointcloud/Heap.antt =====
-- The point cloud objects of a process, and the calls of cwipc_util/src/cwipc_util.cpp on them. An
-- object's address is its place in the list; a call on an address with no object does nothing.
pub mod Accounts
pub mod Allocation
use cwipc.Common.{
  ℕ, zero, suc, ◌+◌, Bool, true, false, Option, none, some, List, [], ◌∷◌, ◌++◌, length,
}
use cwipc.Common.Int.{ℤ}
use cwipc.Float32.{Float32}
use cwipc.Point.{Point, PclPoint}
use cwipc.World.{World, Env, M, pure, ◌>>=◌, ◌>>◌}
use cwipc.Pointcloud.{Pointcloud, impl, uncompressed}
use cwipc.Pointcloud.Virtual
use cwipc.Pointcloud.Create

-- A call on one object, which it may change and leave a new object behind.
pub data Method : Type 0 where
  free shallowcopy count get_uncompressed_size access_pcl_pointcloud access_metadata : Method
  set_cellsize : Float32 → Method
  set_timestamp : ℕ → Method
  copy_uncompressed : ℕ → Method
  copy_packet : Bool → ℕ → Method

pub data Call : Type 0 where
  from_pcl : Option (List PclPoint) → ℕ → Option ℕ → ℕ → Call
  from_points : List Point → ℕ → ℤ → ℕ → Option ℕ → ℕ → Call
  from_packet : List ℕ → ℕ → Option ℕ → ℕ → Call
  method : ℕ → Method → Call

-- The object as the call leaves it, and the object that the call makes.
unfoldable pub call : Env → Method → Pointcloud → M (Pointcloud × Option Pointcloud)
unfolding Virtual.free Virtual.shallowcopy Virtual.access_pcl_pointcloud Virtual.set_cellsize
    Virtual.count
call env free p = do p' ← Virtual.free p; pure (p', none)
call env shallowcopy p = do both ← Virtual.shallowcopy env p; pure (both.0, some both.1)
call env count p = do n ← Virtual.count p; pure (p, none)
call env get_uncompressed_size p = do n ← Virtual.get_uncompressed_size p; pure (p, none)
call env access_pcl_pointcloud p = do made ← Virtual.access_pcl_pointcloud p; pure (made.0, none)
call env access_metadata p = pure ((Virtual.access_metadata p).0, none)
call env (set_cellsize cellsize) p = do p' ← Virtual.set_cellsize env p cellsize; pure (p', none)
call env (set_timestamp timestamp) p = pure (Virtual.set_timestamp p timestamp, none)
call env (copy_uncompressed size) p = do copied ← Virtual.copy_uncompressed p size; pure (p, none)
call env (copy_packet has_packet size) p = do
  written ← Virtual.copy_packet p has_packet size
  pure (written.0, none)

abbrev pub add_object : Option Pointcloud → List Pointcloud → List Pointcloud
add_object none heap = heap
add_object (some p) heap = heap ++ p ∷ []

unfoldable pub call_at :
    Env → Method → ℕ → List Pointcloud → M (List Pointcloud × Option Pointcloud)
call_at env m i [] = pure ([], none)
call_at env m zero (p ∷ heap) = do done ← call env m p; pure (done.0 ∷ heap, done.1)
call_at env m (suc i) (p ∷ heap) = do rest ← call_at env m i heap; pure (p ∷ rest.0, rest.1)

unfoldable pub step : Env → Call → List Pointcloud → M (List Pointcloud)
step env (from_pcl pc timestamp error_message version) heap = do
  rv ← Create.from_pcl pc timestamp error_message version
  pure (add_object rv heap)
step env (from_points points size npoint timestamp error_message version) heap = do
  rv ← Create.from_points env points size npoint timestamp error_message version
  pure (add_object rv heap)
step env (from_packet packet size error_message version) heap = do
  rv ← Create.from_packet env packet size error_message version
  pure (add_object rv heap)
step env (method i m) heap = do done ← call_at env m i heap; pure (add_object done.1 done.0)

unfoldable pub run : Env → List Call → List Pointcloud → M (List Pointcloud)
run env [] heap = pure heap
run env (c ∷ cs) heap = do heap' ← step env c heap; run env cs heap'
