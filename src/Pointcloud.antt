-- ===== src/Pointcloud.antt =====
-- The classes of cwipc_util/src/cwipc_util.cpp that implement a point cloud. A PCL cloud is the list
-- of its points: the modelled code never changes one after it is made, so sharing it is not visible.
pub mod Base
pub mod Raw
pub mod Virtual
pub mod Create
pub mod Heap
pub mod Entry
pub mod Files
pub mod View
pub mod Packet
pub mod Samples
use cwipc.Common.{ℕ, Option, List}
use cwipc.Float32.{Float32}
use cwipc.Point.{Point, PclPoint}
use cwipc.Metadata.{Metadata}

-- `cwipc_impl`. `none` is a NULL pointer.
pub record Impl : Type 0 where
  pub m_timestamp : ℕ
  pub m_cellsize : Float32
  pub m_pc : Option (List PclPoint)
  pub m_metadata : Option Metadata

-- `cwipc_uncompressed_impl`, which extends it.
pub record Uncompressed : Type 0 where
  pub base : Impl
  pub m_points : Option (List Point)
  pub m_points_size : ℕ

-- An object behind a `cwipc_pointcloud *`.
pub data Pointcloud : Type 0 where
  impl : Impl → Pointcloud
  uncompressed : Uncompressed → Pointcloud
