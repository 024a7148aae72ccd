-- ===== src/Filters/Grid.antt =====
-- Downsampling (cwipc_util/src/cwipc_filters.cpp). The voxel grid and the octree are PCL's and stand as
-- parameters; what is modelled is what the code does around them, and the tile masks.
pub mod Masks
use Prim.Native.Nat.{bit_or}
use cwipc.Common.{
  ℕ, zero, suc, Bool, true, false, Option, none, some, List, [], ◌∷◌, ◌++◌, String, map, get_elem?,
  if◌then◌else◌,
}
use cwipc.Float32.{Float32, zero_f, lt_f, le_f, neg_f}
use cwipc.Logging.{level_error, level_warning}
use cwipc.Point.{PclPoint}
use cwipc.World.{World, Env, M, pure, ◌>>=◌, ◌>>◌, log}
use cwipc.Pointcloud.{Pointcloud, impl, uncompressed}
use cwipc.Pointcloud.Virtual
use cwipc.Filters.{with_pcl, finish}

-- What a call of PCL does: it returns, or throws an exception of PCL or of the standard library.
pub data Attempt {ℓ} (A : Type ℓ) : Type ℓ where
  returned : A → Attempt A
  pcl_exception std_exception : Attempt A

-- What `pcl::VoxelGrid` with a cell size makes of a cloud: the points of its cells, and the place among
-- them of the cell that a point lies in (`getCentroidIndex`).
pub record Voxels : Type 0 where
  pub centroids : List PclPoint
  pub centroid_index : PclPoint → ℕ

-- The grid, and the leaves of the octree whose cells are 64 times as large, as indices of points.
pub record Grid : Type 0 where
  pub voxelize : Float32 → List PclPoint → Attempt Voxels
  pub octree_leaves : Float32 → List PclPoint → Attempt (List (List ℕ))

-- `dst->points[i].a |= mask`.
unfoldable pub or_mask : ℕ → ℕ → List PclPoint → List PclPoint
or_mask i mask [] = []
or_mask zero mask (pt ∷ pts) = record pt { a = bit_or pt.a mask } ∷ pts
or_mask (suc i) mask (pt ∷ pts) = pt ∷ or_mask i mask pts

-- The loop over the source points.
unfoldable pub or_masks : (PclPoint → ℕ) → List PclPoint → List PclPoint → List PclPoint
unfolding or_mask
or_masks index [] dst = dst
or_masks index (pt ∷ src) dst = or_masks index src (or_mask (index pt) pt.a dst)

abbrev pub clear_mask : PclPoint → PclPoint
clear_mask pt = record pt { a = 0 }

-- Steps 2 and 3: the masks of the cells are those of the points in them.
unfoldable pub mask_voxels : Voxels → List PclPoint → List PclPoint
unfolding or_masks
mask_voxels v src = or_masks v.centroid_index src (map clear_mask v.centroids)

-- The cell size does not become smaller than that of the source.
abbrev pub coarser : Float32 → Float32 → Float32
coarser old cellsize = if le_f cellsize old then old else cellsize

abbrev failed : String → M (Option Pointcloud)
failed text = do log level_error "cwipc_downsample" text; pure none

voxelized : Env → Attempt Voxels → Pointcloud → List PclPoint → Float32 → M (Option Pointcloud)
unfolding mask_voxels
voxelized env pcl_exception pc src cellsize = failed "VoxelGrid PCL exception"
voxelized env std_exception pc src cellsize = failed "VoxelGrid std exception"
voxelized env (returned v) pc src cellsize = elim v.centroids [
  | [] ↦ failed "VoxelGrid filter produced empty pointcloud"
  | _ ∷ _ ↦ finish env (mask_voxels v src) (Virtual.timestamp pc) cellsize
]

unfoldable pub downsample_voxelgrid :
    Grid → Env → Option Pointcloud → Float32 → M (Option Pointcloud × Option Pointcloud)
unfolding with_pcl voxelized
downsample_voxelgrid grid env pc cellsize =
    with_pcl "cwipc_downsample_voxelgrid"
      (λ p src.
        let size = coarser (Virtual.cellsize p) cellsize in
        voxelized env (grid.voxelize size src) p src size)
      pc

-- `src->at(i)` throws for an index out of range.
gather : List PclPoint → List ℕ → Attempt (List PclPoint)
gather src [] = returned []
gather src (i ∷ is) = elim (get_elem? src i) [
  | none ↦ std_exception
  | some pt ↦ elim (gather src is) [
    | returned pts ↦ returned (pt ∷ pts)
    | pcl_exception ↦ pcl_exception
    | std_exception ↦ std_exception
  ]
]

-- One leaf: the cells of its points, with their masks; none if the grid makes no cell.
leaf_points : (List PclPoint → Attempt Voxels) → List PclPoint → Attempt (List PclPoint)
unfolding mask_voxels
leaf_points voxelize input = elim (voxelize input) [
  | returned v ↦ returned (mask_voxels v input)
  | pcl_exception ↦ pcl_exception
  | std_exception ↦ std_exception
]

-- The loop over the leaves.
unfoldable pub leaves_points :
    (List PclPoint → Attempt Voxels)
    → List PclPoint
    → List (List ℕ)
    → List PclPoint
    → Attempt (List PclPoint)
unfolding gather leaf_points
leaves_points voxelize src [] dst = returned dst
leaves_points voxelize src (leaf ∷ leaves) dst = elim (gather src leaf) [
  | pcl_exception ↦ pcl_exception
  | std_exception ↦ std_exception
  | returned input ↦ elim (leaf_points voxelize input) [
    | pcl_exception ↦ pcl_exception
    | std_exception ↦ std_exception
    | returned pts ↦ leaves_points voxelize src leaves (dst ++ pts)
  ]
]

split_points : Grid → Float32 → List PclPoint → Attempt (List PclPoint)
unfolding leaves_points
split_points grid size src = elim (grid.octree_leaves size src) [
  | returned leaves ↦ leaves_points (grid.voxelize size) src leaves []
  | pcl_exception ↦ pcl_exception
  | std_exception ↦ std_exception
]

downsampled : Env → Attempt (List PclPoint) → Pointcloud → Float32 → M (Option Pointcloud)
downsampled env pcl_exception pc size = failed "PCL exception"
downsampled env std_exception pc size = failed "std exception"
downsampled env (returned dst) pc size = finish env dst (Virtual.timestamp pc) size

unfoldable pub downsample :
    Grid → Env → Option Pointcloud → Float32 → M (Option Pointcloud × Option Pointcloud)
unfolding with_pcl split_points downsampled
downsample grid env pc cellsize =
    if lt_f cellsize zero_f
    then downsample_voxelgrid grid env pc (neg_f cellsize)
    else with_pcl "cwipc_downsample"
        (λ p src.
          let size = coarser (Virtual.cellsize p) cellsize in
          downsampled env (split_points grid size src) p size)
        pc
