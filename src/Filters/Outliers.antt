-- ===== src/Filters/Outliers.antt =====
-- `cwipc_remove_outliers` (cwipc_util/src/cwipc_filters.cpp), on a whole point cloud and tile by tile.
-- The statistical filter is PCL's and stands as a parameter.
pub mod PerTile
pub mod Tiles
pub mod Result
use cwipc.Common.{
  ℕ, Bool, true, false, ◌||◌, Option, none, some, List, [], ◌∷◌, ◌++◌, ◌==◌, if◌then◌else◌,
}
use cwipc.Common.Int.{ℤ, pos, negsuc}
use cwipc.Float32.{Float32}
use cwipc.Logging.{level_error, level_warning}
use cwipc.Point.{PclPoint}
use cwipc.World.{World, Env, Outcome, done, undefined, M, pure, ◌>>=◌, ◌>>◌, log}
use cwipc.Pointcloud.{Pointcloud, impl, uncompressed}
use cwipc.Pointcloud.Virtual
use cwipc.Pointcloud.Create
use cwipc.Pointcloud.Create.{api_version}
use cwipc.Filters.{tilefilter}
use cwipc.Filters.Grid.{Attempt, returned, pcl_exception, std_exception}

-- `pcl::StatisticalOutlierRemoval`, for a number of neighbours and a threshold.
abbrev pub Removal : Type 0
Removal = ℤ → Float32 → List PclPoint → Attempt (List PclPoint)

attempted : Attempt (List PclPoint) → M (Option (List PclPoint))
attempted (returned dst) = pure (some dst)
attempted pcl_exception = do log level_error "cwipc_remove_outliers" "PCL exception"; pure none
attempted std_exception = do log level_error "cwipc_remove_outliers" "std exception"; pure none

-- The function of three arguments: the object as it is left, and the PCL cloud or NULL.
unfoldable pub remove_from_cloud :
    Removal → Pointcloud → ℤ → Float32 → M (Pointcloud × Option (List PclPoint))
unfolding attempted
remove_from_cloud removal pc k thresh = do
  made ← Virtual.access_pcl_pointcloud pc
  elim made.1 [
    | none ↦ do
      log level_warning "cwipc_remove_outliers" "pcl_pointcloud is NULL"
      pure (made.0, none)
    | some src ↦ do dst ← attempted (removal k thresh src); pure (made.0, dst)
  ]

pub has : List ℕ → ℕ → Bool
has [] t = false
has (x ∷ xs) t = x == t || has xs t

-- The tile numbers, each once, in the order in which they first occur.
unfoldable pub find_tiles : List PclPoint → List ℕ → List ℕ
unfolding has
find_tiles [] tiles = tiles
find_tiles (pt ∷ src) tiles = find_tiles src (if has tiles pt.a then tiles else tiles ++ pt.a ∷ [])

-- The points of one tile without its outliers, and the object as it is left.
unfoldable pub remove_from_tile :
    Env → Removal → Pointcloud → ℕ → ℤ → Float32 → M (Option Pointcloud × Outcome (List PclPoint))
remove_from_tile env removal pc tile k thresh = do
  aux ← tilefilter env (some pc) (pos tile)
  elim aux.1 [
    | none ↦ pure (aux.0, undefined)
    | some aux_pc ↦ do
      removed ← remove_from_cloud removal aux_pc k thresh
      elim removed.1 [
        | none ↦ pure (aux.0, undefined)
        | some aux_dst ↦ do freed ← Virtual.free removed.0; pure (aux.0, done aux_dst)
      ]
  ]

-- The loop over the tiles.
unfoldable pub remove_from_tiles :
    Env
    → Removal
    → Pointcloud
    → List ℕ
    → List PclPoint
    → ℤ
    → Float32
    → M (Option Pointcloud × Outcome (List PclPoint))
remove_from_tiles env removal pc [] dst k thresh = pure (some pc, done dst)
remove_from_tiles env removal pc (tile ∷ tiles) dst k thresh = do
  one ← remove_from_tile env removal pc tile k thresh
  elim one.0 [
    | none ↦ pure (none, undefined)
    | some pc' ↦ elim one.1 [
      | undefined ↦ pure (some pc', undefined)
      | done aux_dst ↦ remove_from_tiles env removal pc' tiles (dst ++ aux_dst) k thresh
    ]
  ]

-- A new object for the points, or for no PCL cloud.
rewrap : Env → Option (List PclPoint) → Pointcloud → M (Outcome (Option Pointcloud))
rewrap env dst pc = do
  rv ← Create.from_pcl dst (Virtual.timestamp pc) none api_version
  elim rv [
    | none ↦ pure undefined
    | some q ↦ do q' ← Virtual.set_cellsize env q (Virtual.cellsize pc); pure (done (some q'))
  ]

tiles_done :
    Env
    → Option Pointcloud × Outcome (List PclPoint)
    → M (Option Pointcloud × Outcome (Option Pointcloud))
unfolding rewrap
tiles_done env (none, _) = pure (none, undefined)
tiles_done env (some pc, undefined) = pure (some pc, undefined)
tiles_done env (some pc, done dst) = do rv ← rewrap env (some dst) pc; pure (some pc, rv)

-- The function of four arguments.
unfoldable pub remove_outliers :
    Env
    → Removal
    → Option Pointcloud
    → ℤ
    → Float32
    → Bool
    → M (Option Pointcloud × Outcome (Option Pointcloud))
unfolding tiles_done rewrap
remove_outliers env removal none k thresh per_tile = pure (none, done none)
remove_outliers env removal (some pc) k thresh per_tile = do
  made ← Virtual.access_pcl_pointcloud pc
  elim made.1 [
    | none ↦ do
      log level_warning "cwipc_remove_outliers" "pcl_pointcloud is NULL"
      pure (some made.0, done none)
    | some src ↦
        if per_tile
        then (do
          removed ← remove_from_tiles env removal made.0 (find_tiles src []) [] k thresh
          tiles_done env removed)
        else (do
          removed ← remove_from_cloud removal made.0 k thresh
          rv ← rewrap env removed.1 removed.0
          pure (some removed.0, rv))
  ]
