-- ===== src/Pointcloud/Base.antt =====
-- The methods of `cwipc_impl` (cwipc_util/src/cwipc_util.cpp). Each takes the object and returns it as
-- the call leaves it.
use cwipc.Common.{
  ℕ, ◌+◌, Option, none, some, List, [], ◌∷◌, map, take, length, ltb, ◌==◌, if◌then◌else◌,
}
use cwipc.Common.Int.{ℤ, pos, negsuc, pos_part}
use cwipc.Words.{to_size_t, to_int, mul_size}
use cwipc.Float32.{Float32, zero_f, infinity, lt_f, eq_f}
use cwipc.Logging.{level_error, level_warning}
use cwipc.Point.{Point, PclPoint, to_pcl, of_pcl, sizeof_point}
use cwipc.World.{Env, M, pure, ◌>>=◌, ◌>>◌, log}
use cwipc.Metadata.{Metadata, destroy}
use cwipc.Pointcloud.{Impl}

abbrev pub null_impl : Impl
null_impl = record { m_timestamp = 0; m_cellsize = zero_f; m_pc = none; m_metadata = none }

count_alloc : M (Unit {0})
count_alloc w = (tt, record w { n_cwipc_pointcloud_alloc = w.n_cwipc_pointcloud_alloc + 1 })

unfoldable pub count_dealloc : M (Unit {0})
count_dealloc w = (tt, record w { n_cwipc_pointcloud_dealloc = w.n_cwipc_pointcloud_dealloc + 1 })

-- The constructor with a PCL cloud.
unfoldable pub new : Option (List PclPoint) → ℕ → M Impl
unfolding count_alloc
new none timestamp = pure (record null_impl { m_timestamp = timestamp })
new (some pc) timestamp = do
  count_alloc
  pure (record null_impl { m_timestamp = timestamp; m_pc = some pc })

-- The distance from `first` to the nearest of the points, or `nearest` if that is smaller.
nearest_from : (PclPoint → PclPoint → Float32) → PclPoint → List PclPoint → Float32 → Float32
nearest_from distance first [] nearest = nearest
nearest_from distance first (p ∷ ps) nearest =
    nearest_from distance first ps
      (if lt_f (distance p first) nearest then distance p first else nearest)

unfoldable pub min_distance : (PclPoint → PclPoint → Float32) → List PclPoint → Float32
unfolding nearest_from
min_distance distance [] = infinity
min_distance distance (first ∷ ps) = nearest_from distance first ps infinity

unfoldable pub guess_cellsize : (PclPoint → PclPoint → Float32) → List PclPoint → Float32
unfolding min_distance
guess_cellsize distance pc =
    let nearest = min_distance distance pc in if eq_f nearest infinity then zero_f else nearest

unfoldable pub set_cellsize : Env → Impl → Float32 → Impl
set_cellsize env this cellsize = elim this.m_pc [
  | none ↦ record this { m_cellsize = cellsize }
  | some pc ↦ record this {
    m_cellsize = if lt_f cellsize zero_f then guess_cellsize env.distance pc else cellsize;
  }
]

unfoldable pub shallowcopy : Env → Impl → M Impl
unfolding new set_cellsize
shallowcopy env this = do
  rv ← new this.m_pc this.m_timestamp
  pure (set_cellsize env rv this.m_cellsize)

-- `-1` is the number returned where the sizes do not agree. The caller's array holds at least `npoint`
-- points.
unfoldable pub from_points : Impl → List Point → ℕ → ℤ → ℕ → M (ℤ × Impl)
unfolding count_alloc
from_points this points size npoint timestamp =
    if mul_size (to_size_t npoint) sizeof_point == size
    then (do
      count_alloc
      pure (
        npoint,
        record this {
          m_timestamp = timestamp;
          m_pc = some (map to_pcl (take (pos_part npoint) points));
        },
      ))
    else pure (negsuc 0, this)

free_pc : Option (List PclPoint) → M (Unit {0})
unfolding count_dealloc
free_pc none = pure tt
free_pc (some pc) = count_dealloc

free_metadata : Option Metadata → M (Unit {0})
unfolding destroy
free_metadata none = pure tt
free_metadata (some m) = destroy m

unfoldable pub free : Impl → M Impl
unfolding free_pc free_metadata
free this = do
  free_pc this.m_pc
  free_metadata this.m_metadata
  pure (record this { m_pc = none; m_metadata = none })

unfoldable pub set_timestamp : Impl → ℕ → Impl
set_timestamp this timestamp = record this { m_timestamp = timestamp }

unfoldable pub count : Impl → M ℤ
count this = elim this.m_pc [
  | none ↦ do log level_warning "cwipc_util" "count: NULL pointcloud"; pure (pos 0)
  | some pc ↦ pure (to_int (length pc))
]

unfoldable pub get_uncompressed_size : Impl → M ℕ
get_uncompressed_size this = elim this.m_pc [
  | none ↦ do log level_warning "cwipc_util" "get_uncompressed_size: NULL pointcloud"; pure 0
  | some pc ↦ pure (mul_size (length pc) sizeof_point)
]

-- The number returned, and the points written to the start of the caller's array.
unfoldable pub copy_uncompressed : Impl → ℕ → M (ℤ × List Point)
copy_uncompressed this size = elim this.m_pc [
  | none ↦ do log level_warning "cwipc_util" "copy_uncompressed: NULL pointcloud"; pure (pos 0, [])
  | some pc ↦
      if ltb size (mul_size (length pc) sizeof_point)
      then (do
        log level_error "cwipc_util" "copy_uncompressed: buffer too small"
        pure (negsuc 0, []))
      else pure (to_int (length pc), map of_pcl (take (pos_part (to_int (length pc))) pc))
]

unfoldable pub access_metadata : Impl → Impl × Metadata
access_metadata this = elim this.m_metadata [
  | none ↦ (record this { m_metadata = some [] }, [])
  | some m ↦ (this, m)
]
