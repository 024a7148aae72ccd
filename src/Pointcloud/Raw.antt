-- ===== src/Pointcloud/Raw.antt =====
-- The methods that `cwipc_uncompressed_impl` overrides (cwipc_util/src/cwipc_util.cpp): it keeps the
-- raw array of points, and makes the PCL cloud from it when that is first needed.
use mathlib.Core.Option.{get_or}
use cwipc.Common.{ℕ, ◌+◌, ◌/◌, Option, none, some, List, [], take, ◌==◌, if◌then◌else◌}
use cwipc.Common.Int.{ℤ, negsuc}
use cwipc.Words.{to_size_t, to_int, mul_size}
use cwipc.Float32.{Float32}
use cwipc.Logging.{level_error}
use cwipc.Point.{Point, PclPoint, sizeof_point}
use cwipc.World.{Env, M, pure, ◌>>=◌, ◌>>◌, log}
use cwipc.Pointcloud.{Impl, Uncompressed}
use cwipc.Pointcloud.Base
use cwipc.Pointcloud.Base.{null_impl}

abbrev pub null_uncompressed : Uncompressed
null_uncompressed = record { base = null_impl; m_points = none; m_points_size = 0 }

count_alloc : M (Unit {0})
count_alloc w = (
  tt,
  record w { n_cwipc_uncompressed_pointcloud_alloc = w.n_cwipc_uncompressed_pointcloud_alloc + 1 },
)

count_dealloc : M (Unit {0})
count_dealloc w = (
  tt,
  record w {
    n_cwipc_uncompressed_pointcloud_dealloc = w.n_cwipc_uncompressed_pointcloud_dealloc + 1;
  },
)

-- A PCL cloud made earlier no longer shows the points.
drop_pc : Option (List PclPoint) → M (Unit {0})
unfolding Base.count_dealloc
drop_pc none = pure tt
drop_pc (some pc) = Base.count_dealloc

-- `from_points` behind its test of the sizes.
store_points : Env → Uncompressed → List Point → ℕ → ℤ → ℕ → M (ℤ × Uncompressed)
unfolding count_alloc drop_pc
store_points env this points size npoint timestamp =
    let stamped : Impl = record this.base { m_timestamp = timestamp } in
    if env.malloc size
    then (do
      count_alloc
      drop_pc this.base.m_pc
      pure (
        npoint,
        record {
          base = record stamped { m_pc = none };
          m_points = some (take (size / sizeof_point) points);
          m_points_size = size;
        },
      ))
    else (do
      log level_error "cwipc_util" "from_points: could not allocate memory for points"
      pure (
        negsuc 0,
        record { base = stamped; m_points = none; m_points_size = this.m_points_size },
      ))

unfoldable pub from_points : Env → Uncompressed → List Point → ℕ → ℤ → ℕ → M (ℤ × Uncompressed)
unfolding store_points
from_points env this points size npoint timestamp =
    if mul_size (to_size_t npoint) sizeof_point == size
    then store_points env this points size npoint timestamp
    else (do
      log level_error "cwipc_util" "from_points: size and npoint inconsistent"
      pure (negsuc 0, this))

free_points : Option (List Point) → M (Unit {0})
unfolding count_dealloc
free_points none = pure tt
free_points (some points) = count_dealloc

unfoldable pub free : Uncompressed → M Uncompressed
unfolding Base.free free_points
free this = do
  base ← Base.free this.base
  free_points this.m_points
  pure (record { base = base; m_points = none; m_points_size = 0 })

make_pc : Uncompressed → M Uncompressed
unfolding Base.from_points
make_pc this = do
  made ←
      Base.from_points this.base (get_or this.m_points []) this.m_points_size
        (to_int (this.m_points_size / sizeof_point)) this.base.m_timestamp
  pure (record this { base = made.1 })

-- The object, with its PCL cloud made.
unfoldable pub access_pcl_pointcloud : Uncompressed → M Uncompressed
unfolding make_pc
access_pcl_pointcloud this = elim this.base.m_pc [ none ↦ make_pc this | some _ ↦ pure this ]

unfoldable pub set_cellsize : Env → Uncompressed → Float32 → M Uncompressed
unfolding access_pcl_pointcloud Base.set_cellsize
set_cellsize env this cellsize = do
  made ← access_pcl_pointcloud this
  pure (record made { base = Base.set_cellsize env made.base cellsize })

-- The object, with its PCL cloud made, and the copy.
unfoldable pub shallowcopy : Env → Uncompressed → M (Uncompressed × Impl)
unfolding access_pcl_pointcloud Base.shallowcopy
shallowcopy env this = do
  made ← access_pcl_pointcloud this
  rv ← Base.shallowcopy env made.base
  pure (made, rv)

unfoldable pub set_timestamp : Uncompressed → ℕ → Uncompressed
unfolding Base.set_timestamp
set_timestamp this timestamp = record this { base = Base.set_timestamp this.base timestamp }

unfoldable pub count : Uncompressed → ℤ
count this = to_int (this.m_points_size / sizeof_point)

unfoldable pub get_uncompressed_size : Uncompressed → ℕ
get_uncompressed_size this = this.m_points_size

unfoldable pub copy_uncompressed : Uncompressed → ℕ → M (ℤ × List Point)
copy_uncompressed this size =
    if size == this.m_points_size
    then pure (
      to_int (this.m_points_size / sizeof_point),
      take (size / sizeof_point) (get_or this.m_points []),
    )
    else (do
      log level_error "cwipc_util" "copy_uncompressed: buffer too small"
      pure (negsuc 0, []))
