-- ===== src/Filters.antt =====
-- The filters of cwipc_util/src/cwipc_filters.cpp that look at one point at a time, and the joining of
-- two point clouds. A NULL argument or result is `none`; a filter returns its argument as it leaves it
-- (its PCL cloud may have been made) and its result.
pub mod Grid
pub mod Outliers
pub mod Pointwise
pub mod Samples
use Prim.Native.Nat.{bit_and, bit_or}
use cwipc.Common.{
  ℕ, ◌-◌, ◌^◌, Bool, true, false, ◌&&◌, ◌||◌, Option, none, some, List, [], ◌++◌, String, map,
  filter_by, ltb, ◌==◌, if◌then◌else◌,
}
use cwipc.Common.Int.{ℤ, pos, negsuc}
use cwipc.Float32.{Float32, lt_f, le_f, min_f}
use cwipc.Logging.{level_warning}
use cwipc.Point.{PclPoint, get_rgba, set_rgba}
use cwipc.World.{World, Env, M, pure, ◌>>=◌, ◌>>◌, log}
use cwipc.Pointcloud.{Pointcloud, impl, uncompressed}
use cwipc.Pointcloud.Virtual
use cwipc.Pointcloud.Create
use cwipc.Pointcloud.Create.{api_version}

-- The start of every filter: a NULL point cloud, or one without PCL cloud, gives NULL.
unfoldable pub with_pcl :
    String
    → (Pointcloud → List PclPoint → M (Option Pointcloud))
    → Option Pointcloud
    → M (Option Pointcloud × Option Pointcloud)
with_pcl name body none = pure (none, none)
with_pcl name body (some pc) = do
  made ← Virtual.access_pcl_pointcloud pc
  elim made.1 [
    | none ↦ do log level_warning name "pcl_pointcloud is NULL"; pure (some made.0, none)
    | some src ↦ do rv ← body made.0 src; pure (some made.0, rv)
  ]

-- The end of every filter: a new object for the points, with this time stamp and cell size.
unfoldable pub finish : Env → List PclPoint → ℕ → Float32 → M (Option Pointcloud)
finish env dst timestamp cellsize = do
  rv ← Create.from_pcl (some dst) timestamp none api_version
  elim rv [
    | none ↦ pure none
    | some q ↦ do q' ← Virtual.set_cellsize env q cellsize; pure (some q')
  ]

-- The four filters that make their points one by one.
abbrev pub pointwise :
    Env
    → String
    → (List PclPoint → List PclPoint)
    → Option Pointcloud
    → M (Option Pointcloud × Option Pointcloud)
pointwise env name f =
    with_pcl name λ pc src. finish env (f src) (Virtual.timestamp pc) (Virtual.cellsize pc)

abbrev pub eq_ℤ : ℤ → ℕ → Bool
eq_ℤ (pos m) n = m == n
eq_ℤ (negsuc m) n = false

-- `tile == 0 || tile == pt.a`.
abbrev pub has_tile : ℤ → PclPoint → Bool
has_tile tile pt = eq_ℤ tile 0 || eq_ℤ tile pt.a

unfoldable pub tilefilter : Env → Option Pointcloud → ℤ → M (Option Pointcloud × Option Pointcloud)
unfolding with_pcl finish
tilefilter env pc tile = pointwise env "cwipc_tilefilter" (filter_by (has_tile tile)) pc

-- The table is a function on bytes.
abbrev pub map_tile : (ℕ → ℕ) → PclPoint → PclPoint
map_tile table pt = record pt { a = table pt.a }

unfoldable pub tilemap :
    Env → Option Pointcloud → (ℕ → ℕ) → M (Option Pointcloud × Option Pointcloud)
unfolding with_pcl finish
tilemap env pc table = pointwise env "cwipc_tilemap" (map (map_tile table)) pc

-- `float bbox[6]`.
pub record Box : Type 0 where
  pub x_min : Float32
  pub x_max : Float32
  pub y_min : Float32
  pub y_max : Float32
  pub z_min : Float32
  pub z_max : Float32

abbrev pub between : Float32 → Float32 → Float32 → Bool
between low high f = le_f low f && lt_f f high

abbrev pub in_box : Box → PclPoint → Bool
in_box bbox pt =
    between bbox.x_min bbox.x_max pt.x
    && between bbox.y_min bbox.y_max pt.y
    && between bbox.z_min bbox.z_max pt.z

unfoldable pub crop : Env → Option Pointcloud → Box → M (Option Pointcloud × Option Pointcloud)
unfolding with_pcl finish
crop env pc bbox = pointwise env "cwipc_crop" (filter_by (in_box bbox)) pc

-- `rgba &= ~clear; rgba |= set`, on 32 bits.
unfoldable pub map_color : ℕ → ℕ → PclPoint → PclPoint
unfolding get_rgba set_rgba
map_color clear_bits set_bits pt =
    let cleared = set_rgba (bit_and (get_rgba pt) (2 ^ 32 - 1 - clear_bits)) pt in
    set_rgba (bit_or (get_rgba cleared) set_bits) cleared

unfoldable pub colormap :
    Env → Option Pointcloud → ℕ → ℕ → M (Option Pointcloud × Option Pointcloud)
unfolding with_pcl finish
colormap env pc clear_bits set_bits =
    pointwise env "cwipc_colormap" (map (map_color clear_bits set_bits)) pc

-- `std::min` of two time stamps.
abbrev pub min_timestamp : ℕ → ℕ → ℕ
min_timestamp a b = if ltb b a then b else a

-- Both arguments as they are left, and the result.
unfoldable pub join :
    Env
    → Option Pointcloud
    → Option Pointcloud
    → M (Option Pointcloud × Option Pointcloud × Option Pointcloud)
join env (some pc1) (some pc2) = do
  made1 ← Virtual.access_pcl_pointcloud pc1
  made2 ← Virtual.access_pcl_pointcloud pc2
  elim made1.1 [
    | none ↦ do
      log level_warning "cwipc_join" "some pcl_pointcloud is NULL"
      pure (some made1.0, some made2.0, none)
    | some src1 ↦ elim made2.1 [
      | none ↦ do
        log level_warning "cwipc_join" "some pcl_pointcloud is NULL"
        pure (some made1.0, some made2.0, none)
      | some src2 ↦ do
        rv ←
            finish env (src1 ++ src2)
              (min_timestamp (Virtual.timestamp made1.0) (Virtual.timestamp made2.0))
              (min_f (Virtual.cellsize made1.0) (Virtual.cellsize made2.0))
        pure (some made1.0, some made2.0, rv)
    ]
  ]
join env pc1 pc2 = pure (pc1, pc2, none)
