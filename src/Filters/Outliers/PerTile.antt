-- ===== src/Filters/Outliers/PerTile.antt =====
-- cwipc_util/src/cwipc_filters.cpp: what `cwipc_remove_outliers` makes of a cloud tile by tile.
use cwipc.Common.{ℕ, ◌≡◌, refl, Option, none, some, List, [], ◌∷◌, ◌++◌, map, filter_by, arith, All}
use mathlib.Core.List.{append-nil, append_assoc}
use cwipc.Common.Int.{ℤ, pos}
use cwipc.Float32.{Float32}
use cwipc.Point.{Point, PclPoint, to_pcl}
use cwipc.World.{World, Env, M, fresh_world}
use cwipc.Pointcloud.{Impl, Pointcloud, impl}
use cwipc.Pointcloud.View.{Shows, Few, access-Shows}
use cwipc.Pointcloud.Virtual
use cwipc.Pointcloud.Create
use cwipc.Filters.{tilefilter, has_tile, finish}
use cwipc.Filters.Pointwise.{with_pcl_lem}
use cwipc.Filters.Grid.{returned}
use cwipc.Filters.Outliers.{Removal, remove_from_cloud, remove_from_tile, remove_from_tiles}
use cwipc.World.{done}

-- The points of a cloud that the filter for this tile keeps.
abbrev pub tile_points : List PclPoint → ℕ → List PclPoint
tile_points src tile = filter_by (has_tile (pos tile)) src

unfoldable pub cloud_of : Env → List PclPoint → ℕ → Float32 → Impl
unfolding Virtual.set_cellsize
cloud_of env dst t c =
    Virtual.base
      (Virtual.set_cellsize env
        (impl (record { m_timestamp = t; m_cellsize = 0; m_pc = some dst; m_metadata = none })) c
        fresh_world).0

pub m_pc-cloud_of :
    (env : Env) (dst : List PclPoint) (t : ℕ) (c : Float32) → (cloud_of env dst t c).m_pc ≡ some dst
unfolding cloud_of
m_pc-cloud_of env dst t c = refl

finish_lem :
    (env : Env) (dst : List PclPoint) (t : ℕ) (c : Float32) (w : World)
    → (finish env dst t c w).0 ≡ some (impl (cloud_of env dst t c))
unfolding finish Create.from_pcl cloud_of
finish_lem env dst t c w = refl

-- What `cwipc_tilefilter` returns for an object that shows some points.
tilefilter_lem :
    (env : Env) (p : Pointcloud) (ps : List Point) (tile : ℕ) (w : World)
    → Few ps
    → Shows p ps
    → let p' = (Virtual.access_pcl_pointcloud p w).0.0 in
      (tilefilter env (some p) (pos tile) w).0 ≡ (
        some p',
        some (
            impl (
              cloud_of env
                (tile_points (map to_pcl ps) tile)
                (Virtual.timestamp p')
                (Virtual.cellsize p'))),
      )
unfolding tilefilter
tilefilter_lem env p ps tile w few s =
    let body : Pointcloud → List PclPoint → M (Option Pointcloud) =
      λ pc src. finish env (tile_points src tile) (Virtual.timestamp pc) (Virtual.cellsize pc) in
    rw (
      with_pcl_lem "cwipc_tilefilter" body p (map to_pcl ps) w (access-Shows ps few p w s).0,
      finish_lem,
    )

remove_from_impl :
    (removal : Removal) (q : Impl) (src r : List PclPoint) (k : ℤ) (th : Float32) (w : World)
    → q.m_pc ≡ some src
    → removal k th src ≡ returned r
    → (remove_from_cloud removal (impl q) k th w).0.1 ≡ some r
unfolding remove_from_cloud Virtual.access_pcl_pointcloud
remove_from_impl removal q src r k th w e f = ground arith

remove_from_tile_lem :
    (env : Env) (removal : Removal) (p : Pointcloud) (ps : List Point) (r : List PclPoint)
    (tile : ℕ) (k : ℤ) (th : Float32) (w : World)
    → Few ps
    → Shows p ps
    → removal k th (tile_points (map to_pcl ps) tile) ≡ returned r
    → (remove_from_tile env removal p tile k th w).0
      ≡ (some (Virtual.access_pcl_pointcloud p w).0.0, done r)
unfolding remove_from_tile
remove_from_tile_lem env removal p ps r tile k th w few s e =
    let p' = (Virtual.access_pcl_pointcloud p w).0.0 in
    let aux =
      cloud_of env (tile_points (map to_pcl ps) tile) (Virtual.timestamp p')
        (Virtual.cellsize p') in
    let (filtered, w') = tilefilter env (some p) (pos tile) w in
    ground (
      arith,
      tilefilter_lem env p ps tile w few s,
      remove_from_impl removal aux (tile_points (map to_pcl ps) tile) r k th w'
          (m_pc-cloud_of env (tile_points (map to_pcl ps) tile) (Virtual.timestamp p')
            (Virtual.cellsize p'))
          e,
    )

-- The points of the tiles one after another, each without its outliers.
abbrev pub all_tiles : (ℕ → List PclPoint) → List ℕ → List PclPoint
all_tiles kept [] = []
all_tiles kept (t ∷ ts) = kept t ++ all_tiles kept ts

-- If the statistical filter works on each tile, the loop over the tiles collects what it keeps of them,
-- in order, and the object still shows its points.
pub remove_from_tiles-Shows :
    (env : Env) (removal : Removal) (p : Pointcloud) (ps : List Point) (kept : ℕ → List PclPoint)
    (tiles : List ℕ) (dst : List PclPoint) (k : ℤ) (th : Float32) (w : World)
    → Few ps
    → Shows p ps
    → All (λ t. removal k th (tile_points (map to_pcl ps) t) ≡ returned (kept t)) tiles
    → (p' : Pointcloud) × ((remove_from_tiles env removal p tiles dst k th w).0
        ≡ (some p', done (dst ++ all_tiles kept tiles)))
      × Shows p' ps
unfolding remove_from_tiles
remove_from_tiles-Shows env removal p ps kept [] dst k th w few s works = (p, rw append-nil refl, s)
remove_from_tiles-Shows env removal p ps kept (t ∷ ts) dst k th w few s (work, works) =
    let p₁ = (Virtual.access_pcl_pointcloud p w).0.0 in
    let shows = (access-Shows ps few p w s).1 in
    let (one, w') = remove_from_tile env removal p t k th w in
    let (p', rest, shows') =
      remove_from_tiles-Shows env removal p₁ ps kept ts (dst ++ kept t) k th w' few shows works in
    (
      p',
      ground (
        arith,
        remove_from_tile_lem env removal p ps (kept t) t k th w few s work,
        rest,
        append_assoc dst (kept t) (all_tiles kept ts),
      ),
      shows',
    )
