-- ===== src/Filters/Outliers/Result.antt =====
-- cwipc_util/src/cwipc_filters.cpp: `cwipc_remove_outliers` tile by tile, as its callers see it.
use mathlib.Core.List.{Perm, append_assoc}
use cwipc.Common.{
  ℕ, ◌≡◌, ◌≢◌, true, some, List, [], ◌∷◌, ◌++◌, map, arith, All, ◌∙◌, filter_by, not, ◌==◌,
}
use cwipc.Common.Int.{ℤ}
use cwipc.Float32.{Float32}
use cwipc.Point.{Point, PclPoint, to_pcl}
use cwipc.World.{World, Env}
use cwipc.Pointcloud.{Impl, Pointcloud, impl}
use cwipc.Pointcloud.View.{Shows, Few, access-Shows}
use cwipc.Pointcloud.Virtual
use cwipc.Pointcloud.Create
use cwipc.Filters.Grid.{returned}
use cwipc.Filters.Outliers.{Removal, find_tiles, remove_outliers}
use cwipc.World.{done}
use cwipc.Filters.Outliers.PerTile.{
  cloud_of, m_pc-cloud_of, tile_points, all_tiles, remove_from_tiles-Shows,
}
use cwipc.Filters.Outliers.Tiles.{
  count, occurs, selected, selected-count, Covers, count-find_tiles_nil, all_tiles-perm,
  all_tiles-perm_twice,
}

abbrev pub tiles_of : List Point → List ℕ
tiles_of ps = find_tiles (map to_pcl ps) []

-- If the statistical filter works on each tile, the result holds what it keeps of the tiles, one tile
-- after another.
pub remove_outliers-tiles :
    (env : Env) (removal : Removal) (p : Pointcloud) (ps : List Point) (kept : ℕ → List PclPoint)
    (k : ℤ) (th : Float32) (w : World)
    → Few ps
    → Shows p ps
    → All (λ t. removal k th (tile_points (map to_pcl ps) t) ≡ returned (kept t)) (tiles_of ps)
    → (q : Impl) × ((remove_outliers env removal (some p) k th true w).0.1 ≡ done (some (impl q)))
      × (q.m_pc ≡ some (all_tiles kept (tiles_of ps)))
unfolding remove_outliers Create.from_pcl Virtual.set_cellsize cloud_of
remove_outliers-tiles env removal p ps kept k th w few s works =
    let (made, w₁) = Virtual.access_pcl_pointcloud p w in
    let (cloud, shows) = access-Shows ps few p w s in
    let (p', collected, shows') =
      remove_from_tiles-Shows env removal made.0 ps kept (tiles_of ps) [] k th w₁ few shows works in
    let t = Virtual.timestamp p' in
    let c = Virtual.cellsize p' in
    (
      cloud_of env (all_tiles kept (tiles_of ps)) t c,
      ground (arith, cloud, collected),
      m_pc-cloud_of env (all_tiles kept (tiles_of ps)) t c,
    )

occurs-middle : (pre rest : List PclPoint) (pt : PclPoint) → occurs pt.a (pre ++ pt ∷ rest) ≡ 1
occurs-middle [] rest pt = ground arith
occurs-middle (x ∷ pre) rest pt = ground (arith, occurs-middle pre rest pt)

-- Each point of the cloud has one of the tile numbers that are found, and this number is found once.
Covers-suffix : (pre src : List PclPoint) → Covers (find_tiles (pre ++ src) []) src
Covers-suffix pre [] = tt
Covers-suffix pre (pt ∷ src) = (
  count-find_tiles_nil pt.a (pre ++ pt ∷ src) ∙ occurs-middle pre src pt,
  rw append_assoc at (Covers-suffix (pre ++ pt ∷ []) src),
)

-- The statistical filter finds no outlier in any cloud.
abbrev pub NothingRemoved : Removal → Type 0
NothingRemoved removal = (k : ℤ) (th : Float32) (xs : List PclPoint) → removal k th xs ≡ returned xs

keeps_tiles :
    (removal : Removal) (k : ℤ) (th : Float32) (src : List PclPoint) (ts : List ℕ)
    → NothingRemoved removal
    → All (λ t. removal k th (tile_points src t) ≡ returned (tile_points src t)) ts
keeps_tiles removal k th src [] h = tt
keeps_tiles removal k th src (t ∷ ts) h =
    (h k th (tile_points src t), keeps_tiles removal k th src ts h)

nonzero : (src : List PclPoint) → occurs 0 src ≡ 0 → All (λ (pt : PclPoint). pt.a ≢ 0) src
nonzero [] h = tt
nonzero (pt ∷ src) h = ground (arith, nonzero src)

once :
    (src : List PclPoint) (ts : List ℕ)
    → count 0 ts ≡ 0
    → All (λ (pt : PclPoint). pt.a ≢ 0) src
    → Covers ts src
    → All (λ (pt : PclPoint). selected ts pt ≡ 1) src
once [] ts h n c = tt
once (pt ∷ src) ts h (n, ns) (c, cs) = (ground (arith, selected-count ts pt), once src ts h ns cs)

-- Where no point has tile number 0 and the statistical filter removes nothing, removing outliers
-- tile by tile gives a permutation of the points.
pub remove_outliers-perm :
    (env : Env) (removal : Removal) (p : Pointcloud) (ps : List Point) (k : ℤ) (th : Float32)
    (w : World)
    → Few ps
    → Shows p ps
    → NothingRemoved removal
    → occurs 0 (map to_pcl ps) ≡ 0
    → (q : Impl) × (out : List PclPoint) × ((remove_outliers env removal (some p) k th true w).0.1
        ≡ done (some (impl q)))
      × (q.m_pc ≡ some out)
      × Perm out (map to_pcl ps)
remove_outliers-perm env removal p ps k th w few s nothing no_zero =
    let src = map to_pcl ps in
    let ts = tiles_of ps in
    let (q, made, holds) =
      remove_outliers-tiles env removal p ps (tile_points src) k th w few s
        (keeps_tiles removal k th src ts nothing) in
    (
      q,
      all_tiles (tile_points src) ts,
      made,
      holds,
      all_tiles-perm ts src (
          once src ts (count-find_tiles_nil 0 src ∙ no_zero) (nonzero src no_zero)
            (Covers-suffix [] src)),
    )

-- Where some point has tile number 0 and the statistical filter removes nothing, the result of
-- working tile by tile is a permutation of all the points and, in addition, of those that have
-- another tile number, so that it has each of these twice.
pub remove_outliers-twice :
    (env : Env) (removal : Removal) (p : Pointcloud) (ps : List Point) (k : ℤ) (th : Float32)
    (w : World)
    → Few ps
    → Shows p ps
    → NothingRemoved removal
    → occurs 0 (map to_pcl ps) ≡ 1
    → (q : Impl) × (out : List PclPoint) × ((remove_outliers env removal (some p) k th true w).0.1
        ≡ done (some (impl q)))
      × (q.m_pc ≡ some out)
      × Perm out (map to_pcl ps ++ filter_by (λ pt. not (pt.a == 0)) (map to_pcl ps))
remove_outliers-twice env removal p ps k th w few s nothing found =
    let src = map to_pcl ps in
    let ts = tiles_of ps in
    let (q, made, holds) =
      remove_outliers-tiles env removal p ps (tile_points src) k th w few s
        (keeps_tiles removal k th src ts nothing) in
    (
      q,
      all_tiles (tile_points src) ts,
      made,
      holds,
      all_tiles-perm_twice ts src (count-find_tiles_nil 0 src ∙ found) (Covers-suffix [] src),
    )
