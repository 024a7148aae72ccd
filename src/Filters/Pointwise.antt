-- ===== src/Filters/Pointwise.antt =====
-- cwipc_util/src/cwipc_filters.cpp: what the filters show, in terms of the points of their arguments.
use mathlib.Core.List.{map-append}
use cwipc.Common.{
  ℕ, ◌≡◌, refl, Bool, false, Option, none, some, List, [], ◌∷◌, ◌++◌, map, filter_by, String, arith,
  min,
}
use cwipc.Common.Int.{ℤ}
use cwipc.Float32.{Float32, lt_f, zero_f, min_f, min_f-nonneg}
use cwipc.Point.{Point, PclPoint, to_pcl}
use cwipc.World.{World, Env, M}
use cwipc.Pointcloud.{Pointcloud, impl}
use cwipc.Pointcloud.View.{Shows, Few, access-Shows}
use cwipc.Pointcloud.Packet.{access-timestamp}
use cwipc.Pointcloud.Virtual
use cwipc.Pointcloud.Create
use cwipc.Filters.{with_pcl, finish, tilefilter, join, has_tile, pointwise, min_timestamp}

-- The result of a filter: an object that shows these points, with this time stamp and cell size.
abbrev pub Yields : Option Pointcloud → List Point → ℕ → Float32 → Type 0
Yields rv ps t c =
    (q : Pointcloud) × (rv ≡ some q)
    × Shows q ps
    × (Virtual.timestamp q ≡ t)
    × (Virtual.cellsize q ≡ c)

finish-Yields :
    (env : Env) (ps : List Point) (t : ℕ) (c : Float32) (w : World)
    → lt_f c zero_f ≡ false
    → Yields (finish env (map to_pcl ps) t c w).0 ps t c
unfolding finish Create.from_pcl Virtual.set_cellsize Virtual.timestamp Virtual.cellsize
finish-Yields env ps t c w h = rw h (
  impl (record { m_timestamp = t; m_cellsize = c; m_pc = some (map to_pcl ps); m_metadata = none }),
  refl,
  refl,
  refl,
  refl,
)

pub with_pcl_lem :
    (name : String) (body : Pointcloud → List PclPoint → M (Option Pointcloud)) (p : Pointcloud)
    (src : List PclPoint) (w : World)
    → (Virtual.access_pcl_pointcloud p w).0.1 ≡ some src
    → let ((p', pc), w') = Virtual.access_pcl_pointcloud p w in
      let (rv, w'') = body p' src w' in with_pcl name body (some p) w ≡ ((some p', rv), w'')
unfolding with_pcl
with_pcl_lem name body p src w e = ground arith

-- The points of the argument, and those of the result, if the filter takes the ones to the others.
pointwise-Yields :
    (env : Env) (name : String) (f : List PclPoint → List PclPoint) (p : Pointcloud)
    (ps qs : List Point) (w : World)
    → Few ps
    → Shows p ps
    → lt_f (Virtual.cellsize p) zero_f ≡ false
    → f (map to_pcl ps) ≡ map to_pcl qs
    → Yields (pointwise env name f (some p) w).0.1 qs (Virtual.timestamp p) (Virtual.cellsize p)
pointwise-Yields env name f p ps qs w few s h e =
    let ((p', pc), w') = Virtual.access_pcl_pointcloud p w in
    let (same_timestamp, same_cellsize) = access-timestamp p w in
    let body : Pointcloud → List PclPoint → M (Option Pointcloud) =
      λ pc src. finish env (f src) (Virtual.timestamp pc) (Virtual.cellsize pc) in
    rw
      (
        with_pcl_lem name body p (map to_pcl ps) w (access-Shows ps few p w s).0,
        e,
        same_timestamp,
        same_cellsize,
      )
      (finish-Yields env qs (Virtual.timestamp p) (Virtual.cellsize p) w' h)

filter_by-map :
    (test : PclPoint → Bool) (ps : List Point)
    → filter_by test (map to_pcl ps) ≡ map to_pcl (filter_by (λ q. test (to_pcl q)) ps)
filter_by-map test [] = refl
filter_by-map test (p ∷ ps) = ground (arith, filter_by-map test ps)

-- The tile filter on an object that shows some points, with a cell size that is not negative,
-- keeps the points of the tile, in order, or all points for tile 0, and the time stamp and cell
-- size.
pub tilefilter-Yields :
    (env : Env) (p : Pointcloud) (ps : List Point) (tile : ℤ) (w : World)
    → Few ps
    → Shows p ps
    → lt_f (Virtual.cellsize p) zero_f ≡ false
    → Yields
        (tilefilter env (some p) tile w).0.1
        (filter_by (λ q. has_tile tile (to_pcl q)) ps)
        (Virtual.timestamp p)
        (Virtual.cellsize p)
unfolding tilefilter
tilefilter-Yields env p ps tile w few s h =
    pointwise-Yields env "cwipc_tilefilter" (filter_by (has_tile tile)) p ps
      (filter_by (λ q. has_tile tile (to_pcl q)) ps) w few s h (filter_by-map _ ps)

join_lem :
    (env : Env) (p q : Pointcloud) (src1 src2 : List PclPoint) (w : World)
    → (Virtual.access_pcl_pointcloud p w).0.1 ≡ some src1
    → (Virtual.access_pcl_pointcloud q (Virtual.access_pcl_pointcloud p w).1).0.1 ≡ some src2
    → let ((p', pc), w') = Virtual.access_pcl_pointcloud p w in
      let ((q', qc), w'') = Virtual.access_pcl_pointcloud q w' in
      (join env (some p) (some q) w).0.2
      ≡ (finish env
          (src1 ++ src2)
          (min_timestamp (Virtual.timestamp p') (Virtual.timestamp q'))
          (min_f (Virtual.cellsize p') (Virtual.cellsize q'))
          w'').0
unfolding join
join_lem env p q src1 src2 w e f = ground arith

min_timestamp_lem : (a b : ℕ) → min_timestamp a b ≡ min a b
min_timestamp_lem a b = ground arith

-- The join of two objects that show some points, with cell sizes that are not negative, shows the
-- points of the first and then those of the second, with the earlier time stamp and the smaller
-- cell size.
pub join-Yields :
    (env : Env) (p q : Pointcloud) (ps qs : List Point) (w : World)
    → Few ps
    → Few qs
    → Shows p ps
    → Shows q qs
    → lt_f (Virtual.cellsize p) zero_f ≡ false
    → lt_f (Virtual.cellsize q) zero_f ≡ false
    → Yields
        (join env (some p) (some q) w).0.2
        (ps ++ qs)
        (min (Virtual.timestamp p) (Virtual.timestamp q))
        (min_f (Virtual.cellsize p) (Virtual.cellsize q))
join-Yields env p q ps qs w few few' s s' h h' =
    let ((p', pc), w') = Virtual.access_pcl_pointcloud p w in
    let ((q', qc), w'') = Virtual.access_pcl_pointcloud q w' in
    let t = min_timestamp (Virtual.timestamp p) (Virtual.timestamp q) in
    let c = min_f (Virtual.cellsize p) (Virtual.cellsize q) in
    let made =
      join_lem env p q (map to_pcl ps) (map to_pcl qs) w (access-Shows ps few p w s).0
        (access-Shows qs few' q w' s').0 in
    rw
      (
        made,
        (access-timestamp p w).0,
        (access-timestamp p w).1,
        (access-timestamp q w').0,
        (access-timestamp q w').1,
        ← map-append to_pcl ps qs,
        min_timestamp_lem (Virtual.timestamp p) (Virtual.timestamp q),
      )
      (finish-Yields env (ps ++ qs) (min (Virtual.timestamp p) (Virtual.timestamp q)) c w''
        (min_f-nonneg (Virtual.cellsize p) (Virtual.cellsize q) h h'))
