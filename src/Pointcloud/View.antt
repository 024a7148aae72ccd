-- ===== src/Pointcloud/View.antt =====
-- The contract of `cwipc_pointcloud` (cwipc_util/include/cwipc_util/api.h): an object stands for a list
-- of points, whichever of the two classes of cwipc_util/src/cwipc_util.cpp it has.

use cwipc.Common.{
  ◌*◌, ◌^◌, ◌<◌, ◌≡◌, ◌⊎◌, refl, none, some, List, [], map, length, length-map, arith, take,
  take_all, ap, ◌∷◌,
}
use cwipc.Common.Int.{pos}
use cwipc.Float32.{Float32}
use cwipc.Point.{Point, to_pcl, of_pcl, sizeof_point}
use cwipc.World.{World, Env}
use cwipc.Pointcloud.{Pointcloud, impl, uncompressed}
use cwipc.Pointcloud.Virtual

-- The object holds these points, in the representation of its class; the PCL cloud of a raw object,
-- if it was made, shows the same points.
abbrev pub Shows : Pointcloud → List Point → Type 0
Shows (impl p) ps = p.m_pc ≡ some (map to_pcl ps)
Shows (uncompressed p) ps =
    (p.m_points ≡ some ps)
    × (p.m_points_size ≡ sizeof_point * length ps)
    × ((p.base.m_pc ≡ none) ⊎ (p.base.m_pc ≡ some (map to_pcl ps)))

-- The number of points fits an `int`.
abbrev pub Few : List Point → Type 0
Few ps = length ps < 2 ^ 31

map-of_pcl-to_pcl : (ps : List Point) → map of_pcl (map to_pcl ps) ≡ ps
map-of_pcl-to_pcl [] = refl
map-of_pcl-to_pcl (p ∷ ps) = ap (◌∷◌ p) (map-of_pcl-to_pcl ps)

take-to_pcl : (ps : List Point) → take (length ps) (map to_pcl ps) ≡ map to_pcl ps
take-to_pcl [] = refl
take-to_pcl (p ∷ ps) = ap (◌∷◌ (to_pcl p)) (take-to_pcl ps)

module _ (ps : List Point) (few : Few ps) where
  -- An object that shows some points counts them.
  pub count-Shows :
      (p : Pointcloud) (w : World) → Shows p ps → Virtual.count p w ≡ (pos (length ps), w)
  unfolding Virtual.count
  count-Shows (impl p) w s = ground (arith, length-map ps to_pcl)
  count-Shows (uncompressed p) w s = ground arith

  pub get_uncompressed_size-Shows :
      (p : Pointcloud) (w : World)
      → Shows p ps
      → Virtual.get_uncompressed_size p w ≡ (sizeof_point * length ps, w)
  unfolding Virtual.get_uncompressed_size
  get_uncompressed_size-Shows (impl p) w s = ground (arith, length-map ps to_pcl)
  get_uncompressed_size-Shows (uncompressed p) w s = ground arith

  -- An object of either class that shows some points copies them into an array of the right size
  -- and returns their number, with no change to the state.
  pub copy_uncompressed-Shows :
      (p : Pointcloud) (w : World)
      → Shows p ps
      → Virtual.copy_uncompressed p (sizeof_point * length ps) w ≡ ((pos (length ps), ps), w)
  unfolding Virtual.copy_uncompressed
  copy_uncompressed-Shows (impl p) w s =
      ground (arith, length-map ps to_pcl, take-to_pcl ps, map-of_pcl-to_pcl ps)
  copy_uncompressed-Shows (uncompressed p) w s = ground (arith, take_all ps)

  -- The PCL cloud holds them, and the object still shows them.
  pub access-Shows :
      (p : Pointcloud) (w : World)
      → Shows p ps
      → let ((p', pc), w') = Virtual.access_pcl_pointcloud p w in
        (pc ≡ some (map to_pcl ps)) × Shows p' ps
  unfolding Virtual.access_pcl_pointcloud
  access-Shows (impl p) w s = ground arith
  access-Shows (uncompressed p) w s = ground (arith, take_all ps)

  -- A shallow copy shows the same points as the object, which still shows them, and has its time
  -- stamp.
  pub shallowcopy-Shows :
      (env : Env) (p : Pointcloud) (w : World)
      → Shows p ps
      → let ((p', rv), w') = Virtual.shallowcopy env p w in
        Shows p' ps × Shows rv ps × (Virtual.timestamp rv ≡ Virtual.timestamp p)
  unfolding Virtual.shallowcopy Virtual.timestamp
  shallowcopy-Shows env (impl p) w s = ground arith
  shallowcopy-Shows env (uncompressed p) w s = ground (arith, take_all ps)

  -- Setting the cell size changes no point.
  pub set_cellsize-Shows :
      (env : Env) (p : Pointcloud) (c : Float32) (w : World)
      → Shows p ps
      → Shows (Virtual.set_cellsize env p c w).0 ps
  unfolding Virtual.set_cellsize
  set_cellsize-Shows env (impl p) c w s = ground arith
  set_cellsize-Shows env (uncompressed p) c w s = ground (arith, take_all ps)
