-- ===== src/Filters/Samples.antt =====
-- The filters on concrete point clouds.
use cwipc.Common.{
  ◌≡◌, refl, none, some, arith, List, [], ◌∷◌, ◌++◌, true, map, min, get_elem?, filter_by, not,
  ◌==◌,
}
use mathlib.Core.List.{Perm}
use cwipc.Common.Int.{pos}
use cwipc.Float32.{min_f}
use cwipc.Point.{Point, PclPoint, to_pcl}
use cwipc.World.{fresh_world}
use cwipc.Pointcloud.{Impl, Pointcloud, impl}
use cwipc.Pointcloud.Virtual
use cwipc.Pointcloud.Samples.{sample_env, red, blue, two_points, sample, sample-Shows}
use cwipc.Filters.{join}
use cwipc.Filters.Pointwise.{Yields, join-Yields}
use cwipc.Filters.Grid.{Voxels, mask_voxels, returned}
use cwipc.Filters.Grid.Masks.{mask_voxels-union}
use cwipc.Filters.Outliers.{Removal, remove_outliers}
use cwipc.World.{done}
use cwipc.Filters.Outliers.Result.{NothingRemoved, remove_outliers-perm, remove_outliers-twice}

join-Yields_example :
    Yields
      (join sample_env (some sample) (some sample) fresh_world).0.2
      (red ∷ blue ∷ red ∷ blue ∷ [])
      (min (Virtual.timestamp sample) (Virtual.timestamp sample))
      (min_f (Virtual.cellsize sample) (Virtual.cellsize sample))
unfolding Virtual.cellsize
join-Yields_example =
    join-Yields sample_env sample sample two_points two_points fresh_world (omega arith)
      (omega arith) sample-Shows sample-Shows refl refl

-- A grid with one cell.
abbrev one_cell : Voxels
one_cell = record { centroids = to_pcl red ∷ []; centroid_index = λ pt. 0 }

mask_voxels-union_example :
    get_elem? (mask_voxels one_cell (to_pcl red ∷ to_pcl blue ∷ [])) 0
    ≡ some (record { x = red.x; y = red.y; z = red.z; r = 255; g = 0; b = 0; a = 3 })
mask_voxels-union_example =
    mask_voxels-union one_cell (to_pcl red ∷ to_pcl blue ∷ []) 0 (to_pcl red) refl

abbrev keep_all : Removal
keep_all k th xs = returned xs

keep_all-NothingRemoved : NothingRemoved keep_all
keep_all-NothingRemoved k th xs = refl

remove_outliers-perm_example :
    (q : Impl) × (out : List PclPoint) × ((remove_outliers sample_env keep_all
        (some sample)
        (pos 5)
        0
        true
        fresh_world).0.1
      ≡ done (some (impl q)))
    × (q.m_pc ≡ some out)
    × Perm out (map to_pcl two_points)
remove_outliers-perm_example =
    remove_outliers-perm sample_env keep_all sample two_points (pos 5) 0 fresh_world (omega arith)
      sample-Shows keep_all-NothingRemoved refl

-- A cloud with a point of tile 0 and one of tile 2.
abbrev mixed : List Point
mixed = record red { tile = 0 } ∷ blue ∷ []

abbrev mixed_cloud : Pointcloud
mixed_cloud = impl (record {
  m_timestamp = 1000;
  m_cellsize = 0;
  m_pc = some (map to_pcl mixed);
  m_metadata = none;
})

remove_outliers-twice_example :
    (q : Impl) × (out : List PclPoint) × ((remove_outliers sample_env keep_all
        (some mixed_cloud)
        (pos 5)
        0
        true
        fresh_world).0.1
      ≡ done (some (impl q)))
    × (q.m_pc ≡ some out)
    × Perm out (map to_pcl mixed ++ filter_by (λ pt. not (pt.a == 0)) (map to_pcl mixed))
remove_outliers-twice_example =
    remove_outliers-twice sample_env keep_all mixed_cloud mixed (pos 5) 0 fresh_world (omega arith)
      refl keep_all-NothingRemoved refl
