-- ===== src/Filters/Grid/Masks.antt =====
-- cwipc_util/src/cwipc_filters.cpp: the tile mask of a cell is the union of those of its points.
use Prim.Native.Nat.{bit_or}
use cwipc.Common.{
  ℕ, zero, suc, ◌≡◌, List, [], ◌∷◌, map, arith, ◌==◌, if◌then◌else◌, get_elem?, some,
}
use cwipc.Point.{PclPoint}
use cwipc.Filters.Grid.{Voxels, or_mask, or_masks, mask_voxels, clear_mask}

-- The union of the masks of the points that lie in the cell with this number, onto a first mask.
abbrev pub union_of : (PclPoint → ℕ) → ℕ → List PclPoint → ℕ → ℕ
union_of index i [] mask = mask
union_of index i (pt ∷ src) mask =
    union_of index i src (if index pt == i then bit_or mask pt.a else mask)

get_elem?-or_mask :
    (i j mask : ℕ) (dst : List PclPoint) {pt : PclPoint}
    → get_elem? dst j ≡ some pt
    → get_elem? (or_mask i mask dst) j
      ≡ some (record pt { a = if i == j then bit_or pt.a mask else pt.a })
unfolding or_mask
get_elem?-or_mask i j mask [] e = cc
get_elem?-or_mask zero zero mask (x ∷ dst) e = ground arith
get_elem?-or_mask zero (suc j) mask (x ∷ dst) e = ground arith
get_elem?-or_mask (suc i) zero mask (x ∷ dst) e = ground arith
get_elem?-or_mask (suc i) (suc j) mask (x ∷ dst) e =
    ground (arith, get_elem?-or_mask i j mask dst e)

get_elem?-or_masks :
    (index : PclPoint → ℕ) (src dst : List PclPoint) (i : ℕ) (pt : PclPoint)
    → get_elem? dst i ≡ some pt
    → get_elem? (or_masks index src dst) i ≡ some (record pt { a = union_of index i src pt.a })
unfolding or_masks
get_elem?-or_masks index [] dst i pt e = e
get_elem?-or_masks index (s ∷ src) dst i pt e =
    get_elem?-or_masks index src (or_mask (index s) s.a dst) i
      (record pt { a = if index s == i then bit_or pt.a s.a else pt.a })
      (get_elem?-or_mask (index s) i s.a dst e)

get_elem?-clear_mask :
    (pts : List PclPoint) (i : ℕ) (pt : PclPoint)
    → get_elem? pts i ≡ some pt
    → get_elem? (map clear_mask pts) i ≡ some (clear_mask pt)
get_elem?-clear_mask [] i pt e = cc
get_elem?-clear_mask (x ∷ pts) zero pt e = ground arith
get_elem?-clear_mask (x ∷ pts) (suc i) pt e = get_elem?-clear_mask pts i pt e

-- Of each cell of the voxel grid, downsampling keeps the position and the colour, and its mask
-- becomes the union of the masks of exactly the source points that the grid places in this cell.
pub mask_voxels-union :
    (v : Voxels) (src : List PclPoint) (i : ℕ) (pt : PclPoint)
    → get_elem? v.centroids i ≡ some pt
    → get_elem? (mask_voxels v src) i ≡ some (record pt { a = union_of v.centroid_index i src 0 })
unfolding mask_voxels
mask_voxels-union v src i pt e =
    get_elem?-or_masks v.centroid_index src (map clear_mask v.centroids) i (clear_mask pt)
      (get_elem?-clear_mask v.centroids i pt e)
