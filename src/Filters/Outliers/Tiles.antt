-- ===== src/Filters/Outliers/Tiles.antt =====
-- cwipc_util/src/cwipc_filters.cpp: the tile numbers that `cwipc_remove_outliers` finds, and how often
-- each point is in the tiles that these numbers select.
use mathlib.Core.List.{Perm, perm_middle}
use mathlib.Core.List.Perm
use cwipc.Common.{
  ℕ, ◌+◌, ◌≤◌, ◌≡◌, refl, true, false, List, [], ◌∷◌, ◌++◌, arith, All, ◌==◌, if◌then◌else◌, max,
  Bool-cases, inl, inr, not, filter_by,
}
use cwipc.Common.Int.{pos}
use cwipc.Point.{PclPoint}
use cwipc.Filters.{has_tile}
use cwipc.Filters.Outliers.{find_tiles, has}
use cwipc.Filters.Outliers.PerTile.{tile_points, all_tiles}

abbrev pub count : ℕ → List ℕ → ℕ
count t [] = 0
count t (x ∷ xs) = (if x == t then 1 else 0) + count t xs

-- 1 if a point has this tile number, and else 0.
abbrev pub occurs : ℕ → List PclPoint → ℕ
occurs t [] = 0
occurs t (pt ∷ src) = if pt.a == t then 1 else occurs t src

count-append : (t : ℕ) (xs ys : List ℕ) → count t (xs ++ ys) ≡ count t xs + count t ys
count-append t [] ys = omega arith
count-append t (x ∷ xs) ys = omega (arith, count-append t xs ys)

has-count :
    (xs : List ℕ) (t : ℕ) → (has xs t ≡ false → count t xs ≡ 0) × (has xs t ≡ true → 1 ≤ count t xs)
unfolding has
has-count [] t = ground arith
has-count (x ∷ xs) t = ground (arith, has-count xs t)

occurs-le : (t : ℕ) (src : List PclPoint) → occurs t src ≤ 1
occurs-le t [] = omega arith
occurs-le t (pt ∷ src) = ground (arith, occurs-le t src)

count-find_tiles :
    (t : ℕ) (src : List PclPoint) (tiles : List ℕ)
    → count t tiles ≤ 1
    → count t (find_tiles src tiles) ≡ max (count t tiles) (occurs t src)
unfolding find_tiles
count-find_tiles t [] tiles h = omega arith
count-find_tiles t (pt ∷ src) tiles h = elim (Bool-cases (has tiles pt.a)) [
  | inl old ↦
      rw old (ground (arith, has-count tiles pt.a, occurs-le t src, count-find_tiles t src tiles h))
  | inr new ↦ rw new (
      ground (
        arith,
        has-count tiles pt.a,
        occurs-le t src,
        count-append t tiles (pt.a ∷ []),
        count-find_tiles t src (tiles ++ pt.a ∷ []),
      ))
]

-- Each tile number of the cloud is found once, and no other number.
pub count-find_tiles_nil :
    (t : ℕ) (src : List PclPoint) → count t (find_tiles src []) ≡ occurs t src
count-find_tiles_nil t src = omega (arith, count-find_tiles t src [] (omega arith))

-- In how many of the selected tiles a point is.
abbrev pub selected : List ℕ → PclPoint → ℕ
selected [] pt = 0
selected (t ∷ ts) pt = (if has_tile (pos t) pt then 1 else 0) + selected ts pt

pub selected-count :
    (ts : List ℕ) (pt : PclPoint)
    → selected ts pt ≡ count 0 ts + (if pt.a == 0 then 0 else count pt.a ts)
selected-count [] pt = ground arith
selected-count (t ∷ ts) pt = ground (arith, selected-count ts pt)

abbrev pub Covers : List ℕ → List PclPoint → Type 0
Covers ts = All λ (pt : PclPoint). count pt.a ts ≡ 1

all_tiles-nil : (ts : List ℕ) → all_tiles (tile_points []) ts ≡ []
all_tiles-nil [] = refl
all_tiles-nil (t ∷ ts) = all_tiles-nil ts

all_tiles-other :
    (ts : List ℕ) (pt : PclPoint) (src : List PclPoint)
    → selected ts pt ≡ 0
    → all_tiles (tile_points (pt ∷ src)) ts ≡ all_tiles (tile_points src) ts
all_tiles-other [] pt src h = refl
all_tiles-other (t ∷ ts) pt src h = ground (arith, all_tiles-other ts pt src)

all_tiles-insert :
    (ts : List ℕ) (pt : PclPoint) (src : List PclPoint)
    → selected ts pt ≡ 1
    → Perm (all_tiles (tile_points (pt ∷ src)) ts) (pt ∷ all_tiles (tile_points src) ts)
all_tiles-insert [] pt src h = absurd (omega arith)
all_tiles-insert (t ∷ ts) pt src h = elim (Bool-cases (has_tile (pos t) pt)) [
  | inl here ↦
      let others : selected ts pt ≡ 0 = ground arith in
      rw (here, all_tiles-other ts pt src others) (Perm.refl _)
  | inr there ↦
      let later : selected ts pt ≡ 1 = ground arith in
      rw there (
        Perm.trans (Perm.append (Perm.refl (tile_points src t)) (all_tiles-insert ts pt src later))
          (perm_middle (tile_points src t) (all_tiles (tile_points src) ts)))
]

-- If each point is in just one of the selected tiles, the tiles hold all points, in another order.
pub all_tiles-perm :
    (ts : List ℕ) (src : List PclPoint)
    → All (λ (pt : PclPoint). selected ts pt ≡ 1) src
    → Perm (all_tiles (tile_points src) ts) src
all_tiles-perm ts [] h = rw (all_tiles-nil ts) (Perm.refl [])
all_tiles-perm ts (pt ∷ src) (h, hs) =
    Perm.trans (all_tiles-insert ts pt src h) (Perm.cons pt (all_tiles-perm ts src hs))

-- The same for a point in two of the selected tiles.
all_tiles-insert_twice :
    (ts : List ℕ) (pt : PclPoint) (src : List PclPoint)
    → selected ts pt ≡ 2
    → Perm (all_tiles (tile_points (pt ∷ src)) ts) (pt ∷ pt ∷ all_tiles (tile_points src) ts)
all_tiles-insert_twice [] pt src h = absurd (omega arith)
all_tiles-insert_twice (t ∷ ts) pt src h = elim (Bool-cases (has_tile (pos t) pt)) [
  | inl here ↦
      let later : selected ts pt ≡ 1 = ground arith in
      rw here (
        Perm.cons pt (
          Perm.trans
            (Perm.append (Perm.refl (tile_points src t)) (all_tiles-insert ts pt src later))
            (perm_middle (tile_points src t) (all_tiles (tile_points src) ts))))
  | inr there ↦
      let later : selected ts pt ≡ 2 = ground arith in
      let rest : List PclPoint = all_tiles (tile_points src) ts in
      rw there (
        Perm.trans
          (Perm.append (Perm.refl (tile_points src t)) (all_tiles-insert_twice ts pt src later))
          (Perm.trans (perm_middle (tile_points src t) (pt ∷ rest))
            (Perm.cons pt (perm_middle (tile_points src t) rest))))
]

-- The points with a tile number other than 0.
abbrev pub tiled : List PclPoint → List PclPoint
tiled = filter_by (λ pt. not (pt.a == 0))

-- If number 0 is one of the selected tiles, which holds every point, the points with another number are
-- in a second tile.
pub all_tiles-perm_twice :
    (ts : List ℕ) (src : List PclPoint)
    → count 0 ts ≡ 1
    → Covers ts src
    → Perm (all_tiles (tile_points src) ts) (src ++ tiled src)
all_tiles-perm_twice ts [] one c = rw (all_tiles-nil ts) (Perm.refl [])
all_tiles-perm_twice ts (pt ∷ src) one (n, ns) =
    let rest = all_tiles-perm_twice ts src one ns in
    elim (Bool-cases (pt.a == 0)) [
      | inl zero_tile ↦
          let in_one : selected ts pt ≡ 1 = ground (arith, selected-count ts pt) in
          rw zero_tile (Perm.trans (all_tiles-insert ts pt src in_one) (Perm.cons pt rest))
      | inr other_tile ↦
          let in_two : selected ts pt ≡ 2 = ground (arith, selected-count ts pt) in
          rw other_tile (
            Perm.trans (all_tiles-insert_twice ts pt src in_two) (
              Perm.cons pt
                (Perm.trans (Perm.cons pt rest) (Perm.symm (perm_middle src (tiled src))))))
    ]
