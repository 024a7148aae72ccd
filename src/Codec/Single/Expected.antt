-- ===== src/Codec/Single/Expected.antt =====
-- What `cwipc_encoder_impl::feed` (cwipc_codec/src/cwipc_codec.cpp) has to hand to the codec: the points and
-- the settings, said without the functions of the code.
use cwipc.Common.{
  ℕ, zero, suc, ◌≡◌, ◌∙◌, refl, ap, arith, Bool, true, false, Bool-cases, inl, inr, Option-cases,
  none, some, List, [], ◌∷◌, map, filter_by, ◌==◌, if◌then◌else◌,
}
use cwipc.Common.Int.{ℤ, pos, negsuc}
use cwipc.Float32.{Float32, lt_f}
use cwipc.Point.{Point, PclPoint, to_pcl}
use cwipc.Filters.{has_tile}
use cwipc.Codec.{Codec, Coder, Encoder}
use cwipc.Codec.Single.{with_coder, alloc_encoder, points_to_encode, coarsen}

-- Whether a point of tile `t` is in the tile of an encoder: tile 0 holds all points.
abbrev in_tile : ℤ → ℕ → Bool
in_tile (pos zero) t = true
in_tile (pos (suc n)) t = suc n == t
in_tile (negsuc n) t = false

abbrev pub in_tile_points : ℤ → List Point → List PclPoint
in_tile_points tile ps = map to_pcl (filter_by (λ q. in_tile tile q.tile) ps)

has_tile-in_tile : (tile : ℤ) (q : Point) → has_tile tile (to_pcl q) ≡ in_tile tile q.tile
has_tile-in_tile (pos zero) q = refl
has_tile-in_tile (pos (suc n)) q = ground arith
has_tile-in_tile (negsuc n) q = refl

pub tile_points-in_tile :
    (tile : ℤ) (ps : List Point)
    → map to_pcl (filter_by (λ q. has_tile tile (to_pcl q)) ps) ≡ in_tile_points tile ps
tile_points-in_tile tile [] = refl
tile_points-in_tile tile (q ∷ ps) =
    ap
      (λ b.
        let rest = filter_by (λ q. has_tile tile (to_pcl q)) ps in
        map to_pcl (if b then q ∷ rest else rest))
      (has_tile-in_tile tile q)
    ∙ (elim (Bool-cases (in_tile tile q.tile)) [
      | inl h ↦ rw h (ap (◌∷◌ (to_pcl q)) (tile_points-in_tile tile ps))
      | inr h ↦ rw h (tile_points-in_tile tile ps)
    ])

-- What is encoded of no points: one black point.
abbrev pub or_black : List PclPoint → List PclPoint
or_black [] = record { x = 0; y = 0; z = 0; r = 0; g = 0; b = 0; a = 0 } ∷ []
or_black (pt ∷ pts) = pt ∷ pts

-- The codec's encoder: the old one, or one that has the settings of the parameters and has encoded nothing.
abbrev pub old_or_new : Codec → Encoder → Coder
old_or_new codec e = elim e.m_encoder [
  | some coder ↦ coder
  | none ↦ record {
    octree_resolution = codec.resolution e.m_params.octree_bits;
    jpeg_quality = e.m_params.jpeg_quality;
    macroblock_size = e.m_params.macroblock_size;
    encoded = [];
  }
]

-- The coarser of two resolutions; the first one if they are equal, or where one is NaN.
abbrev coarser_one : Float32 → Float32 → Float32
coarser_one old cellsize = if lt_f old cellsize then cellsize else old

abbrev pub raised : Float32 → Coder → Coder
raised cellsize old = record old { octree_resolution = coarser_one old.octree_resolution cellsize }

pub points_to_encode-or_black : (pts : List PclPoint) → points_to_encode pts ≡ or_black pts
points_to_encode-or_black [] = refl
points_to_encode-or_black (pt ∷ pts) = refl

pub with_coder-old_or_new :
    (codec : Codec) (e : Encoder) → (with_coder codec e).0 ≡ old_or_new codec e
unfolding with_coder alloc_encoder
with_coder-old_or_new codec e = elim (Option-cases e.m_encoder) [
  | inl h ↦ rw h refl
  | inr (coder, h) ↦ rw h refl
]

pub coarsen-raised : (c : Float32) (coder : Coder) → coarsen c coder ≡ raised c coder
coarsen-raised c coder = elim (Bool-cases (lt_f coder.octree_resolution c)) [
  | inl h ↦ rw h refl
  | inr h ↦ rw h refl
]
