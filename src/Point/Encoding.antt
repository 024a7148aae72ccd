-- ===== src/Point/Encoding.antt =====
-- Points in memory: an array of `struct cwipc_point` is the little-endian bytes of its points.
use cwipc.Common.{ℕ, suc, ◌^◌, ◌<◌, ◌≡◌, refl, List, [], ◌∷◌, ◌++◌, arith, length, All}
use cwipc.Words.{le_bytes, le_value, le_value-le_bytes}
use cwipc.Point.{Point, Fits}

-- What the byte at each place of a point is.
unfoldable pub encode_point : Point → List ℕ
unfolding le_bytes
encode_point p =
    le_bytes 4 p.x ++ (le_bytes 4 p.y ++ (le_bytes 4 p.z ++ p.r ∷ p.g ∷ p.b ∷ p.tile ∷ []))

unfoldable pub encode_points : List Point → List ℕ
unfolding encode_point
encode_points [] = []
encode_points (p ∷ ps) = encode_point p ++ encode_points ps

-- The first n points of an array at these bytes; the array ends early where the bytes do.
unfoldable pub decode_points : ℕ → List ℕ → List Point
unfolding le_value
decode_points (suc n)
      (x₀ ∷ x₁ ∷ x₂ ∷ x₃ ∷ y₀ ∷ y₁ ∷ y₂ ∷ y₃ ∷ z₀ ∷ z₁ ∷ z₂ ∷ z₃ ∷ r ∷ g ∷ b ∷ t ∷ bs) =
    record {
      x = le_value (x₀ ∷ x₁ ∷ x₂ ∷ x₃ ∷ []);
      y = le_value (y₀ ∷ y₁ ∷ y₂ ∷ y₃ ∷ []);
      z = le_value (z₀ ∷ z₁ ∷ z₂ ∷ z₃ ∷ []);
      r = r;
      g = g;
      b = b;
      tile = t;
    }
    ∷ decode_points n bs
decode_points _ _ = []

word_bytes : (v : ℕ) → v < 2 ^ 32 → le_value (le_bytes 4 v) ≡ v
word_bytes v h = le_value-le_bytes 4 v h

-- An array of points is read back as it was written, whatever follows it in memory.
pub decode_points-encode_points :
    (ps : List Point) (rest : List ℕ)
    → All Fits ps
    → decode_points (length ps) (encode_points ps ++ rest) ≡ ps
unfolding decode_points encode_points
decode_points-encode_points [] rest h = refl
decode_points-encode_points (p ∷ ps) rest (h, hs) = ground (
  arith,
  word_bytes p.x h.x_lt,
  word_bytes p.y h.y_lt,
  word_bytes p.z h.z_lt,
  decode_points-encode_points ps rest hs,
)
