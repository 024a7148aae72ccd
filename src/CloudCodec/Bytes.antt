-- ===== src/CloudCodec/Bytes.antt =====
-- Vectors of bytes that are compared position by position.
use cwipc.Common.{
  ℕ, zero, suc, ◌-◌, ◌<◌, ◌≤◌, ◌≡◌, refl, List, [], ◌∷◌, ◌++◌, length, length-append, get_or, arith,
  inl, inr, Bool-cases, ltb,
}

pub get_or-append_left :
    (xs ys : List ℕ) (q : ℕ) → q < length xs → get_or (xs ++ ys) q 0 ≡ get_or xs q 0
get_or-append_left [] ys q h = absurd (omega arith)
get_or-append_left (x ∷ xs) ys zero h = refl
get_or-append_left (x ∷ xs) ys (suc q) h = get_or-append_left xs ys q (omega arith)

pub get_or-append_right :
    (xs ys : List ℕ) (q : ℕ) → length xs ≤ q → get_or (xs ++ ys) q 0 ≡ get_or ys (q - length xs) 0
get_or-append_right [] ys q h = let e : q - 0 ≡ q = omega arith in rw e refl
get_or-append_right (x ∷ xs) ys zero h = absurd (omega arith)
get_or-append_right (x ∷ xs) ys (suc q) h =
    let e : suc q - suc (length xs) ≡ q - length xs = omega arith in
    rw e (get_or-append_right xs ys q (omega arith))

module _ {κ} (Near : ℕ → ℕ → Type κ) where
  -- Of the same length, and near at each position.
  pub record AreNear (xs ys : List ℕ) : Type κ where
    pub same_size : length ys ≡ length xs
    pub near : (q : ℕ) → q < length xs → Near (get_or xs q 0) (get_or ys q 0)

  pub AreNear-append :
      (xs ys xs' ys' : List ℕ) → AreNear xs xs' → AreNear ys ys' → AreNear (xs ++ ys) (xs' ++ ys')
  AreNear-append xs ys xs' ys' h k = record {
    same_size = omega (arith, h.same_size, k.same_size, length-append xs ys, length-append xs' ys');
    near = λ q lt. elim (Bool-cases (ltb q (length xs))) [
      | inl e ↦
          let below : q < length xs = ground arith in
          rw
            (
              get_or-append_left xs ys q below,
              get_or-append_left xs' ys' q (omega (arith, h.same_size)),
            )
            (h.near q below)
      | inr e ↦
          let beyond : length xs ≤ q = ground arith in
          rw
            (
              get_or-append_right xs ys q beyond,
              get_or-append_right xs' ys' q (omega (arith, h.same_size)),
              h.same_size,
            )
            (k.near (q - length xs) (omega (arith, length-append xs ys)))
    ];
  }
