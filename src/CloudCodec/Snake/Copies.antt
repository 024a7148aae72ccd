-- ===== src/CloudCodec/Snake/Copies.antt =====
-- The loops of snake_grid_mapping.h that copy the pixels, byte by byte.
use cwipc.Common.{
  ℕ, zero, suc, ◌+◌, ◌*◌, ◌<◌, ◌≡◌, refl, ◌∙◌, List, [], ◌∷◌, arith, get_or, set, length,
  length-set, length-replicate, replicate, for_range, for_range-keeps, ◌==◌, if◌then◌else◌,
}
use cwipc.CloudCodec.Snake.{SnakeGridIterator, reset, update_pos, copy_pixel}
use cwipc.CloudCodec.Snake.Ordinal.{after}

-- Byte c of pixel p.
abbrev pub byte : List ℕ → ℕ → ℕ → ℕ
byte bytes p c = get_or bytes (3 * p + c) 0

get_or-set :
    (xs : List ℕ) (i j v : ℕ)
    → i < length xs
    → get_or (set xs i v) j 0 ≡ (if i == j then v else get_or xs j 0)
get_or-set [] i j v h = absurd (omega arith)
get_or-set (x ∷ xs) zero zero v h = ground arith
get_or-set (x ∷ xs) zero (suc j) v h = ground arith
get_or-set (x ∷ xs) (suc i) zero v h = ground arith
get_or-set (x ∷ xs) (suc i) (suc j) v h = ground (arith, get_or-set xs i j v (omega arith))

length-copy_pixel :
    (from to : ℕ) (input result : List ℕ) → length (copy_pixel from to input result) ≡ length result
unfolding copy_pixel
length-copy_pixel from to input result =
    length-set _ (3 * to + 2) (get_or input (3 * from + 2) 0)
    ∙ length-set _ (3 * to + 1) (get_or input (3 * from + 1) 0)
    ∙ length-set result (3 * to) (get_or input (3 * from) 0)

-- The bytes after three writes, given in the order of the writes.
get_or-set₃ :
    (xs : List ℕ) (i u v w j : ℕ)
    → i + 2 < length xs
    → get_or (set (set (set xs i u) (i + 1) v) (i + 2) w) j 0
      ≡ (if i + 2 == j then w else if i + 1 == j then v else if i == j then u else get_or xs j 0)
get_or-set₃ xs i u v w j h =
    let first = length-set xs i u in
    let second = length-set (set xs i u) (i + 1) v in
    rw
      (
        get_or-set (set (set xs i u) (i + 1) v) (i + 2) j w (omega arith),
        get_or-set (set xs i u) (i + 1) j v (omega arith),
        get_or-set xs i j u (omega arith),
      )
      refl

byte-copy_pixel :
    (from to : ℕ) (input result : List ℕ) (p c : ℕ)
    → 3 * to + 2 < length result
    → c < 3
    → byte (copy_pixel from to input result) p c
      ≡ (if to == p then byte input from c else byte result p c)
unfolding copy_pixel
byte-copy_pixel from to input result p c h hc =
    let written =
      get_or-set₃ result (3 * to) (get_or input (3 * from) 0) (get_or input (3 * from + 1) 0)
        (get_or input (3 * from + 2) 0) (3 * p + c) h in
    written ∙ chosen c hc
  where
    chosen :
        (c : ℕ)
        → c < 3
        → (if 3 * to + 2 == 3 * p + c
            then get_or input (3 * from + 2) 0
            else if 3 * to + 1 == 3 * p + c
            then get_or input (3 * from + 1) 0
            else if 3 * to == 3 * p + c
            then get_or input (3 * from) 0
            else byte result p c)
          ≡ (if to == p then byte input from c else byte result p c)
    chosen zero hc = let e : 3 * from + 0 ≡ 3 * from = omega arith in ground arith
    chosen (suc zero) hc = ground arith
    chosen (suc (suc zero)) hc = ground arith
    chosen (suc (suc (suc c))) hc = absurd (omega arith)

-- A loop that copies pixel `from` to pixel `to` in each round, while the iterator goes on.
module _ (dim_w dim_h n : ℕ) (from to : ℕ → SnakeGridIterator → ℕ) (input : List ℕ) where
  abbrev pub body : ℕ → SnakeGridIterator × List ℕ → SnakeGridIterator × List ℕ
  body i (it, result) = (update_pos dim_w dim_h it, copy_pixel (from i it) (to i it) input result)

  pub record IsCopied (i : ℕ) (s : SnakeGridIterator × List ℕ) : Type 0 where
    pub iterator : s.0 ≡ after dim_w dim_h i
    pub size_kept : length s.1 ≡ 3 * n
    pub copied :
        (j c : ℕ)
        → j < i
        → c < 3
        → byte s.1 (to j (after dim_w dim_h j)) c ≡ byte input (from j (after dim_w dim_h j)) c

  module _ (in_range : (i : ℕ) → i < n → to i (after dim_w dim_h i) < n)
      (distinct : (i j : ℕ)
        → i < n
        → j < n
        → to i (after dim_w dim_h i) ≡ to j (after dim_w dim_h j)
        → i ≡ j) where
    IsCopied-more :
        (k : ℕ) (it : SnakeGridIterator) (result : List ℕ)
        → k < n
        → IsCopied k (it, result)
        → IsCopied (suc k) (body k (it, result))
    IsCopied-more k it result lt at = rw at.iterator (record {
      iterator = refl;
      size_kept = length-copy_pixel (from k r) (to k r) input result ∙ at.size_kept;
      copied = λ j c h hc.
          byte-copy_pixel (from k r) (to k r) input result (to j (after dim_w dim_h j)) c
            (omega (arith, in_range k lt, at.size_kept)) hc
          ∙ ground (arith, at.copied j c, distinct k j);
    })
      where
        r : SnakeGridIterator
        r = after dim_w dim_h k

    pub IsCopied-at_end : IsCopied n (for_range n 0 body (reset, replicate (3 * n) 0))
    IsCopied-at_end =
        for_range-keeps IsCopied body n 0 n _ (omega arith)
          (λ k (it, result) lt at. IsCopied-more k it result lt at)
          (record {
            iterator = refl;
            size_kept = length-replicate (3 * n) 0;
            copied = λ j c h hc. absurd (omega arith);
          })
