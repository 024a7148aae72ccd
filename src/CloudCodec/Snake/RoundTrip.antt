-- ===== src/CloudCodec/Snake/RoundTrip.antt =====
-- `undoSnakeGridMapping` takes back what `doMapping` did (snake_grid_mapping.h), and each byte alone.
use native.Mathlib.Nat.{mul_assoc}
use cwipc.Common.{
  ℕ, suc, ◌+◌, ◌*◌, ◌/◌, ◌%◌, ◌<◌, ◌≡◌, refl, sym, ap, ap₂, ◌∙◌, List, [], ◌∷◌, arith, get_or,
  length, replicate, for_range,
}
use cwipc.CloudCodec.Snake.{SnakeGridIterator, reset, position, do_mapping, undo_mapping}
use cwipc.CloudCodec.Snake.Ordinal.{after, ordinal, ordinal-position}
use cwipc.CloudCodec.Snake.Copies.{byte, body, IsCopied, IsCopied-at_end}

module _ (k dim_h : ℕ) (hk : 0 < k) where
  abbrev n : ℕ
  n = 8 * k * dim_h

  abbrev visited : ℕ → ℕ
  visited i = position (8 * k) dim_h (after (8 * k) dim_h i)

  visited_distinct : (i j : ℕ) → i < n → j < n → visited i ≡ visited j → i ≡ j
  visited_distinct i j hi hj e =
      sym (ordinal-position k dim_h i hk hi).1
      ∙ ap (ordinal (8 * k) dim_h) e
      ∙ (ordinal-position k dim_h j hk hj).1

  abbrev at_position : ℕ → SnakeGridIterator → ℕ
  at_position i it = position (8 * k) dim_h it

  abbrev at_index : ℕ → SnakeGridIterator → ℕ
  at_index i it = i

  module _ (input : List ℕ) where
    -- A loop over all pixels, which copies `from` to `to`.
    abbrev copies : (ℕ → SnakeGridIterator → ℕ) → (ℕ → SnakeGridIterator → ℕ) → ℕ → List ℕ
    copies from to size =
        (for_range n 0 (body (8 * k) dim_h n from to input) (reset, replicate size 0)).1

    do_mapping_lem : do_mapping (8 * k) dim_h input ≡ copies at_index at_position (3 * n)
    unfolding do_mapping
    do_mapping_lem = ap (copies at_index at_position) (mul_assoc 3 (8 * k) dim_h)

    undo_mapping_lem : undo_mapping (8 * k) dim_h input ≡ copies at_position at_index (3 * n)
    unfolding undo_mapping
    undo_mapping_lem = ap (copies at_position at_index) (mul_assoc 3 (8 * k) dim_h)

    do_copies : IsCopied (8 * k) dim_h n at_index at_position input n (
        for_range n 0
          (body (8 * k) dim_h n at_index at_position input)
          (reset, replicate (3 * n) 0))
    do_copies =
        IsCopied-at_end (8 * k) dim_h n _ _ input (λ i h. (ordinal-position k dim_h i hk h).0)
          visited_distinct

    undo_copies : IsCopied (8 * k) dim_h n at_position at_index input n (
        for_range n 0
          (body (8 * k) dim_h n at_position at_index input)
          (reset, replicate (3 * n) 0))
    undo_copies = IsCopied-at_end (8 * k) dim_h n _ _ input (λ i h. h) (λ i j hi hj e. e)

    pub length-do_mapping : length (do_mapping (8 * k) dim_h input) ≡ 3 * n
    length-do_mapping = rw do_mapping_lem do_copies.size_kept

    pub length-undo_mapping : length (undo_mapping (8 * k) dim_h input) ≡ 3 * n
    length-undo_mapping = rw undo_mapping_lem undo_copies.size_kept

    byte-do_mapping :
        (i c : ℕ)
        → i < n
        → c < 3
        → byte (do_mapping (8 * k) dim_h input) (visited i) c ≡ byte input i c
    byte-do_mapping i c h hc = rw do_mapping_lem (do_copies.copied i c h hc)

    byte-undo_mapping :
        (i c : ℕ)
        → i < n
        → c < 3
        → byte (undo_mapping (8 * k) dim_h input) i c ≡ byte input (visited i) c
    byte-undo_mapping i c h hc = rw undo_mapping_lem (undo_copies.copied i c h hc)

  -- Undoing the mapping of an image that differs from the mapped one byte by byte as `R` says, gives a
  -- vector that differs so from the first one.
  module _ {κ} (R : ℕ → ℕ → Type κ) (input image : List ℕ) where
    pub undo_mapping-relates :
        ((q : ℕ) → q < 3 * n → R (get_or (do_mapping (8 * k) dim_h input) q 0) (get_or image q 0))
        → (q : ℕ) → q < 3 * n
        → R (get_or input q 0) (get_or (undo_mapping (8 * k) dim_h image) q 0)
    undo_mapping-relates close q h =
        let i : ℕ = q / 3 in
        let c : ℕ = q % 3 in
        let below : i < n = omega arith in
        let there =
          close (3 * visited i + c) (omega (arith, (ordinal-position k dim_h i hk below).0)) in
        let split : q ≡ 3 * i + c = omega arith in
        rw (split, byte-undo_mapping image i c below (omega arith))
          (rw (← byte-do_mapping input i c below (omega arith)) there)

ext :
    (xs ys : List ℕ)
    → length xs ≡ length ys
    → ((q : ℕ) → q < length xs → get_or xs q 0 ≡ get_or ys q 0)
    → xs ≡ ys
ext [] [] e h = refl
ext [] (y ∷ ys) e h = absurd (omega arith)
ext (x ∷ xs) [] e h = absurd (omega arith)
ext (x ∷ xs) (y ∷ ys) e h =
    ap₂ ◌∷◌ (h 0 (omega arith)) (ext xs ys (omega arith) (λ q lt. h (suc q) (omega arith)))

-- Of an image whose width is a multiple of 8 and not 0, undoing the mapping of a vector of three
-- bytes for each pixel gives the vector back.
pub undo_mapping-do_mapping :
    (k dim_h : ℕ) (input : List ℕ)
    → 0 < k
    → length input ≡ 3 * (8 * k * dim_h)
    → undo_mapping (8 * k) dim_h (do_mapping (8 * k) dim_h input) ≡ input
undo_mapping-do_mapping k dim_h input hk size = sym (
    ext _ _ (size ∙ sym (length-undo_mapping k dim_h hk _))
      (λ q h. undo_mapping-relates k dim_h hk ◌≡◌ input _ (λ q h. refl) q (omega arith)))
