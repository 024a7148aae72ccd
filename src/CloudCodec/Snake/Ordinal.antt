-- ===== src/CloudCodec/Snake/Ordinal.antt =====
-- The order in which the iterator of snake_grid_mapping.h visits the pixels.
use native.Mathlib.Nat.{
  mod-eq_of_lt, mod_self, mul-div_right, eq-or-lt_of_le, eq-zero-or-pos, mul-le-mul_right,
  mul-add-div_right, div-eq_of_lt, mul-add-mod_self_right, lt_of_mul-lt-mul_left,
}
use cwipc.Common.{
  ℕ, zero, suc, ◌+◌, ◌-◌, ◌*◌, ◌/◌, ◌%◌, min, ◌≤◌, ◌<◌, ◌≡◌, Bool, true, false, not, ap, sym, refl,
  ◌∙◌, ◌||◌, arith, ◌==◌, if◌then◌else◌, Bool-cases, inl, inr,
}
use cwipc.CloudCodec.Snake.{
  SnakeGridIterator, reset, moved, leaves_line, next_block, next_line, update_pos, position,
}

-- The iterator after so many updates.
abbrev pub after : ℕ → ℕ → ℕ → SnakeGridIterator
after dim_w dim_h zero = reset
after dim_w dim_h (suc i) = update_pos dim_w dim_h (after dim_w dim_h i)

-- The number of lines in the blocks of a row of blocks.
abbrev pub lines : ℕ → ℕ → ℕ
lines dim_h mh = min 8 (dim_h - 8 * mh)

abbrev pub goes_right : ℕ → ℕ → ℕ → ℕ → Bool
goes_right dim_h h mw mh = (h + mw * lines dim_h mh) % 2 == 0

-- How many pixels come before the one at a place: those of the rows of blocks above, of the blocks to the
-- left, of the lines of the block above, and of the line itself.
abbrev pub count_before : ℕ → ℕ → ℕ → ℕ → ℕ → ℕ → ℕ
count_before k dim_h w h mw mh =
    64 * (mh * k)
    + 8 * (mw * lines dim_h mh)
    + 8 * h
    + (if goes_right dim_h h mw mh then w else 7 - w)

-- The same of the number of a pixel in the image.
unfoldable pub ordinal : ℕ → ℕ → ℕ → ℕ
ordinal dim_w dim_h p =
    let row : ℕ = p / dim_w in
    let column : ℕ = p % dim_w in
    count_before (dim_w / 8) dim_h (column % 8) (row % 8) (column / 8) (row / 8)

eight : 0 < 8
eight = omega arith

module _ (k dim_h : ℕ) where
  pub record IsAt (i : ℕ) (it : SnakeGridIterator) : Type 0 where
    pub in_line : it.w_pos < 8
    pub in_block : it.h_pos < 8
    pub in_height : it.h_pos + 8 * it.macro_block_pos_h < dim_h
    pub in_width : it.macro_block_pos_w < k
    pub turned : it.to_right ≡ goes_right dim_h it.h_pos it.macro_block_pos_w it.macro_block_pos_h
    pub counted :
        count_before k dim_h it.w_pos it.h_pos it.macro_block_pos_w it.macro_block_pos_h ≡ i

  reset-IsAt : 0 < k → 0 < dim_h → IsAt 0 reset
  reset-IsAt hk hh = record {
    in_line = omega arith;
    in_block = omega arith;
    in_height = omega arith;
    in_width = hk;
    turned = ground arith;
    counted = ground arith;
  }

  -- The direction turns after each line, and so does the count within the line.
  right_of_next_line :
      (h mw mh : ℕ) → goes_right dim_h (suc h) mw mh ≡ not (goes_right dim_h h mw mh)
  right_of_next_line h mw mh = ground arith

  right_of_next_block :
      (h mw mh : ℕ)
      → suc h ≡ lines dim_h mh
      → goes_right dim_h 0 (suc mw) mh ≡ not (goes_right dim_h h mw mh)
  right_of_next_block h mw mh e =
      let m : suc mw * lines dim_h mh ≡ mw * lines dim_h mh + suc h = omega arith in ground arith

  right_of_next_row :
      (h mw mh : ℕ) → suc h ≡ 8 → lines dim_h mh ≡ 8 → not (goes_right dim_h h mw mh) ≡ true
  right_of_next_row h mw mh e e' =
      let m : mw * lines dim_h mh ≡ 8 * mw = rw e' (omega arith) in ground arith

  -- The iterator after the last pixel of a line, which is the place where the next line starts.
  abbrev turn : SnakeGridIterator → SnakeGridIterator
  turn it = record it {
    h_pos = suc it.h_pos;
    to_right = not it.to_right;
    w_pos = if not it.to_right then 0 else 7;
  }

  module _ (i : ℕ) (it : SnakeGridIterator) (at : IsAt i it) (more : suc i < 8 * k * dim_h)
      (end : leaves_line it.to_right (moved it.to_right it.w_pos) ≡ true) where
    open it use {w_pos as w, h_pos as h, macro_block_pos_w as mw, macro_block_pos_h as mh}

    start_count :
        (if not it.to_right
          then (if not it.to_right then 0 else 7)
          else 7 - (if not it.to_right then 0 else 7))
        ≡ 0
    start_count = ground arith

    line_count : (if it.to_right then w else 7 - w) ≡ 7
    line_count = ground arith

    before_line : 64 * (mh * k) + 8 * (mw * lines dim_h mh) + 8 * h + 7 ≡ i
    before_line = ground (arith, at.counted, at.turned, line_count)

    turn-IsAt : suc h < lines dim_h mh → IsAt (suc i) (turn it)
    turn-IsAt more_lines = record {
      in_line = ground arith;
      in_block = omega arith;
      in_height = omega arith;
      in_width = at.in_width;
      turned = ap not at.turned ∙ sym (right_of_next_line h mw mh);
      counted =
          rw (right_of_next_line h mw mh, ← at.turned, start_count) (omega (arith, before_line));
    }

    -- Only the last row of blocks may have fewer lines.
    full_lines : suc mw ≡ k → suc h ≡ lines dim_h mh → lines dim_h mh ≡ 8
    full_lines e last =
        let row : suc mw * lines dim_h mh ≡ k * lines dim_h mh = ap (λ n. n * lines dim_h mh) e in
        let all : k * (8 * mh + lines dim_h mh) < k * dim_h = omega (arith, before_line) in
        let short : 8 * mh + lines dim_h mh < dim_h = lt_of_mul-lt-mul_left k all in omega arith

    next_row-IsAt :
        suc mw ≡ k → suc h ≡ lines dim_h mh → IsAt (suc i) (next_block (8 * k) dim_h (turn it))
    unfolding next_block
    next_row-IsAt e last =
        let test : (suc mw % (8 * k / 8) == 0) ≡ true =
          rw (e, mul-div_right k eight, mod_self k) refl in
        let full : lines dim_h mh ≡ 8 = full_lines e last in
        let first : not it.to_right ≡ true =
          ap not at.turned ∙ right_of_next_row h mw mh (last ∙ full) full in
        let row : suc mw * lines dim_h mh ≡ k * 8 = rw (e, full) refl in
        let all : k * (8 * suc mh) < k * dim_h = omega (arith, before_line) in
        let below : 8 * suc mh < dim_h = lt_of_mul-lt-mul_left k all in
        rw (test, first)
          (record {
            in_line = omega arith;
            in_block = omega arith;
            in_height = omega arith;
            in_width = omega arith;
            turned = ground arith;
            counted = ground (arith, before_line);
          })

    next_block-IsAt :
        suc mw < k → suc h ≡ lines dim_h mh → IsAt (suc i) (next_block (8 * k) dim_h (turn it))
    unfolding next_block
    next_block-IsAt more_blocks last =
        let test : (suc mw % (8 * k / 8) == 0) ≡ false =
          rw (mul-div_right k eight, mod-eq_of_lt more_blocks) (ground arith) in
        rw test (record {
          in_line = ground arith;
          in_block = omega arith;
          in_height = omega arith;
          in_width = more_blocks;
          turned = ap not at.turned ∙ sym (right_of_next_block h mw mh last);
          counted =
              rw (right_of_next_block h mw mh last, ← at.turned, start_count)
                (omega (arith, before_line, last));
        })

    leave-IsAt : suc h ≡ lines dim_h mh → IsAt (suc i) (next_block (8 * k) dim_h (turn it))
    leave-IsAt last = elim (eq-or-lt_of_le at.in_width) [
      | inl e ↦ next_row-IsAt e last
      | inr more_blocks ↦ next_block-IsAt more_blocks last
    ]

  pub update_pos-IsAt :
      (i : ℕ) (it : SnakeGridIterator)
      → IsAt i it
      → suc i < 8 * k * dim_h
      → IsAt (suc i) (update_pos (8 * k) dim_h it)
  unfolding update_pos next_line
  update_pos-IsAt i it at more =
      elim (Bool-cases (leaves_line it.to_right (moved it.to_right it.w_pos))) [
        | inl e ↦
            elim (Bool-cases
              (suc it.h_pos % 8 == 0 || suc it.h_pos + it.macro_block_pos_h * 8 == dim_h)) [
                | inl last ↦ rw (e, last) (leave-IsAt i it at more e (ground arith))
                | inr more_lines ↦ rw (e, more_lines) (turn-IsAt i it at more e (ground arith))
              ]
        | inr e ↦ record {
          in_line = ground arith;
          in_block = ground arith;
          in_height = ground arith;
          in_width = ground arith;
          turned = ground arith;
          counted = ground arith;
        }
      ]

  after-IsAt : (i : ℕ) → 0 < k → i < 8 * k * dim_h → IsAt i (after (8 * k) dim_h i)
  after-IsAt zero hk h = elim (eq-zero-or-pos dim_h) [
    | inl e ↦ let none_inside : 0 < 8 * k * 0 = rw (← e) h in absurd (omega arith)
    | inr hh ↦ reset-IsAt hk hh
  ]
  after-IsAt (suc i) hk h = update_pos-IsAt i _ (after-IsAt i hk (omega arith)) h

  -- The place of a pixel is read off its number.
  module _ (i : ℕ) (it : SnakeGridIterator) (at : IsAt i it) where
    open it use {w_pos as w, h_pos as h, macro_block_pos_w as mw, macro_block_pos_h as mh}

    column : ℕ
    column = 8 * mw + w

    row : ℕ
    row = 8 * mh + h

    column_inside : column < 8 * k
    unfolding column
    column_inside = omega arith

    position_lem : position (8 * k) dim_h it ≡ row * (8 * k) + column
    unfolding position row column
    position_lem = omega arith

    position-lt : position (8 * k) dim_h it < 8 * k * dim_h
    unfolding row column
    position-lt =
        let below : suc row * (8 * k) ≤ dim_h * (8 * k) = mul-le-mul_right (8 * k) (omega arith) in
        omega (arith, position_lem, column_inside)

    row_of : position (8 * k) dim_h it / (8 * k) ≡ row
    unfolding column
    row_of =
        rw
          (
            position_lem,
            mul-add-div_right {m = 8 * k} (omega arith) row column,
            div-eq_of_lt column_inside,
          )
          (omega arith)

    column_of : position (8 * k) dim_h it % (8 * k) ≡ column
    column_of =
        rw (position_lem, mul-add-mod_self_right row (8 * k) column) (mod-eq_of_lt column_inside)

    ordinal-position_at : ordinal (8 * k) dim_h (position (8 * k) dim_h it) ≡ i
    unfolding ordinal row column
    ordinal-position_at =
        let width : 8 * k / 8 ≡ k = omega arith in
        let w' : (8 * mw + w) % 8 ≡ w = omega arith in
        let mw' : (8 * mw + w) / 8 ≡ mw = omega arith in
        let h' : (8 * mh + h) % 8 ≡ h = omega arith in
        let mh' : (8 * mh + h) / 8 ≡ mh = omega arith in
        rw (row_of, column_of, width, w', mw', h', mh') at.counted

-- Of an image whose width is a multiple of 8 and not 0, the iterator visits each pixel once: its
-- first width times height positions lie in the image, and from the position `ordinal` gives back
-- the number of the visit.
pub ordinal-position :
    (k dim_h i : ℕ)
    → 0 < k
    → i < 8 * k * dim_h
    → (position (8 * k) dim_h (after (8 * k) dim_h i) < 8 * k * dim_h)
      × (ordinal (8 * k) dim_h (position (8 * k) dim_h (after (8 * k) dim_h i)) ≡ i)
ordinal-position k dim_h i hk h =
    let at = after-IsAt k dim_h i hk h in
    (position-lt k dim_h i _ at, ordinal-position_at k dim_h i _ at)
