-- ===== src/CloudCodec/Snake.antt =====
-- `SnakeGridMapping` (cwipc_codec/cloud_codec_v2/include/pcl/cloud_codec_v2/snake_grid_mapping.h): the
-- colours of the voxels in an image, block by block of 8 columns and 8 rows, the lines of a block in
-- turn to the right and to the left. The sizes are below 2 ^ 31, and an image has at least 8 columns
-- (the code divides by zero for fewer). A byte outside a vector reads as 0, and a write there is lost.
pub mod Ordinal
mod Copies
pub mod RoundTrip
use cwipc.Common.{
  ℕ, zero, suc, ◌+◌, ◌*◌, ◌/◌, ◌%◌, Bool, true, false, not, ◌||◌, List, get_or, set, replicate,
  ◌==◌, if◌then◌else◌, for_range,
}
use cwipc.Common.Int.{ℤ, pos, negsuc, pos_part}

-- After each update `w_pos` is not negative.
pub record SnakeGridIterator : Type 0 where
  pub w_pos : ℕ
  pub h_pos : ℕ
  pub macro_block_pos_w : ℕ
  pub macro_block_pos_h : ℕ
  pub to_right : Bool

abbrev pub reset : SnakeGridIterator
reset = record {
  w_pos = 0;
  h_pos = 0;
  macro_block_pos_w = 0;
  macro_block_pos_h = 0;
  to_right = true;
}

-- `to_right ? w_pos++ : w_pos--`.
abbrev pub moved : Bool → ℕ → ℤ
moved true w = pos (suc w)
moved false zero = negsuc 0
moved false (suc w) = pos w

-- `((w_pos % 8 == 0) && to_right) || w_pos < 0`.
abbrev pub leaves_line : Bool → ℤ → Bool
leaves_line true (pos w) = w % 8 == 0
leaves_line false (pos w) = false
leaves_line _ (negsuc w) = true

-- The dimensions `dim_w_` and `dim_h_`.
module _ (dim_w dim_h : ℕ) where
  unfoldable pub next_block : SnakeGridIterator → SnakeGridIterator
  next_block it =
      let w : ℕ = suc it.macro_block_pos_w in
      if w % (dim_w / 8) == 0
      then record it {
        h_pos = 0;
        macro_block_pos_w = 0;
        macro_block_pos_h = suc it.macro_block_pos_h;
      }
      else record it { h_pos = 0; macro_block_pos_w = w }

  unfoldable pub next_line : SnakeGridIterator → SnakeGridIterator
  next_line it =
      let h : ℕ = suc it.h_pos in
      let right : Bool = not it.to_right in
      let turned : SnakeGridIterator = record it {
        h_pos = h;
        to_right = right;
        w_pos = if right then 0 else 7;
      } in
      if h % 8 == 0 || h + it.macro_block_pos_h * 8 == dim_h then next_block turned else turned

  unfoldable pub update_pos : SnakeGridIterator → SnakeGridIterator
  update_pos it =
      let w = moved it.to_right it.w_pos in
      if leaves_line it.to_right w then next_line it else record it { w_pos = pos_part w }

  -- What `operator++` returns.
  unfoldable pub position : SnakeGridIterator → ℕ
  position it = it.w_pos + (it.h_pos + 8 * it.macro_block_pos_h) * dim_w + it.macro_block_pos_w * 8

-- The three bytes of pixel `from` of one image become those of pixel `to` of another.
unfoldable pub copy_pixel : ℕ → ℕ → List ℕ → List ℕ → List ℕ
copy_pixel from to input result =
    set
      (set (set result (3 * to) (get_or input (3 * from) 0)) (3 * to + 1)
        (get_or input (3 * from + 1) 0))
      (3 * to + 2) (get_or input (3 * from + 2) 0)

-- `doMapping` of a new mapping.
unfoldable pub do_mapping : ℕ → ℕ → List ℕ → List ℕ
do_mapping dim_w dim_h input =
    let (it, result) =
      for_range (dim_w * dim_h) 0
        (λ i (it, result).
          (update_pos dim_w dim_h it, copy_pixel i (position dim_w dim_h it) input result))
        (reset, replicate (3 * dim_w * dim_h) 0) in
    result

-- `undoSnakeGridMapping` of a new mapping.
unfoldable pub undo_mapping : ℕ → ℕ → List ℕ → List ℕ
undo_mapping dim_w dim_h input =
    let (it, result) =
      for_range (dim_w * dim_h) 0
        (λ i (it, result).
          (update_pos dim_w dim_h it, copy_pixel (position dim_w dim_h it) i input result))
        (reset, replicate (3 * dim_w * dim_h) 0) in
    result
