-- ===== src/CloudCodec/Samples.antt =====
-- The parts of the cloud codec on concrete data.
use mathlib.Core.List.{flatten, append-nil}
use cwipc.Common.{
  ℕ, zero, suc, ◌*◌, ◌<◌, ◌≡◌, refl, sym, ap, ap₂, ◌∙◌, Bool, true, false, some, List, [], ◌∷◌,
  ◌++◌, length, length-append, take, drop, All, arith, get_or, for_range,
}
use cwipc.Common.Int.{pos}
use cwipc.Words.{le_bytes, le_value, length-le_bytes, le_value-le_bytes, take_front, drop_front}
use cwipc.World.{Outcome, done, undefined}
use cwipc.CloudCodec.Snake.{
  position, do_mapping, undo_mapping, update_pos, next_line, next_block, copy_pixel,
}
use cwipc.CloudCodec.Snake.Ordinal.{after, ordinal, ordinal-position}
use cwipc.CloudCodec.Snake.RoundTrip.{undo_mapping-do_mapping}
use cwipc.CloudCodec.JpegIo.{write_jpeg, input_format, lines_of, Libjpeg, rgb, IsLossy}
use cwipc.CloudCodec.ColorJpeg.{
  ColorCodingJpeg, new_coder, original, snake, lines, get_average_data_vector, encode_jpeg_snake,
  padding,
}
use cwipc.CloudCodec.ColorJpeg.RoundTrip.{Decoded, decoding-average, average_of_few}
use cwipc.CloudCodec.Frame.{BaseCodec, EntropyCoder, Codec, flag_byte, read_flag, sync_from}
use cwipc.CloudCodec.Frame.Sync.{after_first_or_unread, sync_from-after_first}
use cwipc.CloudCodec.Frame.Header.{read_flag-flag_byte}
use cwipc.CloudCodec.Frame.RoundTrip.{EntropyReadsBack}
use cwipc.CloudCodec.Frame.Whole.{Restored, decode_frame-encode_frame}

abbrev count_from : ℕ → ℕ → List ℕ
count_from first zero = []
count_from first (suc n) = first ∷ count_from (suc first) n

-- An image of 8 columns and 2 lines.
abbrev small_image : List ℕ
small_image = count_from 0 48

undo_mapping-do_mapping_example :
    undo_mapping (8 * 1) 2 (do_mapping (8 * 1) 2 small_image) ≡ small_image
undo_mapping-do_mapping_example = undo_mapping-do_mapping 1 2 small_image (omega arith) refl

-- The second line is visited from right to left.
ordinal-position_example :
    (position (8 * 1) 3 (after (8 * 1) 3 8) < 8 * 1 * 3)
    × (ordinal (8 * 1) 3 (position (8 * 1) 3 (after (8 * 1) 3 8)) ≡ 8)
ordinal-position_example = ordinal-position 1 3 8 (omega arith) (omega arith)

second_line : position 8 3 (after 8 3 8) ≡ 15
unfolding position update_pos next_line next_block
second_line = refl

-- A library that keeps an image as it is, after its width and height.
abbrev plain_jpeg : Libjpeg
plain_jpeg = record {
  compress = λ space w h quality ls. some (le_bytes 4 w ++ (le_bytes 4 h ++ flatten ls));
  decompress = λ bytes. some (record {
    output_width = le_value (take 4 bytes);
    output_height = le_value (take 4 (drop 4 bytes));
    output_components = 3;
    image_width = le_value (take 4 bytes);
    image_height = le_value (take 4 (drop 4 bytes));
    out_color_space = rgb;
    scan_lines = drop 4 (drop 4 bytes) ∷ [];
    finished = true;
  });
}

length-flatten :
    (n : ℕ) (ls : List (List ℕ)) → All (λ l. length l ≡ n) ls → length (flatten ls) ≡ length ls * n
unfolding flatten
length-flatten n [] h = omega arith
length-flatten n (l ∷ ls) h =
    omega (arith, length-append l (flatten ls), length-flatten n ls h.1, h.0)

plain_jpeg-IsLossy : IsLossy plain_jpeg ◌≡◌
unfolding flatten
plain_jpeg-IsLossy w h quality ls hw w_max hh h_max count sizes =
    let rest = le_bytes 4 h ++ flatten ls in
    let w_read : le_value (take 4 (le_bytes 4 w ++ rest)) ≡ w =
      rw (take_front 4 (le_bytes 4 w) rest (length-le_bytes 4 w))
        (le_value-le_bytes 4 w (omega arith)) in
    let w_rest : drop 4 (le_bytes 4 w ++ rest) ≡ rest =
      drop_front 4 (le_bytes 4 w) rest (length-le_bytes 4 w) in
    let h_read : le_value (take 4 (drop 4 (le_bytes 4 w ++ rest))) ≡ h =
      rw (w_rest, take_front 4 (le_bytes 4 h) (flatten ls) (length-le_bytes 4 h))
        (le_value-le_bytes 4 h (omega arith)) in
    let data_read : drop 4 (drop 4 (le_bytes 4 w ++ rest)) ++ [] ≡ flatten ls =
      append-nil _
      ∙ ap (drop 4) w_rest
      ∙ drop_front 4 (le_bytes 4 h) (flatten ls) (length-le_bytes 4 h) in
    record {
      bytes = le_bytes 4 w ++ rest;
      scan = _;
      compressed = refl;
      some_bytes = omega (arith, length-append (le_bytes 4 w) rest, length-le_bytes 4 w);
      few_bytes = λ one. omega (
        arith,
        length-append (le_bytes 4 w) rest,
        length-append (le_bytes 4 h) (flatten ls),
        length-le_bytes 4 w,
        length-le_bytes 4 h,
        length-flatten (3 * w) ls sizes,
        ap (λ n. n * (3 * w)) (count ∙ one),
      );
      decompressed = refl;
      finished = refl;
      same_width = (w_read, w_read);
      same_height = (h_read, h_read);
      three = refl;
      same_size = ap length data_read;
      near = λ q lt. ap (λ bs. get_or bs q 0) (sym data_read);
    }

abbrev two_colors : ColorCodingJpeg
two_colors = record (new_coder (pos 85) snake) {
  needs_jpeg_encoding_avg = true;
  point_avg_color_data_vector = 10 ∷ 20 ∷ 30 ∷ 40 ∷ 50 ∷ 60 ∷ [];
}

decoding-average_example : Decoded plain_jpeg ◌≡◌ two_colors (new_coder (pos 75) snake)
decoding-average_example =
    decoding-average plain_jpeg ◌≡◌ two_colors (new_coder (pos 75) snake) plain_jpeg-IsLossy
      (λ b. refl) refl refl refl (omega arith) (omega arith) (λ e. cc)

average_of_few_example :
    get_average_data_vector plain_jpeg (record two_colors { mapping_mode = lines }) ≡ undefined
average_of_few_example =
    average_of_few plain_jpeg (record two_colors { mapping_mode = lines }) refl refl (omega arith)
      (omega arith)

sync_from-after_first_example :
    sync_from (60 ∷ 80 ∷ []) 80 0 (7 ∷ 60 ∷ 7 ∷ 60 ∷ [])
    ≡ after_first_or_unread (60 ∷ 80 ∷ []) 80 (7 ∷ 60 ∷ 7 ∷ 60 ∷ [])
sync_from-after_first_example =
    sync_from-after_first 60 (80 ∷ []) 80 (7 ∷ 60 ∷ 7 ∷ 60 ∷ []) (omega arith, tt)

-- A base codec whose members are whether there are colours, and whose header is one byte.
abbrev plain_base : BaseCodec Bool
plain_base = record {
  write_base_header = flag_byte;
  sync_base_header = λ ss. ss;
  read_base_header = read_flag;
  cloud_with_color = λ b. b;
  data_with_color = λ b. b;
}

-- A coder that leaves its numbers as they are.
abbrev plain_coder : EntropyCoder
plain_coder = record {
  encode_char_vector = λ v. v;
  decode_char_vector = λ n ss. (take n ss, drop n ss);
  encode_int_vector = λ v. v;
  decode_int_vector = λ n ss. (take n ss, drop n ss);
}

plain_coder-EntropyReadsBack : EntropyReadsBack plain_coder
plain_coder-EntropyReadsBack = record {
  chars = λ v rest.
      ap₂ (λ a b. (a, b)) (take_front (length v) v rest refl) (drop_front (length v) v rest refl);
  ints = λ v rest.
      ap₂ (λ a b. (a, b)) (take_front (length v) v rest refl) (drop_front (length v) v rest refl);
}

abbrev two_voxels : Codec Bool
two_voxels = record {
  base = true;
  octree_resolution = 0x3f80_0000_0000_0000;
  color_bit_resolution = 8;
  jpeg_quality = 85;
  do_voxel_centroid = false;
  do_connectivity = false;
  create_scalable_bitstream = false;
  color_coding_type = 1;
  macroblock_size = 16;
  do_icp_color_offset = false;
  do_voxel_grid = true;
  binary_tree_data_vector = 3 ∷ 129 ∷ [];
  centroid_diff = [];
  color_average = [];
  jp_color_coder = two_colors;
  point_count_data_vector = [];
  point_diff = [];
  color_diff = [];
  jp_color_diff = [];
}

-- A decoder before its first frame.
abbrev fresh_decoder : Codec Bool
fresh_decoder = record two_voxels {
  base = false;
  octree_resolution = 0;
  color_coding_type = 0;
  do_voxel_grid = false;
  binary_tree_data_vector = [];
  jp_color_coder = new_coder (pos 75) original;
}

abbrev coded_size : Outcome ColorCodingJpeg → ℕ
coded_size undefined = 0
coded_size (done jp) = length jp.point_avg_color_data_vector

two_colors_size : coded_size (get_average_data_vector plain_jpeg two_colors) ≡ 776
unfolding get_average_data_vector encode_jpeg_snake padding write_jpeg input_format lines_of
    le_bytes flatten do_mapping copy_pixel for_range position update_pos next_line next_block
two_colors_size = refl

decode_frame-encode_frame_example :
    Restored plain_base plain_coder plain_jpeg ◌≡◌ two_voxels fresh_decoder 62 0 1234
decode_frame-encode_frame_example =
    decode_frame-encode_frame plain_base plain_coder plain_jpeg ◌≡◌ two_voxels fresh_decoder true 62
      0 1234 plain_coder-EntropyReadsBack
      (record { read = λ rest. read_flag-flag_byte false true rest; color = refl })
      plain_jpeg-IsLossy (λ b. refl)
      (record {
        octree_resolution = omega arith;
        color_bit_resolution = omega arith;
        jpeg_quality = omega arith;
        color_coding_type = omega arith;
        macroblock_size = omega arith;
      })
      (record {
        tree = omega arith;
        centroids = omega arith;
        counts = omega arith;
        points = omega arith;
        colors = omega arith;
        jp_colors = omega arith;
      })
      (omega arith) refl refl refl refl refl (omega arith) (omega arith) (λ e. cc)
      (λ jp e. omega (arith, two_colors_size, ap coded_size e))
