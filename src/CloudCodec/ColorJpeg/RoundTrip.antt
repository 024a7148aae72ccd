-- ===== src/CloudCodec/ColorJpeg/RoundTrip.antt =====
-- The colours that a decoder finds, after `getAverageDataVector` of an encoder (color_coding_jpeg.h).
use cwipc.Common.{
  ℕ, suc, ◌+◌, ◌-◌, ◌*◌, ◌/◌, ◌%◌, ◌^◌, ◌≤◌, ◌<◌, ◌≡◌, refl, true, false, List, ◌++◌, length,
  length-take, take, drop, get_or, ltb, leb, ◌==◌, arith,
}
use cwipc.Common.Int.{ℤ}
use cwipc.World.{done, undefined}
use cwipc.CloudCodec.Bytes.{AreNear, get_or-append_left}
use cwipc.CloudCodec.Snake.{do_mapping}
use cwipc.CloudCodec.Snake.RoundTrip.{length-do_mapping, undo_mapping-relates}
use cwipc.CloudCodec.JpegIo.{Libjpeg, IsLossy, write_jpeg, input_format, lines_of}
use cwipc.CloudCodec.JpegIo.WriteRead.{write_jpeg-ComesBack}
use cwipc.CloudCodec.ColorJpeg.{
  ColorCodingJpeg, MappingType, original, snake, lines, grid, other_type, padding,
  encode_jpeg_snake, decode_jpeg_snake, encode_jpeg_lines, decode_jpeg_lines, serialize,
  decode_lines, get_average_data_vector, initialize_decoding, with_average, write_line,
}
use cwipc.CloudCodec.ColorJpeg.Lines.{Encoded, encode_lines-Encoded, deserialize-serialize}

module _ {κ} (jpeg : Libjpeg) (Near : ℕ → ℕ → Type κ) where
  -- Each of the given colours is near the one at the same position.
  abbrev pub Keeps : List ℕ → List ℕ → Type κ
  Keeps colors decoded = (q : ℕ) → q < length colors → Near (get_or colors q 0) (get_or decoded q 0)

  record SnakeRun (quality : ℤ) (colors : List ℕ) : Type κ where
    out : List ℕ
    encoded : encode_jpeg_snake jpeg quality colors ≡ done out
    kept : Keeps colors (decode_jpeg_snake jpeg out)

  module _ (lossy : IsLossy jpeg Near) (quality : ℤ) where
    snake-Keeps :
        (colors : List ℕ)
        → length colors % 3 ≡ 0
        → 0 < length colors
        → length colors / 3 ≤ 16_000_000
        → SnakeRun quality colors
    unfolding encode_jpeg_snake decode_jpeg_snake
    snake-Keeps colors size some few =
        let p : ℕ = length colors / 3 in
        let height : ℕ = p / 256 + 1 in
        let last = drop (length colors - 3) colors in
        let padded = colors ++ padding (256 * height - p) last in
        let mapped = do_mapping 256 height padded in
        let enough : ltb (length colors) 3 ≡ false = ground arith in
        let mapped_size : length mapped ≡ height * (3 * 256) =
          omega (arith, length-do_mapping 32 height (omega arith) padded) in
        let c =
          write_jpeg-ComesBack jpeg Near lossy quality 256 height mapped (omega arith) (omega arith)
            (omega arith) (omega arith) mapped_size in
        record {
          out = c.bytes;
          encoded = rw (enough, c.written) refl;
          kept = λ q h.
              rw (c.read, c.same_width, c.same_height)
                (rw (← get_or-append_left colors (padding (256 * height - p) last) q h) (
                  undo_mapping-relates 32 height (omega arith) Near padded c.back.image_data
                    (λ r lt. c.near.near r (omega (arith, mapped_size))) q (omega arith)));
        }

    record LinesRun (colors : List ℕ) : Type κ where
      out : List ℕ
      encoded : encode_jpeg_lines jpeg quality colors ≡ done out
      decoded : List ℕ
      decoding : decode_jpeg_lines jpeg out ≡ done decoded
      kept : AreNear Near colors decoded

    lines_run :
        (n : ℕ) (colors : List ℕ)
        → length colors / 3 / 2048 ≡ suc n
        → suc n < 2 ^ 32
        → Encoded jpeg Near quality (suc n) colors
        → LinesRun colors
    unfolding encode_jpeg_lines decode_jpeg_lines
    lines_run n colors num_lines few e = record {
      out = serialize e.clines;
      encoded = rw (num_lines, e.encoded) (ground arith);
      decoded = decode_lines jpeg e.clines;
      decoding = rw (deserialize-serialize e.clines (omega (arith, e.count)) e.short) refl;
      kept = e.near;
    }

    lines-Keeps :
        (colors : List ℕ)
        → length colors % 3 ≡ 0
        → 2048 ≤ length colors / 3
        → length colors / 3 ≤ 16_000_000
        → LinesRun colors
    lines-Keeps colors size some few =
        let p : ℕ = length colors / 3 in
        let n : ℕ = p / 2048 - 1 in
        lines_run n colors (omega arith) (omega arith) (
          encode_lines-Encoded jpeg Near quality lossy n p colors (omega arith) (omega arith)
            (omega arith))

  -- What a decoder of the same mode makes of the data that an encoder gives.
  pub record Decoded (c d : ColorCodingJpeg) : Type κ where
    pub encoder : ColorCodingJpeg
    pub decoder : ColorCodingJpeg
    pub encoded : get_average_data_vector jpeg c ≡ done encoder
    pub decoded :
        initialize_decoding jpeg (with_average d encoder.point_avg_color_data_vector) ≡ done decoder
    pub kept : Keeps c.point_avg_color_data_vector decoder.point_avg_color_data_vector

  module _ (lossy : IsLossy jpeg Near) (same : (b : ℕ) → Near b b) (c d : ColorCodingJpeg)
      (encodes : c.needs_jpeg_encoding_avg ≡ true)
      (size : length c.point_avg_color_data_vector % 3 ≡ 0)
      (some : 0 < length c.point_avg_color_data_vector)
      (few : length c.point_avg_color_data_vector / 3 ≤ 16_000_000) where
    abbrev colors : List ℕ
    colors = c.point_avg_color_data_vector

    kept_raw :
        get_average_data_vector jpeg c ≡ done c
        → initialize_decoding jpeg (with_average d colors) ≡ done (with_average d colors)
        → Decoded c d
    kept_raw e e' = record {
      encoder = c;
      decoder = with_average d colors;
      encoded = e;
      decoded = e';
      kept = λ q h. same _;
    }

    by_mode :
        (m : MappingType)
        → c.mapping_mode ≡ m
        → d.mapping_mode ≡ m
        → (m ≡ lines → 2048 ≤ length colors / 3)
        → Decoded c d
    unfolding get_average_data_vector initialize_decoding
    by_mode snake e e' h =
        let r = snake-Keeps lossy c.jpeg_quality colors size some few in
        record {
          encoder = with_average c r.out;
          decoder = with_average d (decode_jpeg_snake jpeg r.out);
          encoded = simp (encodes, e, r.encoded) refl;
          decoded = simp e' refl;
          kept = r.kept;
        }
    by_mode lines e e' h =
        let r = lines-Keeps lossy c.jpeg_quality colors size (h refl) few in
        record {
          encoder = with_average c r.out;
          decoder = with_average d r.decoded;
          encoded = simp (encodes, e, r.encoded) refl;
          decoded = simp (e', r.decoding) refl;
          kept = r.kept.near;
        }
    by_mode original e e' h = kept_raw (simp (encodes, e) refl) (simp e' refl)
    by_mode grid e e' h = kept_raw (simp (encodes, e) refl) (simp e' refl)
    by_mode other_type e e' h = kept_raw (simp (encodes, e) refl) (simp e' refl)

-- If the JPEG library keeps every byte near, an encoder whose colours are of more than 0 and at
-- most 16,000,000 pixels, and in the mode LINES of at least 2048 pixels, gives data from which a
-- decoder of the same mode gets colours that begin with ones near to those.
pub decoding-average {κ} :
    (jpeg : Libjpeg) (Near : ℕ → ℕ → Type κ) (c d : ColorCodingJpeg)
    → IsLossy jpeg Near
    → ((b : ℕ) → Near b b)
    → c.needs_jpeg_encoding_avg ≡ true
    → d.mapping_mode ≡ c.mapping_mode
    → length c.point_avg_color_data_vector % 3 ≡ 0
    → 0 < length c.point_avg_color_data_vector
    → length c.point_avg_color_data_vector / 3 ≤ 16_000_000
    → (c.mapping_mode ≡ lines → 2048 ≤ length c.point_avg_color_data_vector / 3)
    → Decoded jpeg Near c d
decoding-average jpeg Near c d lossy same encodes mode size some few enough =
    by_mode jpeg Near lossy same c d encodes size some few c.mapping_mode refl mode enough

-- In the mode LINES, at least one and fewer than 2048 pixels that are to be encoded are read from
-- beyond the end of their vector.
pub average_of_few :
    (jpeg : Libjpeg) (c : ColorCodingJpeg)
    → c.needs_jpeg_encoding_avg ≡ true
    → c.mapping_mode ≡ lines
    → 3 ≤ length c.point_avg_color_data_vector
    → length c.point_avg_color_data_vector / 3 < 2048
    → get_average_data_vector jpeg c ≡ undefined
unfolding get_average_data_vector encode_jpeg_lines write_line write_jpeg input_format lines_of
average_of_few jpeg c encodes mode some few =
    let bytes = c.point_avg_color_data_vector in
    let taken = take (3 * (length bytes / 3)) bytes in
    let n : length taken ≡ 3 * (length bytes / 3) =
      omega (arith, length-take (3 * (length bytes / 3)) bytes) in
    let no_line : (length bytes / 3 / 2048 == 0) ≡ true = ground arith in
    let not_empty : (length taken == 0) ≡ false = ground arith in
    let short : leb (2048 * 3) (length taken) ≡ false = ground arith in
    rw (encodes, mode, no_line, not_empty, short) refl
