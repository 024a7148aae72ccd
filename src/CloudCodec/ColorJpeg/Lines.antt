-- ===== src/CloudCodec/ColorJpeg/Lines.antt =====
-- The lines of `JPEGLineData` (color_coding_jpeg.h), written to a stream and read back, and the colours that
-- they hold.
use mathlib.Core.Path.{subst}
use mathlib.Core.List.{append-nil}
use cwipc.Common.{
  ℕ, zero, suc, ◌-◌, ◌*◌, ◌/◌, ◌^◌, ◌≤◌, ◌<◌, ◌≡◌, refl, ap, false, List, [], ◌∷◌, ◌++◌, length,
  length-append, length-take, length-drop, replicate, take-append-drop, take, drop, All, arith, ltb,
}
use cwipc.Common.Int.{ℤ}
use cwipc.Words.{
  le_bytes, le_value, length-le_bytes, le_value-le_bytes, take-append, take_front, drop_front,
}
use cwipc.World.{done}
use cwipc.CloudCodec.Bytes.{AreNear, AreNear-append}
use cwipc.CloudCodec.JpegIo.{Libjpeg, IsLossy, resize}
use cwipc.CloudCodec.JpegIo.WriteRead.{ComesBack, write_jpeg-ComesBack}
use cwipc.CloudCodec.ColorJpeg.{
  JpegLineData, serialize_lines, serialize, deserialize_lines, deserialize, encode_lines,
  decode_lines, line_image, write_line,
}

resize_same : (bytes : List ℕ) → resize (length bytes) bytes ≡ bytes
resize_same bytes = take-append bytes (replicate (length bytes) 0)

-- The number that precedes some bytes, and those bytes.
module _ (n : ℕ) (rest : List ℕ) (small : n < 2 ^ 32) where
  four : length (le_bytes 4 n) ≡ 4
  four = length-le_bytes 4 n

  number_read : le_value (take 4 (le_bytes 4 n ++ rest)) ≡ n
  number_read = rw (take_front 4 (le_bytes 4 n) rest four) (le_value-le_bytes 4 n small)

  rest_read : drop 4 (le_bytes 4 n ++ rest) ≡ rest
  rest_read = drop_front 4 (le_bytes 4 n) rest four

  enough_read : ltb (length (le_bytes 4 n ++ rest)) 4 ≡ false
  enough_read = let size = length-append (le_bytes 4 n) rest in ground (arith, four)

deserialize-serialize_lines :
    (clines : JpegLineData)
    → All (λ l. length l < 2 ^ 32) clines
    → deserialize_lines (length clines) (serialize_lines clines) ≡ done clines
unfolding deserialize_lines serialize_lines
deserialize-serialize_lines [] h = refl
deserialize-serialize_lines (l ∷ clines) h =
    let n : ℕ = length l in
    let rest = l ++ serialize_lines clines in
    rw
      (
        enough_read n rest h.0,
        number_read n rest h.0,
        rest_read n rest h.0,
        take_front n l (serialize_lines clines) refl,
        drop_front n l (serialize_lines clines) refl,
        resize_same l,
        deserialize-serialize_lines clines h.1,
      )
      refl

pub deserialize-serialize :
    (clines : JpegLineData)
    → length clines < 2 ^ 32
    → All (λ l. length l < 2 ^ 32) clines
    → deserialize (serialize clines) ≡ done clines
unfolding deserialize serialize
deserialize-serialize clines few h =
    let n : ℕ = length clines in
    let rest = serialize_lines clines in
    rw (enough_read n rest few, number_read n rest few, rest_read n rest few)
      (deserialize-serialize_lines clines h)

module _ {κ} (jpeg : Libjpeg) (Near : ℕ → ℕ → Type κ) (quality : ℤ) where
  -- The compressed lines of some colours, and what comes back of them.
  pub record Encoded (n : ℕ) (colors : List ℕ) : Type κ where
    pub clines : JpegLineData
    pub encoded : encode_lines jpeg quality n colors ≡ done clines
    pub count : length clines ≡ n
    pub short : All (λ l. length l < 2 ^ 32) clines
    pub near : AreNear Near colors (decode_lines jpeg clines)

  module _ (lossy : IsLossy jpeg Near) where
    line :
        (w : ℕ) (colors : List ℕ)
        → 0 < w
        → w ≤ 65500
        → length colors ≡ 3 * w
        → ComesBack jpeg Near quality (line_image w colors)
    line w colors hw w_max size =
        write_jpeg-ComesBack jpeg Near lossy quality w 1 colors hw w_max (omega arith) (omega arith)
          (omega arith)

    last_line-Encoded :
        (p : ℕ) (colors : List ℕ) → length colors ≡ 3 * p → 0 < p → p ≤ 65500 → Encoded 1 colors
    unfolding encode_lines decode_lines write_line
    last_line-Encoded p colors size some few =
        let c = line p colors some few size in
        let w : length colors / 3 ≡ p = omega arith in
        record {
          clines = c.bytes ∷ [];
          encoded = rw (w, c.written) refl;
          count = refl;
          short = (c.few_bytes refl, tt);
          near = rw (c.read, append-nil c.back.image_data) c.near;
        }

    pub encode_lines-Encoded :
        (n p : ℕ) (colors : List ℕ)
        → length colors ≡ 3 * p
        → 2048 * suc n ≤ p
        → p < 2048 * suc (suc n)
        → Encoded (suc n) colors
    unfolding encode_lines decode_lines write_line
    encode_lines-Encoded zero p colors size at_least at_most =
        last_line-Encoded p colors size (omega arith) (omega arith)
    encode_lines-Encoded (suc n) p colors size at_least at_most =
        let first = take (3 * 2048) colors in
        let others = drop (3 * 2048) colors in
        let c =
          line 2048 first (omega arith) (omega arith)
            (omega (arith, length-take (3 * 2048) colors)) in
        let rest =
          encode_lines-Encoded n (p - 2048) others (omega (arith, length-drop (3 * 2048) colors))
            (omega arith) (omega arith) in
        record {
          clines = c.bytes ∷ rest.clines;
          encoded = rw (c.written, rest.encoded) refl;
          count = ap suc rest.count;
          short = (c.few_bytes refl, rest.short);
          near =
              subst (λ xs. AreNear Near xs (decode_lines jpeg (c.bytes ∷ rest.clines)))
                (take-append-drop (3 * 2048) colors)
                (rw c.read (
                  AreNear-append Near first others c.back.image_data (decode_lines jpeg rest.clines)
                    c.near rest.near));
        }
