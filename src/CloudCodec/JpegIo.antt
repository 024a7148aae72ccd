-- ===== src/CloudCodec/JpegIo.antt =====
-- The JPEG reader and writer on memory (cwipc_codec/cloud_codec_v2/src/jpeg_io.cpp). The JPEG library is
-- a parameter, and its sizes stay below 2 ^ 31.
pub mod WriteRead
use text.Mathlib.Text.{◌==◌ as str_eq}
use mathlib.Core.List.{flatten}
use cwipc.Common.{
  ℕ, zero, suc, ◌*◌, ◌^◌, ◌≤◌, ◌<◌, ◌≡◌, Bool, true, false, ◌||◌, Option, none, some, List, [], ◌∷◌,
  ◌++◌, String, length, take, drop, replicate, get_or, All, ◌==◌, leb, if◌then◌else◌,
}
use cwipc.Common.Int.{ℤ}
use cwipc.World.{Outcome, done, undefined}

-- `pcl::PCLImage`.
pub record PclImage : Type 0 where
  pub width : ℕ
  pub height : ℕ
  pub step : ℕ
  pub encoding : String
  pub image_data : List ℕ

abbrev pub empty_image : PclImage
empty_image = record { width = 0; height = 0; step = 0; encoding = ""; image_data = [] }

pub data ColorSpace : Type 0 where
  grayscale rgb ycbcr other_space : ColorSpace

-- What the library makes of compressed data: the fields of its object, and the scan lines that it
-- reads, all of them if it finishes.
pub record Scan : Type 0 where
  pub output_width : ℕ
  pub output_height : ℕ
  pub output_components : ℕ
  pub image_width : ℕ
  pub image_height : ℕ
  pub out_color_space : ColorSpace
  pub scan_lines : List (List ℕ)
  pub finished : Bool

-- The library: compression, of an image of some colour space, width and height at some quality, given
-- line by line, and decompression; `none` is an error, in the header of the data when decompressing.
pub record Libjpeg : Type 0 where
  pub compress : ColorSpace → ℕ → ℕ → ℤ → List (List ℕ) → Option (List ℕ)
  pub decompress : List ℕ → Option Scan

-- The colour space and the number of components for the name of an encoding.
unfoldable pub input_format : String → ColorSpace × ℕ
input_format encoding =
    if str_eq encoding "YUV"
    then (ycbcr, 3)
    else if str_eq encoding "RGB"
    then (rgb, 3)
    else if str_eq encoding "MONO"
    then (grayscale, 1)
    else if str_eq encoding "GRAY"
    then (grayscale, 1)
    else (rgb, 3)

-- The lines of an image; `none` if the data do not hold so many of them.
unfoldable pub lines_of : ℕ → ℕ → List ℕ → Option (List (List ℕ))
lines_of stride zero bytes = some []
lines_of stride (suc n) bytes =
    let rest = lines_of stride n (drop stride bytes) in
    if leb stride (length bytes)
    then elim rest [ none ↦ none | some ls ↦ some (take stride bytes ∷ ls) ]
    else none

-- The result, and the compressed data as they are left. A line that the image's data do not hold is read
-- from beyond them.
unfoldable pub write_jpeg : Libjpeg → PclImage → ℤ → List ℕ → Outcome (Bool × List ℕ)
write_jpeg jpeg im quality cdat =
    let (space, components) = input_format im.encoding in
    if length im.image_data == 0 || im.width == 0 || im.height == 0
    then done (false, cdat)
    else elim (lines_of (im.width * components) im.height im.image_data) [
      | none ↦ undefined
      | some ls ↦ elim (jpeg.compress space im.width im.height quality ls) [
        | none ↦ done (false, cdat)
        | some out ↦ done (true, out)
      ]
    ]

-- `std::vector::resize`.
abbrev pub resize : ℕ → List ℕ → List ℕ
resize n bytes = take n (bytes ++ replicate n 0)

abbrev pub encoding_name : ColorSpace → String
encoding_name grayscale = "MONO"
encoding_name rgb = "RGB"
encoding_name ycbcr = "YUV"
encoding_name other_space = "unknown"

-- The result, and the image as it is left.
unfoldable pub read_jpeg : Libjpeg → List ℕ → PclImage → Bool × PclImage
read_jpeg jpeg jpeg_in_dat im_out =
    if length jpeg_in_dat == 0 then (false, im_out) else elim (jpeg.decompress jpeg_in_dat) [
      | none ↦ (false, im_out)
      | some scan ↦
          let row_stride : ℕ = scan.output_width * scan.output_components in
          let read : List ℕ = flatten scan.scan_lines in
          let filled : List ℕ =
            read
            ++ drop (length read) (resize (row_stride * scan.output_height) im_out.image_data) in
          if scan.finished
          then (
            true,
            record {
              width = scan.image_width;
              height = scan.image_height;
              step = scan.output_components;
              encoding = encoding_name scan.out_color_space;
              image_data = filled;
            },
          )
          else (false, record im_out { image_data = filled })
    ]

-- What the library's documentation says of RGB images, whose sides it limits to 65500: compressing
-- succeeds, to less than 2 ^ 32 bytes for one line, and decompressing gives an image of the same size
-- whose bytes are near the original ones.
pub record IsNear {κ} (jpeg : Libjpeg) (Near : ℕ → ℕ → Type κ) (w h : ℕ) (quality : ℤ)
    (ls : List (List ℕ)) : Type κ where
  pub bytes : List ℕ
  pub scan : Scan
  pub compressed : jpeg.compress rgb w h quality ls ≡ some bytes
  pub some_bytes : 0 < length bytes
  pub few_bytes : h ≡ 1 → length bytes < 2 ^ 32
  pub decompressed : jpeg.decompress bytes ≡ some scan
  pub finished : scan.finished ≡ true
  pub same_width : (scan.image_width ≡ w) × (scan.output_width ≡ w)
  pub same_height : (scan.image_height ≡ h) × (scan.output_height ≡ h)
  pub three : scan.output_components ≡ 3
  pub same_size : length (flatten scan.scan_lines) ≡ length (flatten ls)
  pub near :
      (q : ℕ)
      → q < length (flatten ls)
      → Near (get_or (flatten ls) q 0) (get_or (flatten scan.scan_lines) q 0)

abbrev pub IsLossy {κ} : Libjpeg → (ℕ → ℕ → Type κ) → Type κ
IsLossy jpeg Near =
    (w h : ℕ) (quality : ℤ) (ls : List (List ℕ))
    → 0 < w
    → w ≤ 65500
    → 0 < h
    → h ≤ 65500
    → length ls ≡ h
    → All (λ l. length l ≡ 3 * w) ls
    → IsNear jpeg Near w h quality ls
