-- ===== src/CloudCodec/ColorJpeg.antt =====
-- `ColorCodingJPEG` (cwipc_codec/cloud_codec_v2/include/pcl/cloud_codec_v2/color_coding_jpeg.h): the
-- average colours of the voxels, three bytes each, as JPEG data. There is memory for what is read.
mod Lines
pub mod RoundTrip
use cwipc.Common.{
  ℕ, zero, suc, ◌+◌, ◌-◌, ◌*◌, ◌/◌, ◌^◌, Bool, true, false, Option, none, some, List, [], ◌∷◌, ◌++◌,
  length, take, drop, replicate, get_or, ◌==◌, ltb, if◌then◌else◌,
}
use cwipc.Common.Int.{ℤ}
use cwipc.Words.{le_bytes, le_value}
use cwipc.World.{Outcome, done, undefined}
use cwipc.CloudCodec.Snake.{do_mapping, undo_mapping}
use cwipc.CloudCodec.JpegIo.{PclImage, empty_image, Libjpeg, write_jpeg, read_jpeg, resize}

infixl 5 ◌>>=◌
abbrev pub ◌>>=◌ {ℓ κ} : {A : Type ℓ} {B : Type κ} → Outcome A → (A → Outcome B) → Outcome B
undefined >>= k = undefined
done a >>= k = k a

-- The `enum mappingTypes`, and its other values.
pub data MappingType : Type 0 where
  original snake lines grid other_type : MappingType

-- The members that the modelled code uses.
pub record ColorCodingJpeg : Type 0 where
  pub needs_jpeg_encoding_avg : Bool
  pub mapping_mode : MappingType
  pub jpeg_quality : ℤ
  pub point_avg_color_data_vector : List ℕ

-- The compressed lines of a `JPEGLineData`; `line_count` is their number.
abbrev pub JpegLineData : Type 0
JpegLineData = List (List ℕ)

pub serialize_lines : JpegLineData → List ℕ
serialize_lines [] = []
serialize_lines (l ∷ clines) = le_bytes 4 (length l) ++ (l ++ serialize_lines clines)

unfoldable pub serialize : JpegLineData → List ℕ
unfolding serialize_lines
serialize clines = le_bytes 4 (length clines) ++ serialize_lines clines

-- A number that the stream does not hold is undefined; the bytes that it does not hold are zero.
pub deserialize_lines : ℕ → List ℕ → Outcome JpegLineData
deserialize_lines zero ss = done []
deserialize_lines (suc n) ss =
    let line_size : ℕ = le_value (take 4 ss) in
    let rest = deserialize_lines n (drop line_size (drop 4 ss)) in
    if ltb (length ss) 4
    then undefined
    else (rest >>= λ clines. done (resize line_size (take line_size (drop 4 ss)) ∷ clines))

unfoldable pub deserialize : List ℕ → Outcome JpegLineData
unfolding deserialize_lines
deserialize ss =
    if ltb (length ss) 4 then undefined else deserialize_lines (le_value (take 4 ss)) (drop 4 ss)

-- The bytes `last_color`, so many times.
unfoldable pub padding : ℕ → List ℕ → List ℕ
padding zero last_color = []
padding (suc n) last_color = last_color ++ padding n last_color

abbrev pub line_image : ℕ → List ℕ → PclImage
line_image width line_dat = record {
  width = width;
  height = 1;
  step = 0;
  encoding = "RGB";
  image_data = line_dat;
}

abbrev pub with_average : ColorCodingJpeg → List ℕ → ColorCodingJpeg
with_average c bytes = record c { point_avg_color_data_vector = bytes }

module _ (jpeg : Libjpeg) where
  -- The output data, which are empty before.
  unfoldable pub encode_jpeg_snake : ℤ → List ℕ → Outcome (List ℕ)
  encode_jpeg_snake quality in_vec =
      let pixel_count : ℕ = length in_vec / 3 in
      let height : ℕ = pixel_count / 256 + 1 in
      let padded_pixels : ℕ = 256 * height - pixel_count in
      let last_color = drop (length in_vec - 3) in_vec in
      let padded = in_vec ++ padding padded_pixels last_color in
      if ltb (length in_vec) 3 then undefined else do
        (written, out_data) ←
            write_jpeg jpeg
              (record {
                width = 256;
                height = height;
                step = 0;
                encoding = "RGB";
                image_data = do_mapping 256 height padded;
              })
              quality []
        done out_data

  -- The image that is read is empty if there is an error.
  unfoldable pub decode_jpeg_snake : List ℕ → List ℕ
  decode_jpeg_snake in_vec =
      let (success, im_out) = read_jpeg jpeg in_vec empty_image in
      undo_mapping im_out.width im_out.height im_out.image_data

  pub write_line : ℤ → PclImage → Outcome (List ℕ)
  write_line quality im_in = do (written, cline) ← write_jpeg jpeg im_in quality []; done cline

  -- The loop over the lines, given how many are left and the colours that are left.
  unfoldable pub encode_lines : ℤ → ℕ → List ℕ → Outcome JpegLineData
  unfolding write_line
  encode_lines quality zero in_vec = done []
  encode_lines quality (suc zero) in_vec = do
    cline ← write_line quality (line_image (length in_vec / 3) in_vec)
    done (cline ∷ [])
  encode_lines quality (suc (suc n)) in_vec = do
    cline ← write_line quality (line_image 2048 (take (3 * 2048) in_vec))
    clines ← encode_lines quality (suc n) (drop (3 * 2048) in_vec)
    done (cline ∷ clines)

  unfoldable pub encode_jpeg_lines : ℤ → List ℕ → Outcome (List ℕ)
  unfolding write_line
  encode_jpeg_lines quality in_vec =
      let pixel_count : ℕ = length in_vec / 3 in
      let num_lines : ℕ = pixel_count / 2048 in
      if num_lines == 0
      then (do
        cline ← write_line quality (line_image 2048 (take (3 * pixel_count) in_vec))
        done (serialize (cline ∷ [])))
      else (encode_lines quality num_lines in_vec >>= λ clines. done (serialize clines))

  unfoldable pub decode_lines : JpegLineData → List ℕ
  decode_lines [] = []
  decode_lines (l ∷ clines) =
      let (success, t_o_dat) = read_jpeg jpeg l empty_image in
      t_o_dat.image_data ++ decode_lines clines

  unfoldable pub decode_jpeg_lines : List ℕ → Outcome (List ℕ)
  decode_jpeg_lines in_vec = deserialize in_vec >>= λ clines. done (decode_lines clines)

  -- The coder as it is left; what is returned is its vector.
  unfoldable pub get_average_data_vector : ColorCodingJpeg → Outcome ColorCodingJpeg
  get_average_data_vector c =
      let snake_data = encode_jpeg_snake c.jpeg_quality c.point_avg_color_data_vector >>= λ out.
      done (with_average c out) in
      let lines_data = encode_jpeg_lines c.jpeg_quality c.point_avg_color_data_vector >>= λ out.
      done (with_average c out) in
      if c.needs_jpeg_encoding_avg
      then elim c.mapping_mode [ snake ↦ snake_data | lines ↦ lines_data | _ ↦ done c ]
      else done c

  unfoldable pub initialize_decoding : ColorCodingJpeg → Outcome ColorCodingJpeg
  initialize_decoding c = elim c.mapping_mode [
    | snake ↦ done (with_average c (decode_jpeg_snake c.point_avg_color_data_vector))
    | lines ↦ decode_jpeg_lines c.point_avg_color_data_vector >>= λ out. done (with_average c out)
    | _ ↦ done c
  ]

unfoldable pub initialize_encoding : ColorCodingJpeg → ColorCodingJpeg
initialize_encoding c = record c {
  needs_jpeg_encoding_avg = true;
  point_avg_color_data_vector = [];
}

-- The constructor.
abbrev pub new_coder : ℤ → MappingType → ColorCodingJpeg
new_coder quality mode = record {
  needs_jpeg_encoding_avg = false;
  mapping_mode = mode;
  jpeg_quality = quality;
  point_avg_color_data_vector = [];
}
