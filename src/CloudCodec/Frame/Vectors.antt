-- ===== src/CloudCodec/Frame/Vectors.antt =====
-- The entropy coded vectors of a frame, and a whole frame (point_cloud_codec_v2_impl.hpp). The counts of
-- compressed bytes and the tree itself are left out. A size that the stream does not hold reads as 0.
use cwipc.Common.{
  ℕ, Bool, true, false, Option, none, some, List, [], ◌++◌, length, ◌==◌, if◌then◌else◌,
}
use cwipc.Common.Int.{pos}
use cwipc.Words.{le_bytes}
use cwipc.World.{Outcome, done}
use cwipc.CloudCodec.JpegIo.{Libjpeg}
use cwipc.CloudCodec.ColorJpeg.{
  ColorCodingJpeg, MappingType, original, snake, lines, grid, other_type, new_coder, with_average,
  get_average_data_vector, initialize_decoding, ◌>>=◌,
}
use cwipc.CloudCodec.Frame.{
  BaseCodec, EntropyCoder, Codec, read_number, write_frame_header, read_frame_header, sync_from,
  frame_header_identifier,
}

-- `(mappingTypes) mode`.
abbrev pub mapping_type : ℕ → MappingType
mapping_type n =
    if n == 0
    then original
    else if n == 1
    then snake
    else if n == 2
    then lines
    else if n == 3
    then grid
    else other_type

module _ (entropy : EntropyCoder) where
  -- The size of a vector, in so many bytes, and the vector.
  unfoldable pub encode_vector : ℕ → List ℕ → List ℕ
  encode_vector n v = le_bytes n (length v) ++ entropy.encode_char_vector v

  unfoldable pub encode_counts : List ℕ → List ℕ
  encode_counts v = le_bytes 8 (length v) ++ entropy.encode_int_vector v

  unfoldable pub read_vector : ℕ → List ℕ → List ℕ × List ℕ
  read_vector n ss = let (size, s) = read_number n 0 ss in entropy.decode_char_vector size s

  unfoldable pub read_counts : List ℕ → List ℕ × List ℕ
  read_counts ss = let (size, s) = read_number 8 0 ss in entropy.decode_int_vector size s

-- The JPEG coder does not encode here: its vector is the one that is read.
abbrev pub set_average : {B : Type 0} → Codec B → List ℕ → Codec B
set_average c average =
    let plain : Bool = c.color_coding_type == 0 in
    let jp : ColorCodingJpeg = c.jp_color_coder in
    record c {
      color_average = if plain then average else c.color_average;
      jp_color_coder = if plain then jp else with_average jp average;
    }

module _ {B : Type 0} (pcl : BaseCodec B) (entropy : EntropyCoder) (jpeg : Libjpeg) where
  -- The average colours, as they are entropy coded.
  unfoldable pub coded_average : Codec B → Outcome (Codec B × List ℕ)
  coded_average c =
      if c.color_coding_type == 0
      then done (c, c.color_average)
      else (get_average_data_vector jpeg c.jp_color_coder >>= λ jp.
          done (record c { jp_color_coder = jp }, jp.point_avg_color_data_vector))

  -- The second part, for the single points.
  unfoldable pub encode_details : Codec B → List ℕ
  encode_details c =
      let color_diff : List ℕ =
        if c.color_coding_type == 0 then c.color_diff else c.jp_color_diff in
      if c.do_voxel_grid
      then []
      else encode_counts entropy c.point_count_data_vector
        ++ (encode_vector entropy 8 c.point_diff
            ++ (if pcl.cloud_with_color c.base then encode_vector entropy 8 color_diff else []))

  abbrev pub encode_centroids : Codec B → List ℕ
  encode_centroids c = if c.do_voxel_centroid then encode_vector entropy 4 c.centroid_diff else []

  unfoldable pub entropy_encoding : Codec B → Outcome (Codec B × List ℕ)
  entropy_encoding c =
      let tree = encode_vector entropy 8 c.binary_tree_data_vector in
      let colored = coded_average c >>= λ (c', average).
      done (
        c',
        tree ++ (encode_centroids c ++ (encode_vector entropy 8 average ++ encode_details c)),
      ) in
      if pcl.cloud_with_color c.base
      then colored
      else done (c, tree ++ (encode_centroids c ++ encode_details c))

  -- Whether more follows in the stream says whether there is a second part.
  unfoldable pub decode_details : Codec B → List ℕ → Codec B × List ℕ
  decode_details c ss =
      let (counts, s1) = read_counts entropy ss in
      let (diff, s2) = read_vector entropy 8 s1 in
      let (colors, s3) =
        if pcl.data_with_color c.base then read_vector entropy 8 s2 else (c.color_diff, s2) in
      if length ss == 0 then (record c { do_voxel_grid = true }, ss) else (
        record c {
          do_voxel_grid = false;
          point_count_data_vector = counts;
          point_diff = diff;
          color_diff = colors;
        },
        s3,
      )

  unfoldable pub entropy_decoding : Codec B → List ℕ → Codec B × List ℕ
  entropy_decoding c ss =
      let (tree, s1) = read_vector entropy 8 ss in
      let (centroids, s2) =
        if c.do_voxel_centroid then read_vector entropy 4 s1 else (c.centroid_diff, s1) in
      let read : Codec B = record c { binary_tree_data_vector = tree; centroid_diff = centroids } in
      let (average, s3) = read_vector entropy 8 s2 in
      if pcl.data_with_color c.base
      then decode_details (set_average read average) s3
      else decode_details read s2

  -- The frame that `encodePointCloud` writes for the vectors.
  unfoldable pub encode_frame : Codec B → ℕ → Outcome (Codec B × List ℕ)
  encode_frame c time_stamp =
      entropy_encoding c >>= λ (c', coded). done (c', write_frame_header pcl c time_stamp ++ coded)

  -- The coder that is in use prepares its colours.
  unfoldable pub color_decoding : Codec B → Outcome (Codec B)
  color_decoding c =
      if c.color_coding_type == 0
      then done c
      else (initialize_decoding jpeg c.jp_color_coder >>= λ jp.
          done (record c { jp_color_coder = jp }))

  -- After the identifier: the codec, the time stamp and what follows.
  unfoldable pub decode_found : Codec B → ℕ → List ℕ → Outcome (Option (Codec B × ℕ × List ℕ))
  decode_found c stamp s =
      let (c1, time_stamp, s1) = read_frame_header pcl c stamp (pcl.sync_base_header s) in
      let c2 : Codec B = record c1 {
        jp_color_coder = new_coder (pos 75) (mapping_type c1.color_coding_type);
      } in
      let (c3, s2) = entropy_decoding c2 s1 in
      color_decoding c3 >>= λ c4. done (some (c4, time_stamp, s2))

  -- The vectors that `decodePointCloud` reads; none without an identifier. `unread` is as in `sync_from`.
  unfoldable pub decode_frame : ℕ → Codec B → ℕ → List ℕ → Outcome (Option (Codec B × ℕ × List ℕ))
  decode_frame unread c stamp ss = elim (sync_from frame_header_identifier unread 0 ss) [
    | none ↦ done none
    | some s ↦ decode_found c stamp s
  ]
