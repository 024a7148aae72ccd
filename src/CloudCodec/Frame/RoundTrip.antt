-- ===== src/CloudCodec/Frame/RoundTrip.antt =====
-- A frame that is encoded and decoded (point_cloud_codec_v2_impl.hpp).
use mathlib.Core.List.{append-nil, append_assoc}
use cwipc.Common.{
  ℕ, ◌^◌, ◌<◌, ◌≡◌, refl, sym, ap, ◌∙◌, inl, inr, Bool, true, false, Bool-cases, List, [], ◌++◌,
  length, length-append, ◌==◌, if◌then◌else◌, arith,
}
use cwipc.Words.{le_bytes, length-le_bytes}
use cwipc.CloudCodec.JpegIo.{Libjpeg}
use cwipc.CloudCodec.Frame.{BaseCodec, EntropyCoder, Codec}
use cwipc.CloudCodec.Frame.Header.{read_number-le_bytes}
use cwipc.CloudCodec.Frame.Vectors.{
  encode_vector, encode_counts, read_vector, read_counts, encode_details, encode_centroids,
  decode_details, set_average, entropy_decoding,
}

-- What the documentation of PCL says of the coder: decoding as many numbers as were encoded gives them
-- back, and takes just their data from the stream.
pub record EntropyReadsBack (entropy : EntropyCoder) : Type 0 where
  pub chars :
      (v rest : List ℕ)
      → entropy.decode_char_vector (length v) (entropy.encode_char_vector v ++ rest) ≡ (v, rest)
  pub ints :
      (v rest : List ℕ)
      → entropy.decode_int_vector (length v) (entropy.encode_int_vector v ++ rest) ≡ (v, rest)

module _ (entropy : EntropyCoder) (reads : EntropyReadsBack entropy) where
  read_vector-encode_vector :
      (n : ℕ) (v rest : List ℕ)
      → length v < 256 ^ n
      → read_vector entropy n (encode_vector entropy n v ++ rest) ≡ (v, rest)
  unfolding read_vector encode_vector
  read_vector-encode_vector n v rest h =
      let coded = entropy.encode_char_vector v in
      ap (read_vector entropy n) (append_assoc (le_bytes n (length v)) coded rest)
      ∙ ap (λ (size, s). entropy.decode_char_vector size s)
          (read_number-le_bytes n 0 (length v) (coded ++ rest) h)
      ∙ reads.chars v rest

  read_counts-encode_counts :
      (v rest : List ℕ)
      → length v < 256 ^ 8
      → read_counts entropy (encode_counts entropy v ++ rest) ≡ (v, rest)
  unfolding read_counts encode_counts
  read_counts-encode_counts v rest h =
      let coded = entropy.encode_int_vector v in
      ap (read_counts entropy) (append_assoc (le_bytes 8 (length v)) coded rest)
      ∙ ap (λ (size, s). entropy.decode_int_vector size s)
          (read_number-le_bytes 8 0 (length v) (coded ++ rest) h)
      ∙ reads.ints v rest

  not_empty : (v rest : List ℕ) → (length (encode_counts entropy v ++ rest) == 0) ≡ false
  unfolding encode_counts
  not_empty v rest =
      let size = le_bytes 8 (length v) in
      let coded = entropy.encode_int_vector v in
      ground (
        arith,
        length-append (size ++ coded) rest,
        length-append size coded,
        length-le_bytes 8 (length v),
      )

-- The vectors have sizes that fit.
pub record AreSized {B : Type 0} (c : Codec B) : Type 0 where
  pub tree : length c.binary_tree_data_vector < 256 ^ 8
  pub centroids : length c.centroid_diff < 256 ^ 4
  pub counts : length c.point_count_data_vector < 256 ^ 8
  pub points : length c.point_diff < 256 ^ 8
  pub colors : length c.color_diff < 256 ^ 8
  pub jp_colors : length c.jp_color_diff < 256 ^ 8

either :
    (b : Bool) (xs ys : List ℕ) (n : ℕ)
    → length xs < n
    → length ys < n
    → length (if b then xs else ys) < n
either true xs ys n h k = h
either false xs ys n h k = k

module _ {B : Type 0} where
  -- The codec d with the second part of c: its colours go to the coder without JPEG.
  abbrev pub with_details : Codec B → Codec B → Codec B
  with_details d c =
      let colors : List ℕ = if c.color_coding_type == 0 then c.color_diff else c.jp_color_diff in
      record d {
        do_voxel_grid = c.do_voxel_grid;
        point_count_data_vector =
            if c.do_voxel_grid then d.point_count_data_vector else c.point_count_data_vector;
        point_diff = if c.do_voxel_grid then d.point_diff else c.point_diff;
        color_diff = if c.do_voxel_grid then d.color_diff else colors;
      }

  abbrev pub with_vectors : Codec B → Codec B → List ℕ → Codec B
  with_vectors d c average =
      let read : Codec B = record d {
        binary_tree_data_vector = c.binary_tree_data_vector;
        centroid_diff = if c.do_voxel_centroid then c.centroid_diff else d.centroid_diff;
      } in
      with_details (set_average read average) c

module _ {B : Type 0} (pcl : BaseCodec B) (entropy : EntropyCoder) (jpeg : Libjpeg)
    (reads : EntropyReadsBack entropy) where
  nothing_left :
      (d : Codec B) → decode_details pcl entropy jpeg d [] ≡ (record d { do_voxel_grid = true }, [])
  unfolding decode_details
  nothing_left d = refl

  -- The second part, for its three vectors.
  details_read :
      (d : Codec B) (counts points colors : List ℕ)
      → length counts < 256 ^ 8
      → length points < 256 ^ 8
      → length colors < 256 ^ 8
      → pcl.data_with_color d.base ≡ true
      → decode_details pcl entropy jpeg d (
          encode_counts entropy counts
          ++ (encode_vector entropy 8 points ++ encode_vector entropy 8 colors))
        ≡ (
          record d {
            do_voxel_grid = false;
            point_count_data_vector = counts;
            point_diff = points;
            color_diff = colors;
          },
          [],
        )
  unfolding decode_details
  details_read d counts points colors hc hp hl color =
      let coded = encode_vector entropy 8 points ++ encode_vector entropy 8 colors in
      let more : (length (encode_counts entropy counts ++ coded) == 0) ≡ false =
        not_empty entropy reads counts coded in
      let last : read_vector entropy 8 (encode_vector entropy 8 colors) ≡ (colors, []) =
        ap (read_vector entropy 8) (sym (append-nil (encode_vector entropy 8 colors)))
        ∙ read_vector-encode_vector entropy reads 8 colors [] hl in
      rw
        (
          more,
          read_counts-encode_counts entropy reads counts coded hc,
          read_vector-encode_vector entropy reads 8 points (encode_vector entropy 8 colors) hp,
          color,
          last,
        )
        refl

  decode_details-encode_details :
      (c d : Codec B)
      → AreSized c
      → pcl.data_with_color d.base ≡ true
      → pcl.cloud_with_color c.base ≡ true
      → decode_details pcl entropy jpeg d (encode_details pcl entropy jpeg c)
        ≡ (with_details d c, [])
  unfolding encode_details
  decode_details-encode_details c d sized color color' = elim (Bool-cases c.do_voxel_grid) [
    | inl grid ↦ rw grid (nothing_left d)
    | inr points ↦
        rw (points, color')
          (details_read d c.point_count_data_vector c.point_diff _ sized.counts sized.points
            (either (c.color_coding_type == 0) _ _ _ sized.colors sized.jp_colors) color)
  ]

  centroids_read :
      (c d : Codec B) (rest : List ℕ)
      → AreSized c
      → d.do_voxel_centroid ≡ c.do_voxel_centroid
      → (if d.do_voxel_centroid
          then read_vector entropy 4 (encode_centroids pcl entropy jpeg c ++ rest)
          else (d.centroid_diff, encode_centroids pcl entropy jpeg c ++ rest))
        ≡ (if c.do_voxel_centroid then c.centroid_diff else d.centroid_diff, rest)
  centroids_read c d rest sized same = elim (Bool-cases c.do_voxel_centroid) [
    | inl some_centroids ↦
        rw (same, some_centroids)
          (read_vector-encode_vector entropy reads 4 c.centroid_diff rest sized.centroids)
    | inr no_centroids ↦ rw (same, no_centroids) refl
  ]

  -- The whole vectors, given the coded average colours.
  pub entropy_decoding-vectors :
      (c d : Codec B) (average : List ℕ)
      → AreSized c
      → length average < 256 ^ 8
      → d.do_voxel_centroid ≡ c.do_voxel_centroid
      → pcl.data_with_color d.base ≡ true
      → pcl.cloud_with_color c.base ≡ true
      → entropy_decoding pcl entropy jpeg d (
          encode_vector entropy 8 c.binary_tree_data_vector
          ++ (encode_centroids pcl entropy jpeg c
              ++ (encode_vector entropy 8 average ++ encode_details pcl entropy jpeg c)))
        ≡ (with_vectors d c average, [])
  unfolding entropy_decoding
  entropy_decoding-vectors c d average sized fits same color color' =
      let read : Codec B = record d {
        binary_tree_data_vector = c.binary_tree_data_vector;
        centroid_diff = if c.do_voxel_centroid then c.centroid_diff else d.centroid_diff;
      } in
      rw
        (
          read_vector-encode_vector entropy reads 8 c.binary_tree_data_vector _ sized.tree,
          centroids_read c d _ sized same,
          read_vector-encode_vector entropy reads 8 average _ fits,
          color,
        )
        (decode_details-encode_details c (set_average read average) sized color color')
