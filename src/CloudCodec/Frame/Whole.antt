-- ===== src/CloudCodec/Frame/Whole.antt =====
-- A whole frame and its colours: what a decoder finds in the stream of an encoder
-- (point_cloud_codec_v2_impl.hpp, color_coding_jpeg.h).
use cwipc.Common.{
  drop, ℕ, ◌/◌, ◌%◌, ◌^◌, ◌≤◌, ◌<◌, ◌≡◌, refl, sym, ap, ◌∙◌, true, false, none, some, List, [],
  ◌++◌, length, ◌==◌,
}
use cwipc.Common.Int.{pos}
use cwipc.World.{done}
use cwipc.CloudCodec.JpegIo.{Libjpeg, IsLossy}
use cwipc.CloudCodec.ColorJpeg.{
  ◌>>=◌, lines, ColorCodingJpeg, initialize_decoding, get_average_data_vector, new_coder,
  with_average,
}
use cwipc.CloudCodec.ColorJpeg.RoundTrip.{Keeps, Decoded, decoding-average}
use cwipc.CloudCodec.Frame.{
  BaseCodec, EntropyCoder, Codec, write_frame_header, frame_header_identifier, sync_from,
}
use cwipc.CloudCodec.Frame.Sync.{sync_from_whole, All-differ}
use cwipc.CloudCodec.Frame.Header.{
  HeaderReadsBack, IsSized, with_header, fields, write_frame_header_lem, read_frame_header-written,
}
use cwipc.CloudCodec.Frame.Vectors.{
  mapping_type, encode_vector, coded_average, encode_details, encode_centroids, entropy_encoding,
  encode_frame, color_decoding, decode_found, decode_frame,
}
use cwipc.CloudCodec.Frame.RoundTrip.{
  EntropyReadsBack, AreSized, with_vectors, entropy_decoding-vectors,
}

identifier_found :
    (unread : ℕ) (text : List ℕ)
    → sync_from frame_header_identifier unread 0 (frame_header_identifier ++ text) ≡ some text
identifier_found unread text =
    sync_from_whole 60 (drop 1 frame_header_identifier) unread text
      (All-differ 60 (drop 1 frame_header_identifier) refl)

module _ {B : Type 0} (pcl : BaseCodec B) (entropy : EntropyCoder) (jpeg : Libjpeg) where
  -- The vectors as they stand in the stream.
  abbrev coded_vectors : Codec B → List ℕ → List ℕ
  coded_vectors c average =
      encode_vector entropy 8 c.binary_tree_data_vector
      ++ (encode_centroids pcl entropy jpeg c
          ++ (encode_vector entropy 8 average ++ encode_details pcl entropy jpeg c))

  encode_frame_lem :
      (c e : Codec B) (average : List ℕ) (time_stamp : ℕ)
      → pcl.cloud_with_color c.base ≡ true
      → coded_average pcl entropy jpeg c ≡ done (e, average)
      → encode_frame pcl entropy jpeg c time_stamp
        ≡ done (e, write_frame_header pcl c time_stamp ++ coded_vectors c average)
  unfolding encode_frame entropy_encoding
  encode_frame_lem c e average time_stamp color coded = rw (color, coded) refl

  -- The codec d when it has read the header of c.
  abbrev prepared : Codec B → B → Codec B → Codec B
  prepared d after c = record (with_header pcl d after c) {
    jp_color_coder = new_coder (pos 75) (mapping_type c.color_coding_type);
  }

  decode_frame_lem :
      (c d : Codec B) (after : B) (unread stamp time_stamp : ℕ) (average : List ℕ)
      → EntropyReadsBack entropy
      → HeaderReadsBack pcl c.base d.base after
      → IsSized c
      → AreSized c
      → length average < 256 ^ 8
      → time_stamp < 256 ^ 8
      → pcl.cloud_with_color c.base ≡ true
      → decode_frame pcl entropy jpeg unread d stamp
          (write_frame_header pcl c time_stamp ++ coded_vectors c average)
        ≡ (color_decoding pcl entropy jpeg (with_vectors (prepared d after c) c average) >>= λ r.
            done (some (r, time_stamp, [])))
  unfolding decode_frame decode_found
  decode_frame_lem c d after unread stamp time_stamp average coder header sized vectors fits small
        color =
      let rest = coded_vectors c average in
      let started : decode_frame pcl entropy jpeg unread d stamp
            (write_frame_header pcl c time_stamp ++ rest)
          ≡ decode_found pcl entropy jpeg d stamp
              (pcl.write_base_header c.base ++ fields pcl c time_stamp rest) =
        ap (decode_frame pcl entropy jpeg unread d stamp)
          (write_frame_header_lem pcl c time_stamp rest)
        ∙ ap (λ o. elim o [ none ↦ done none | some s ↦ decode_found pcl entropy jpeg d stamp s ])
            (identifier_found unread
              (pcl.write_base_header c.base ++ fields pcl c time_stamp rest)) in
      started
      ∙ rw
          (
            read_frame_header-written pcl c d after stamp time_stamp rest header sized small,
            entropy_decoding-vectors pcl entropy jpeg coder c (prepared d after c) average vectors
                fits refl (header.color ∙ color) color,
          )
          refl

  color_decoding_lem :
      (f : Codec B) (jp : ColorCodingJpeg)
      → (f.color_coding_type == 0) ≡ false
      → initialize_decoding jpeg f.jp_color_coder ≡ done jp
      → color_decoding pcl entropy jpeg f ≡ done (record f { jp_color_coder = jp })
  unfolding color_decoding
  color_decoding_lem f jp by_jpeg e = rw (by_jpeg, e) refl

  -- What a decoder has of an encoder after its frame.
  pub record Restored {κ} (Near : ℕ → ℕ → Type κ) (c d : Codec B) (unread stamp time_stamp : ℕ)
      : Type κ where
    pub encoder : Codec B
    pub bytes : List ℕ
    pub decoder : Codec B
    pub encoded : encode_frame pcl entropy jpeg c time_stamp ≡ done (encoder, bytes)
    pub decoded :
        decode_frame pcl entropy jpeg unread d stamp bytes ≡ done (some (decoder, time_stamp, []))
    pub tree : decoder.binary_tree_data_vector ≡ c.binary_tree_data_vector
    pub centroids : c.do_voxel_centroid ≡ true → decoder.centroid_diff ≡ c.centroid_diff
    pub resolution : decoder.octree_resolution ≡ c.octree_resolution
    pub grid : decoder.do_voxel_grid ≡ c.do_voxel_grid
    pub colors :
        Keeps jpeg Near c.jp_color_coder.point_avg_color_data_vector
          decoder.jp_color_coder.point_avg_color_data_vector

  module _ {κ} (Near : ℕ → ℕ → Type κ) (c d : Codec B) (after : B) (unread stamp time_stamp : ℕ)
      (coder : EntropyReadsBack entropy) (header : HeaderReadsBack pcl c.base d.base after)
      (sized : IsSized c) (vectors : AreSized c) (small : time_stamp < 256 ^ 8)
      (color : pcl.cloud_with_color c.base ≡ true)
      (by_jpeg : (c.color_coding_type == 0) ≡ false) where
    restored :
        (r : Decoded jpeg Near c.jp_color_coder
          (new_coder (pos 75) (mapping_type c.color_coding_type)))
        → length r.encoder.point_avg_color_data_vector < 256 ^ 8
        → Restored Near c d unread stamp time_stamp
    unfolding coded_average
    restored r fits =
        let average = r.encoder.point_avg_color_data_vector in
        let coded : coded_average pcl entropy jpeg c
            ≡ done (record c { jp_color_coder = r.encoder }, average) =
          rw (by_jpeg, r.encoded) refl in
        let coder_prepared : (with_vectors (prepared d after c) c average).jp_color_coder
            ≡ with_average (new_coder (pos 75) (mapping_type c.color_coding_type)) average =
          rw by_jpeg refl in
        record {
          encoder = _;
          bytes = _;
          decoder = record (with_vectors (prepared d after c) c average) {
            jp_color_coder = r.decoder;
          };
          encoded = encode_frame_lem c _ average time_stamp color coded;
          decoded =
              decode_frame_lem c d after unread stamp time_stamp average coder header sized vectors
                fits small color
              ∙ ap (λ o. o >>= λ f. done (some (f, time_stamp, [])))
                  (color_decoding_lem (with_vectors (prepared d after c) c average) r.decoder
                    by_jpeg (ap (initialize_decoding jpeg) coder_prepared ∙ r.decoded));
          tree = refl;
          centroids = λ h. rw h refl;
          resolution = refl;
          grid = refl;
          colors = r.kept;
        }

-- A frame of an encoder that codes its colours by JPEG is found and read by a decoder, with the
-- same tree, centroids and resolution, the time stamp, and colours that begin with ones near to
-- those of the encoder; nothing of the stream is left. The entropy coder and the header of PCL
-- read back what they write, the JPEG library keeps bytes near, the numbers and vectors fit their
-- types, the cloud has colours, and there are as many of them as the JPEG coder takes.
pub decode_frame-encode_frame {κ} :
    {B : Type 0} (pcl : BaseCodec B) (entropy : EntropyCoder) (jpeg : Libjpeg)
    (Near : ℕ → ℕ → Type κ) (c d : Codec B) (after : B) (unread stamp time_stamp : ℕ)
    → EntropyReadsBack entropy
    → HeaderReadsBack pcl c.base d.base after
    → IsLossy jpeg Near
    → ((b : ℕ) → Near b b)
    → IsSized c
    → AreSized c
    → time_stamp < 256 ^ 8
    → pcl.cloud_with_color c.base ≡ true
    → (c.color_coding_type == 0) ≡ false
    → c.jp_color_coder.mapping_mode ≡ mapping_type c.color_coding_type
    → c.jp_color_coder.needs_jpeg_encoding_avg ≡ true
    → length c.jp_color_coder.point_avg_color_data_vector % 3 ≡ 0
    → 0 < length c.jp_color_coder.point_avg_color_data_vector
    → length c.jp_color_coder.point_avg_color_data_vector / 3 ≤ 16_000_000
    → (c.jp_color_coder.mapping_mode ≡ lines
        → 2048 ≤ length c.jp_color_coder.point_avg_color_data_vector / 3)
    → ((jp : ColorCodingJpeg)
        → get_average_data_vector jpeg c.jp_color_coder ≡ done jp
        → length jp.point_avg_color_data_vector < 256 ^ 8)
    → Restored pcl entropy jpeg Near c d unread stamp time_stamp
decode_frame-encode_frame pcl entropy jpeg Near c d after unread stamp time_stamp coder header lossy
      same sized vectors small color by_jpeg mode needs size not_none few enough fits =
    let r =
      decoding-average jpeg Near c.jp_color_coder
        (new_coder (pos 75) (mapping_type c.color_coding_type)) lossy same needs (sym mode) size
        not_none few enough in
    restored pcl entropy jpeg Near c d after unread stamp time_stamp coder header sized vectors
      small color by_jpeg r (fits r.encoder r.encoded)
