-- ===== src/CloudCodec/Frame.antt =====
-- The layout of a frame (cwipc_codec/cloud_codec_v2/include/pcl/cloud_codec_v2/impl/
-- point_cloud_codec_v2_impl.hpp): the search for its start, its header, and the entropy coded vectors.
-- The base codec of PCL with its header, and the entropy coder, are parameters. The voxels are encoded
-- with their average colours, so the colours of the single points are not among the vectors here.
pub mod Sync
pub mod Header
pub mod Vectors
pub mod RoundTrip
pub mod Whole
use Prim.Native.Char.{code}
use cwipc.Common.{
  ℕ, zero, suc, Bool, true, false, not, Option, none, some, List, [], ◌∷◌, ◌++◌, length, take, drop,
  get_or, ◌==◌, ◌&&◌, ltb, if◌then◌else◌,
}
use cwipc.Words.{le_bytes, le_value}
use cwipc.World.{Outcome, done, undefined}
use cwipc.CloudCodec.JpegIo.{Libjpeg}
use cwipc.CloudCodec.ColorJpeg.{ColorCodingJpeg, get_average_data_vector, with_average, ◌>>=◌}

-- The characters of `frame_header_identifier_`, "<PCL-OCT-CODECV2-COMPRESSED>".
abbrev pub frame_header_identifier : List ℕ
frame_header_identifier =
    60 ∷ 80 ∷ 67 ∷ 76 ∷ 45 ∷ 79 ∷ 67 ∷ 84 ∷ 45 ∷ 67 ∷ 79 ∷ 68 ∷ 69 ∷ 67 ∷ 86 ∷ 50 ∷ 45 ∷ 67 ∷ 79
    ∷ 77 ∷ 80 ∷ 82 ∷ 69 ∷ 83 ∷ 83 ∷ 69 ∷ 68 ∷ 62 ∷ []

-- The loop of `syncToHeader` at `header_id_pos`, over an identifier: what follows it, or none. The end of the
-- stream is tested before a character is read: the one that could not be read is compared too, where it
-- has the value `unread`, and the loop ends after it.
unfoldable pub sync_from : List ℕ → ℕ → ℕ → List ℕ → Option (List ℕ)
sync_from identifier unread pos [] =
    if ltb pos (length identifier)
    then (if unread == get_or identifier pos 0 && suc pos == length identifier
        then some []
        else none)
    else some []
sync_from identifier unread pos (c ∷ ss) =
    let matched = sync_from identifier unread (suc pos) ss in
    let restarted = sync_from identifier unread 1 ss in
    let reset = sync_from identifier unread 0 ss in
    if ltb pos (length identifier)
    then if c == get_or identifier pos 0
      then matched
      else if c == get_or identifier 0 0
      then restarted
      else reset
    else some (c ∷ ss)

-- The class `OctreePointCloudCompression` of PCL: its header, for its members of type `B`.
pub record BaseCodec (B : Type 0) : Type 0 where
  pub write_base_header : B → List ℕ
  pub sync_base_header : List ℕ → List ℕ
  pub read_base_header : B → List ℕ → B × List ℕ
  pub cloud_with_color : B → Bool
  pub data_with_color : B → Bool

-- `StaticRangeCoder` of PCL: a vector in the stream, and the vector of a given size, with what follows.
pub record EntropyCoder : Type 0 where
  pub encode_char_vector : List ℕ → List ℕ
  pub decode_char_vector : ℕ → List ℕ → List ℕ × List ℕ
  pub encode_int_vector : List ℕ → List ℕ
  pub decode_int_vector : ℕ → List ℕ → List ℕ × List ℕ

-- The members of `OctreePointCloudCodecV2` that are written and read: numbers by their bytes in memory.
pub record Codec (B : Type 0) : Type 0 where
  pub base : B
  pub octree_resolution : ℕ
  pub color_bit_resolution : ℕ
  pub jpeg_quality : ℕ
  pub do_voxel_centroid : Bool
  pub do_connectivity : Bool
  pub create_scalable_bitstream : Bool
  pub color_coding_type : ℕ
  pub macroblock_size : ℕ
  pub do_icp_color_offset : Bool
  pub do_voxel_grid : Bool
  pub binary_tree_data_vector : List ℕ
  pub centroid_diff : List ℕ
  pub color_average : List ℕ
  pub jp_color_coder : ColorCodingJpeg
  pub point_count_data_vector : List ℕ
  pub point_diff : List ℕ
  pub color_diff : List ℕ
  pub jp_color_diff : List ℕ

abbrev pub flag_byte : Bool → List ℕ
flag_byte b = le_bytes 1 (if b then 1 else 0)

-- `istream::read` into a number of so many bytes: bytes that the stream does not hold keep their value.
unfoldable pub read_number : ℕ → ℕ → List ℕ → ℕ × List ℕ
read_number n old ss =
    let got = take n ss in (le_value (got ++ drop (length got) (le_bytes n old)), drop n ss)

unfoldable pub read_flag : Bool → List ℕ → Bool × List ℕ
read_flag old ss =
    let (byte, rest) = read_number 1 (if old then 1 else 0) ss in (not (byte == 0), rest)

module _ {B : Type 0} (pcl : BaseCodec B) where
  unfoldable pub write_frame_header : Codec B → ℕ → List ℕ
  write_frame_header c time_stamp =
      frame_header_identifier
      ++ (pcl.write_base_header c.base
          ++ (le_bytes 8 time_stamp
              ++ (le_bytes 8 c.octree_resolution
                  ++ (le_bytes 1 c.color_bit_resolution
                      ++ (le_bytes 4 c.jpeg_quality
                          ++ (flag_byte c.do_voxel_centroid
                              ++ (flag_byte c.do_connectivity
                                  ++ (flag_byte c.create_scalable_bitstream
                                      ++ (le_bytes 4 c.color_coding_type
                                          ++ (le_bytes 4 c.macroblock_size
                                              ++ flag_byte c.do_icp_color_offset))))))))))

  -- The codec and the time stamp as they are left, and the rest of the stream.
  unfoldable pub read_frame_header : Codec B → ℕ → List ℕ → Codec B × ℕ × List ℕ
  read_frame_header c time_stamp ss =
      let (base, s0) = pcl.read_base_header c.base ss in
      let (stamp, s1) = read_number 8 time_stamp s0 in
      let (resolution, s2) = read_number 8 c.octree_resolution s1 in
      let (bits, s3) = read_number 1 c.color_bit_resolution s2 in
      let (quality, s4) = read_number 4 c.jpeg_quality s3 in
      let (centroid, s5) = read_flag c.do_voxel_centroid s4 in
      let (connectivity, s6) = read_flag c.do_connectivity s5 in
      let (scalable, s7) = read_flag c.create_scalable_bitstream s6 in
      let (coding, s8) = read_number 4 c.color_coding_type s7 in
      let (macroblock, s9) = read_number 4 c.macroblock_size s8 in
      let (icp, rest) = read_flag c.do_icp_color_offset s9 in
      (
        record c {
          base = base;
          octree_resolution = resolution;
          color_bit_resolution = bits;
          jpeg_quality = quality;
          do_voxel_centroid = centroid;
          do_connectivity = connectivity;
          create_scalable_bitstream = scalable;
          color_coding_type = coding;
          macroblock_size = macroblock;
          do_icp_color_offset = icp;
        },
        stamp,
        rest,
      )
