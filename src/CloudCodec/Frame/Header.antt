-- ===== src/CloudCodec/Frame/Header.antt =====
-- A frame header that is written and read back (point_cloud_codec_v2_impl.hpp).
use cwipc.Common.{
  ℕ, ◌^◌, ◌<◌, ◌≡◌, refl, arith, Bool, true, false, List, ◌++◌, drop_all, if◌then◌else◌,
}
use mathlib.Core.List.{append-nil, append_assoc}
use native.Mathlib.Nat.{le_of_eq}
use cwipc.Words.{le_bytes, length-le_bytes, le_value-le_bytes, take_front, drop_front}
use cwipc.CloudCodec.Frame.{
  BaseCodec, Codec, flag_byte, read_number, read_flag, write_frame_header, read_frame_header,
  frame_header_identifier,
}

pub read_number-le_bytes :
    (n old v : ℕ) (rest : List ℕ)
    → v < 256 ^ n
    → read_number n old (le_bytes n v ++ rest) ≡ (v, rest)
unfolding read_number
read_number-le_bytes n old v rest h =
    let size = length-le_bytes n v in
    rw
      (
        take_front n (le_bytes n v) rest size,
        drop_front n (le_bytes n v) rest size,
        size,
        drop_all n (le_bytes n old) (le_of_eq (length-le_bytes n old)),
        append-nil (le_bytes n v),
        le_value-le_bytes n v h,
      )
      refl

pub read_flag-flag_byte :
    (old b : Bool) (rest : List ℕ) → read_flag old (flag_byte b ++ rest) ≡ (b, rest)
unfolding read_flag
read_flag-flag_byte old true rest =
    rw (read_number-le_bytes 1 (if old then 1 else 0) 1 rest (omega arith)) refl
read_flag-flag_byte old false rest =
    rw (read_number-le_bytes 1 (if old then 1 else 0) 0 rest (omega arith)) refl

-- The numbers fit their types.
pub record IsSized {B : Type 0} (c : Codec B) : Type 0 where
  pub octree_resolution : c.octree_resolution < 256 ^ 8
  pub color_bit_resolution : c.color_bit_resolution < 256 ^ 1
  pub jpeg_quality : c.jpeg_quality < 256 ^ 4
  pub color_coding_type : c.color_coding_type < 256 ^ 4
  pub macroblock_size : c.macroblock_size < 256 ^ 4

module _ {B : Type 0} (pcl : BaseCodec B) where
  -- The codec d with the members of c that a header holds.
  abbrev pub with_header : Codec B → B → Codec B → Codec B
  with_header d base c = record d {
    base = base;
    octree_resolution = c.octree_resolution;
    color_bit_resolution = c.color_bit_resolution;
    jpeg_quality = c.jpeg_quality;
    do_voxel_centroid = c.do_voxel_centroid;
    do_connectivity = c.do_connectivity;
    create_scalable_bitstream = c.create_scalable_bitstream;
    color_coding_type = c.color_coding_type;
    macroblock_size = c.macroblock_size;
    do_icp_color_offset = c.do_icp_color_offset;
  }

  -- What the documentation of PCL says of its header: reading finds what was written.
  pub record HeaderReadsBack (b before after : B) : Type 0 where
    pub read :
        (rest : List ℕ)
        → pcl.read_base_header before (pcl.sync_base_header (pcl.write_base_header b ++ rest))
          ≡ (after, rest)
    pub color : pcl.data_with_color after ≡ pcl.cloud_with_color b

  -- The header after its identifier and that of the base codec, with what follows.
  pub fields : Codec B → ℕ → List ℕ → List ℕ
  fields c time_stamp rest =
      le_bytes 8 time_stamp
      ++ (le_bytes 8 c.octree_resolution
          ++ (le_bytes 1 c.color_bit_resolution
              ++ (le_bytes 4 c.jpeg_quality
                  ++ (flag_byte c.do_voxel_centroid
                      ++ (flag_byte c.do_connectivity
                          ++ (flag_byte c.create_scalable_bitstream
                              ++ (le_bytes 4 c.color_coding_type
                                  ++ (le_bytes 4 c.macroblock_size
                                      ++ (flag_byte c.do_icp_color_offset ++ rest)))))))))

  pub write_frame_header_lem :
      (c : Codec B) (time_stamp : ℕ) (rest : List ℕ)
      → write_frame_header pcl c time_stamp ++ rest
        ≡ frame_header_identifier ++ (pcl.write_base_header c.base ++ fields c time_stamp rest)
  unfolding write_frame_header fields
  write_frame_header_lem c time_stamp rest = simp append_assoc refl

  pub read_frame_header-written :
      (c d : Codec B) (after : B) (stamp time_stamp : ℕ) (rest : List ℕ)
      → HeaderReadsBack c.base d.base after
      → IsSized c
      → time_stamp < 256 ^ 8
      → read_frame_header pcl d stamp
          (pcl.sync_base_header (pcl.write_base_header c.base ++ fields c time_stamp rest))
        ≡ (with_header d after c, time_stamp, rest)
  unfolding fields read_frame_header
  read_frame_header-written c d after stamp time_stamp rest reads sized fits =
      rw
        (
          reads.read,
          read_number-le_bytes 8 stamp time_stamp _ fits,
          read_number-le_bytes 8 d.octree_resolution c.octree_resolution _ sized.octree_resolution,
          read_number-le_bytes 1 d.color_bit_resolution c.color_bit_resolution _
              sized.color_bit_resolution,
          read_number-le_bytes 4 d.jpeg_quality c.jpeg_quality _ sized.jpeg_quality,
          read_flag-flag_byte d.do_voxel_centroid c.do_voxel_centroid,
          read_flag-flag_byte d.do_connectivity c.do_connectivity,
          read_flag-flag_byte d.create_scalable_bitstream c.create_scalable_bitstream,
          read_number-le_bytes 4 d.color_coding_type c.color_coding_type _ sized.color_coding_type,
          read_number-le_bytes 4 d.macroblock_size c.macroblock_size _ sized.macroblock_size,
          read_flag-flag_byte d.do_icp_color_offset c.do_icp_color_offset,
        )
        refl
