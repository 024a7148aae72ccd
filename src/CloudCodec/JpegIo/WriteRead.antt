-- ===== src/CloudCodec/JpegIo/WriteRead.antt =====
-- An RGB image that `writeJPEG` compresses and `readJPEG` decompresses (jpeg_io.cpp).
use mathlib.Core.List.{flatten, append-nil}
use native.Mathlib.Nat.{mul-pos, mul_comm}
use mathlib.Core.Path.{subst}
use cwipc.Common.{
  ℕ, zero, suc, ◌*◌, ◌^◌, ◌≤◌, ◌<◌, ◌≡◌, refl, ap, ◌∙◌, true, false, some, List, [], ◌∷◌, ◌++◌,
  length, length-take, length-replicate, replicate, length-drop, take-append-drop, drop_all, take,
  drop, get_or, All, ◌==◌, arith,
}
use cwipc.Common.Int.{ℤ}
use cwipc.World.{done}
use cwipc.CloudCodec.Bytes.{AreNear}
use cwipc.CloudCodec.JpegIo.{
  PclImage, empty_image, Libjpeg, lines_of, write_jpeg, read_jpeg, input_format, IsLossy, resize,
  encoding_name,
}

three : 0 < 3
three = omega arith

record IsCut (stride n : ℕ) (bytes : List ℕ) : Type 0 where
  ls : List (List ℕ)
  read : lines_of stride n bytes ≡ some ls
  count : length ls ≡ n
  sizes : All (λ l. length l ≡ stride) ls
  all_bytes : flatten ls ≡ bytes

lines_of-IsCut : (stride n : ℕ) (bytes : List ℕ) → length bytes ≡ n * stride → IsCut stride n bytes
unfolding lines_of flatten
lines_of-IsCut stride zero [] e = record {
  ls = [];
  read = refl;
  count = refl;
  sizes = tt;
  all_bytes = refl;
}
lines_of-IsCut stride zero (b ∷ bytes) e = absurd (omega arith)
lines_of-IsCut stride (suc n) bytes e =
    let rest =
      lines_of-IsCut stride n (drop stride bytes) (omega (arith, length-drop stride bytes)) in
    record {
      ls = take stride bytes ∷ rest.ls;
      read = rw rest.read (ground arith);
      count = ap suc rest.count;
      sizes = (omega (arith, length-take stride bytes), rest.sizes);
      all_bytes = ap (◌++◌ (take stride bytes)) rest.all_bytes ∙ take-append-drop stride bytes;
    }

nonzero : (n : ℕ) → 0 < n → (n == 0) ≡ false
nonzero n h = ground arith

-- Data that are read in full are what the image holds.
filled_in_full :
    (read : List ℕ) (n : ℕ) → length read ≡ n → read ++ drop (length read) (resize n []) ≡ read
filled_in_full read n e =
    let zeros : List ℕ = replicate n 0 in
    ap (◌++◌ read) (
      drop_all (length read) (resize n [])
        (omega (arith, length-take n zeros, length-replicate {A = ℕ} n 0)))
    ∙ append-nil read

-- What comes back of an image of w times h pixels.
pub record ComesBack {κ} (jpeg : Libjpeg) (Near : ℕ → ℕ → Type κ) (quality : ℤ) (im : PclImage)
    : Type κ where
  pub bytes : List ℕ
  pub back : PclImage
  pub written : write_jpeg jpeg im quality [] ≡ done (true, bytes)
  pub few_bytes : im.height ≡ 1 → length bytes < 2 ^ 32
  pub read : read_jpeg jpeg bytes empty_image ≡ (true, back)
  pub same_width : back.width ≡ im.width
  pub same_height : back.height ≡ im.height
  pub near : AreNear Near im.image_data back.image_data

module _ {κ} (jpeg : Libjpeg) (Near : ℕ → ℕ → Type κ) (lossy : IsLossy jpeg Near)
    (quality : ℤ) where
  pub write_jpeg-ComesBack :
      (w h : ℕ) (bytes : List ℕ)
      → 0 < w
      → w ≤ 65500
      → 0 < h
      → h ≤ 65500
      → length bytes ≡ h * (3 * w)
      → ComesBack jpeg Near quality
          (record { width = w; height = h; step = 0; encoding = "RGB"; image_data = bytes })
  unfolding write_jpeg read_jpeg input_format
  write_jpeg-ComesBack w h bytes hw w_max hh h_max size =
      let some_data : 0 < length bytes = rw size (mul-pos hh (mul-pos three hw)) in
      let stride : w * 3 ≡ 3 * w = mul_comm w 3 in
      let r = lines_of-IsCut (3 * w) h bytes size in
      let c = lossy w h quality r.ls hw w_max hh h_max r.count r.sizes in
      let area : h * (3 * w)
          ≡ c.scan.output_width * c.scan.output_components * c.scan.output_height =
        rw (c.same_width.1, c.three, c.same_height.1, mul_comm h (3 * w), mul_comm w 3) refl in
      record {
        bytes = c.bytes;
        back = record {
          width = c.scan.image_width;
          height = c.scan.image_height;
          step = c.scan.output_components;
          encoding = encoding_name c.scan.out_color_space;
          image_data = flatten c.scan.scan_lines;
        };
        written =
            rw
              (
                nonzero (length bytes) some_data,
                nonzero w hw,
                nonzero h hh,
                stride,
                r.read,
                c.compressed,
              )
              refl;
        few_bytes = c.few_bytes;
        read =
            rw
              (
                nonzero (length c.bytes) c.some_bytes,
                c.decompressed,
                c.finished,
                filled_in_full (flatten c.scan.scan_lines) _
                    (c.same_size ∙ ap length r.all_bytes ∙ size ∙ area),
              )
              refl;
        same_width = c.same_width.0;
        same_height = c.same_height.0;
        near = record {
          same_size = c.same_size ∙ ap length r.all_bytes;
          near =
              subst
                (λ bs.
                  (q : ℕ)
                  → q < length bs
                  → Near (get_or bs q 0) (get_or (flatten c.scan.scan_lines) q 0))
                r.all_bytes c.near;
        };
      }
