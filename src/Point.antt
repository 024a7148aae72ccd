-- ===== src/Point.antt =====
-- The two representations of a point: `struct cwipc_point` (cwipc_util/include/cwipc_util/api.h) and
-- `cwipc_pcl_point` (cwipc_util/include/cwipc_util/api_pcl.h). Colours, tile numbers and masks are
-- bytes; the second type stores the four bytes b, g, r and a as the word `rgba`.
pub mod Encoding
use cwipc.Common.{ℕ, ◌+◌, ◌*◌, ◌/◌, ◌%◌, ◌^◌, ◌<◌}
use cwipc.Float32.{Float32, zero_f}

-- `struct cwipc_point`, of 16 bytes.
pub record Point : Type 0 where
  pub x : Float32
  pub y : Float32
  pub z : Float32
  pub r : ℕ
  pub g : ℕ
  pub b : ℕ
  pub tile : ℕ

-- `cwipc_pcl_point`. The fourth coordinate is always 1.
pub record PclPoint : Type 0 where
  pub x : Float32
  pub y : Float32
  pub z : Float32
  pub r : ℕ
  pub g : ℕ
  pub b : ℕ
  pub a : ℕ

abbrev pub sizeof_point : ℕ
sizeof_point = 16

-- The point that the constructor without arguments makes.
abbrev pub new_pcl_point : PclPoint
new_pcl_point = record { x = zero_f; y = zero_f; z = zero_f; r = 0; g = 0; b = 0; a = 0 }

-- The body of the loop of `cwipc_impl::from_points`, and that of `cwipc_impl::copy_uncompressed`.
abbrev pub to_pcl : Point → PclPoint
to_pcl p = record { x = p.x; y = p.y; z = p.z; r = p.r; g = p.g; b = p.b; a = p.tile }

abbrev pub of_pcl : PclPoint → Point
of_pcl p = record { x = p.x; y = p.y; z = p.z; r = p.r; g = p.g; b = p.b; tile = p.a }

-- The union with the four colour bytes: reading and writing the word.
unfoldable pub get_rgba : PclPoint → ℕ
get_rgba p = p.b + 2 ^ 8 * p.g + 2 ^ 16 * p.r + 2 ^ 24 * p.a

unfoldable pub set_rgba : ℕ → PclPoint → PclPoint
set_rgba w p = record p {
  b = w % 2 ^ 8;
  g = w / 2 ^ 8 % 2 ^ 8;
  r = w / 2 ^ 16 % 2 ^ 8;
  a = w / 2 ^ 24 % 2 ^ 8;
}

-- The fields fit their machine types.
pub record Fits (p : Point) : Type 0 where
  pub x_lt : p.x < 2 ^ 32
  pub y_lt : p.y < 2 ^ 32
  pub z_lt : p.z < 2 ^ 32
  pub r_lt : p.r < 2 ^ 8
  pub g_lt : p.g < 2 ^ 8
  pub b_lt : p.b < 2 ^ 8
  pub tile_lt : p.tile < 2 ^ 8
