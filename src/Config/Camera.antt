-- ===== src/Config/Camera.antt =====
-- `CwipcBaseCameraConfig` of capturers.hpp. A transformation is the 4 rows of its matrix.
pub mod RoundTrip
use text.Mathlib.Text.{◌==◌ as str_eq}
use cwipc.Common.{
  ℕ, Bool, true, false, not, ◌||◌, ◌&&◌, Option, none, some, List, [], ◌∷◌, ◌++◌, String, ◌==◌,
  if◌then◌else◌, map, ltb, ◌+◌, ◌%◌, ◌^◌,
}
use cwipc.Config.{Json, Reader, ◌>>◌, pure, throw, modify, either, get_to, json_get, at, object}

abbrev pub Row : Type 0
Row = ℕ × ℕ × ℕ × ℕ

abbrev pub Trafo : Type 0
Trafo = Row × Row × Row × Row

pub record CameraConfig : Type 0 where
  pub type : String
  pub disabled : Bool
  pub connected : Bool
  pub serial : String
  pub filename : String
  pub trafo : Trafo
  pub cameraposition : ℕ × ℕ × ℕ

-- The bit patterns of 0.0 and 1.0.
abbrev pub identity : Trafo
identity =
    let one : ℕ = 0x3FF0_0000_0000_0000 in
    ((one, 0, 0, 0), (0, one, 0, 0), (0, 0, one, 0), (0, 0, 0, one))

-- A new object, whose matrix is not yet made.
abbrev pub new_camera_config : CameraConfig
new_camera_config = record {
  type = "";
  disabled = false;
  connected = false;
  serial = "";
  filename = "";
  trafo = identity;
  cameraposition = (0, 0, 0);
}

-- A `double`, by its bit pattern, that is neither 0.0 nor -0.0.
abbrev pub is_nonzero : ℕ → Bool
is_nonzero d = not (d == 0) && not (d == 0x8000_0000_0000_0000)

-- Minus a `double`.
abbrev pub neg_d : ℕ → ℕ
neg_d d = if ltb d (2 ^ 63) then d + 2 ^ 63 else d % 2 ^ 63

infixl 5 ◌>>=◌
abbrev ◌>>=◌ {ℓ κ} : {A : Type ℓ} {B : Type κ} → Option A → (A → Option B) → Option B
none >>= k = none
some a >>= k = k a

abbrev pub moved_to : CameraConfig → CameraConfig
moved_to c =
    let ((x0, x1, x2, x), (y0, y1, y2, y), (z0, z1, z2, z), w) = c.trafo in
    record c { cameraposition = (neg_d x, neg_d y, neg_d z) }

module _ {V : Type 0} (json : Json V) where
  cell : V → ℕ → ℕ → Option ℕ
  cell rows x y = do row ← json.index rows x; v ← json.index row y; json.get_double v

  read_row : V → ℕ → Option Row
  unfolding cell
  read_row rows x = do
    a ← cell rows x 0
    b ← cell rows x 1
    c ← cell rows x 2
    d ← cell rows x 3
    some (a, b, c, d)

  unfoldable pub read_trafo : V → Option Trafo
  unfolding read_row
  read_trafo rows = do
    a ← read_row rows 0
    b ← read_row rows 1
    c ← read_row rows 2
    d ← read_row rows 3
    some (a, b, c, d)

  abbrev row_json : Row → V
  row_json (a, b, c, d) =
      json.array (json.of_double a ∷ json.of_double b ∷ json.of_double c ∷ json.of_double d ∷ [])

  abbrev trafo_json : Trafo → V
  trafo_json (a, b, c, d) = json.array (row_json a ∷ row_json b ∷ row_json c ∷ row_json d ∷ [])

  read_filename : V → Reader CameraConfig
  read_filename json_data =
      either (json.member json_data "filename")
        (json_get json json.get_string json_data "playback_filename"
          (λ v c. record c { filename = v }))
        (λ x. get_to json json.get_string x (λ v c. record c { filename = v }))

  -- A matrix that cannot be read leaves the old one here. The code leaves a new one, partly filled, in
  -- an object that is then dropped.
  read_position : V → Reader CameraConfig
  read_position json_data =
      either (json.member json_data "trafo") (modify (λ c. record c { trafo = identity }))
        (λ x. get_to json read_trafo x (λ v c. record c { trafo = v }))

  -- The members that are assigned, in their order.
  unfoldable pub to_json : CameraConfig → List (String × V)
  to_json c =
      let (x, y, z) = c.cameraposition in
      ("type", json.of_string c.type)
      ∷ ("serial", json.of_string c.serial)
      ∷ ("disabled", json.of_bool c.disabled)
      ∷ ((if not (str_eq c.filename "") then ("filename", json.of_string c.filename) ∷ [] else [])
          ++ ((if is_nonzero x || is_nonzero y || is_nonzero z
                then ("_cameraposition", json.array (map (λ d. json.of_double d) (x ∷ y ∷ z ∷ [])))
                  ∷ []
                else [])
              ++ ("trafo", trafo_json c.trafo) ∷ []))

  unfoldable pub from_json : V → Reader CameraConfig
  unfolding read_filename read_position
  from_json json_data =
      at json json_data "type" (λ x. get_to json json.get_string x (λ v c. record c { type = v }))
      >> json_get json json.get_string json_data "serial" (λ v c. record c { serial = v })
      >> json_get json json.get_bool json_data "disabled" (λ v c. record c { disabled = v })
      >> read_filename json_data
      >> read_position json_data
      >> modify moved_to
