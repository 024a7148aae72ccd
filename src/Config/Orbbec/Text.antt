-- ===== src/Config/Orbbec/Text.antt =====
-- `from_file`, `from_string` and `to_string` of cwipc_orbbec/src/OrbbecConfig.cpp.
use text.Mathlib.Text.{◌==◌ as str_eq}
use cwipc.Common.{Bool, Option, none, String}
use cwipc.Config.{Json, Reader, either, object, read_checked, is_number}
use cwipc.Config.Orbbec.{CaptureConfig}
use cwipc.Config.Orbbec.Read.{from_json}
use cwipc.Config.Orbbec.Write.{to_json}

module _ {V : Type 0} (json : Json V) where
  unfoldable pub to_string : Bool → CaptureConfig → String
  to_string for_recording c = json.dump (object json (to_json json for_recording c))

module _ {V : Type 0} (json : Json V) where
  -- The content of a file, `none` for one that cannot be opened.
  unfoldable pub from_file : Option String → String → Reader CaptureConfig
  from_file content type_wanted =
      read_checked json (is_number 5) (λ type. str_eq type type_wanted)
        (either content none json.parse) (λ version. from_json json)

  unfoldable pub from_string : String → String → Reader CaptureConfig
  from_string text type_wanted =
      read_checked json (is_number 5) (λ type. str_eq type type_wanted) (json.parse text)
        (λ version. from_json json)
