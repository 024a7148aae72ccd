-- ===== src/Config/Camera/RoundTrip.antt =====
-- A camera that is written is read back.
use text.Mathlib.Text.{◌==◌ as str_eq}
use text.Mathlib.TextEquality.{eq_iff}
use cwipc.Common.{
  ℕ, ◌+◌, ◌-◌, ◌*◌, ◌/◌, ◌%◌, ◌^◌, arith, ◌≡◌, refl, sym, ap, ◌∙◌, Bool, true, false, not,
  Bool-cases, inl, inr, ◌||◌, Option, none, some, List, [], ◌∷◌, ◌++◌, map, String, if◌then◌else◌,
}
use cwipc.Config.{recording_type, either, Json, object, ◌>>◌}
use cwipc.Config.Laws.{IsJson, last_value, last_value-++, either-none}
use cwipc.Config.Camera.{
  Trafo, CameraConfig, new_camera_config, identity, is_nonzero, moved_to, neg_d, cell, read_row,
  read_trafo, trafo_json, read_filename, read_position, from_json, to_json,
}

-- The type that is written, of a configuration or a camera.
abbrev pub type_of : String → Bool → String → String
type_of name for_recording type = if for_recording then name else type

-- A `double` with its sign bit flipped and its other bits kept.
abbrev flipped : ℕ → ℕ
flipped d = (1 - d / 2 ^ 63) * 2 ^ 63 + d % 2 ^ 63

-- The last column of a matrix, less its last row, with the signs flipped.
abbrev pub position_of : Trafo → ℕ × ℕ × ℕ
position_of t = (flipped t.0.3, flipped t.1.3, flipped t.2.3)

neg_d-flipped : (d : ℕ) → neg_d d ≡ flipped d
neg_d-flipped d = ground arith

moved_to-position_of :
    (c : CameraConfig) → moved_to c ≡ record c { cameraposition = position_of c.trafo }
moved_to-position_of c =
    let ((x0, x1, x2, x), (y0, y1, y2, y), (z0, z1, z2, z), w) = c.trafo in
    rw (neg_d-flipped x, neg_d-flipped y, neg_d-flipped z) refl

module _ {V : Type 0} (json : Json V) (laws : IsJson json) where
  read_trafo-trafo_json : (t : Trafo) → read_trafo json (trafo_json json t) ≡ some t
  unfolding read_trafo read_row cell
  read_trafo-trafo_json t = simp (laws.index, laws.double) refl

  -- The members that are read.
  pub record HasMembers (c : CameraConfig) (type : String) (v : V) : Type 0 where
    pub has_type : json.member v "type" ≡ some (json.of_string type)
    pub serial : json.member v "serial" ≡ some (json.of_string c.serial)
    pub disabled : json.member v "disabled" ≡ some (json.of_bool c.disabled)
    pub filename :
        json.member v "filename"
        ≡ (if not (str_eq c.filename "") then some (json.of_string c.filename) else none)
    pub playback_filename : json.member v "playback_filename" ≡ none
    pub trafo : json.member v "trafo" ≡ some (trafo_json json c.trafo)

  abbrev pub restored : CameraConfig → String → CameraConfig
  restored c type = record c {
    type = type;
    connected = false;
    cameraposition = position_of c.trafo;
  }

  no_filename :
      (v : V) (d : CameraConfig)
      → json.member v "filename" ≡ none
      → json.member v "playback_filename" ≡ none
      → read_filename json v d ≡ (d, true)
  unfolding read_filename
  no_filename v d e e' = simp (e, e') refl

  filename_lem :
      (c : CameraConfig) (type : String) (v : V) (d : CameraConfig)
      → HasMembers c type v
      → d.filename ≡ ""
      → read_filename json v d ≡ (record d { filename = c.filename }, true)
  unfolding read_filename
  filename_lem c type v d h e = elim (Bool-cases (str_eq c.filename "")) [
    | inl empty ↦
        let none_here : json.member v "filename" ≡ none = h.filename ∙ rw empty refl in
        let nothing : c.filename ≡ "" = (eq_iff c.filename "").0 empty in
        no_filename v d none_here h.playback_filename
        ∙ ap (λ f. (record d { filename = f }, true)) (e ∙ sym nothing)
    | inr named ↦
        let here : json.member v "filename" ≡ some (json.of_string c.filename) =
          h.filename ∙ rw named refl in
        simp (here, laws.string) refl
  ]

  abbrev pub before_position : CameraConfig → String → CameraConfig
  before_position c type = record c {
    type = type;
    connected = false;
    trafo = identity;
    cameraposition = (0, 0, 0);
  }

  from_json_lem :
      (c : CameraConfig) (type : String) (v : V)
      → HasMembers c type v
      → from_json json v new_camera_config ≡ (restored c type, true)
  unfolding ◌>>◌ from_json read_position
  from_json_lem c type v h =
      let d : CameraConfig = record (before_position c type) { filename = "" } in
      let f : read_filename json v d ≡ (before_position c type, true) =
        filename_lem c type v d h refl in
      let moved : CameraConfig = record c { type = type; connected = false } in
      let read : from_json json v new_camera_config ≡ (moved_to moved, true) =
        simp
          (
            h.has_type, h.serial, h.disabled, h.trafo, laws.string, laws.bool,
            read_trafo-trafo_json, f,
          )
          refl in
      read ∙ ap (λ k. (k, true)) (moved_to-position_of moved)

  -- Members that are assigned after those of the camera leave it as it was, but for its type.
  pub record Renames (c : CameraConfig) (type : String) (more : List (String × V)) : Type 0 where
    pub has_type :
        either (last_value "type" more) (some (json.of_string c.type)) some
        ≡ some (json.of_string type)
    pub serial : last_value "serial" more ≡ none
    pub disabled : last_value "disabled" more ≡ none
    pub filename : last_value "filename" more ≡ none
    pub playback_filename : last_value "playback_filename" more ≡ none
    pub trafo : last_value "trafo" more ≡ none

  abbrev pub renames :
      {c : CameraConfig} {type : String} {more : List (String × V)}
      → either (last_value "type" more) (some (json.of_string c.type)) some
        ≡ some (json.of_string type)
      → last_value "serial" more ≡ none
      → last_value "disabled" more ≡ none
      → last_value "filename" more ≡ none
      → last_value "playback_filename" more ≡ none
      → last_value "trafo" more ≡ none
      → Renames c type more
  renames e₁ e₂ e₃ e₄ e₅ e₆ = record {
    has_type = e₁;
    serial = e₂;
    disabled = e₃;
    filename = e₄;
    playback_filename = e₅;
    trafo = e₆;
  }

  pub recording_type-Renames :
      (name : String) (for_recording : Bool) (k : CameraConfig)
      → Renames k (type_of name for_recording k.type) (recording_type json name for_recording)
  recording_type-Renames name true k = renames refl refl refl refl refl refl
  recording_type-Renames name false k = renames refl refl refl refl refl refl

  own_members : V → V → V → V → V → V → Bool → Bool → List (String × V)
  own_members t s d f p m b b' =
      ("type", t)
      ∷ ("serial", s)
      ∷ ("disabled", d)
      ∷ ((if b then ("filename", f) ∷ [] else [])
          ++ ((if b' then ("_cameraposition", p) ∷ [] else []) ++ ("trafo", m) ∷ []))

  record Found (t s d f m : V) (b : Bool) (members : List (String × V)) : Type 0 where
    type : last_value "type" members ≡ some t
    serial : last_value "serial" members ≡ some s
    disabled : last_value "disabled" members ≡ some d
    filename : last_value "filename" members ≡ (if b then some f else none)
    playback_filename : last_value "playback_filename" members ≡ none
    trafo : last_value "trafo" members ≡ some m
    inpoint : last_value "playback_inpoint_micros" members ≡ none

  abbrev found :
      {t s d f m : V} {b : Bool} {members : List (String × V)}
      → last_value "type" members ≡ some t
      → last_value "serial" members ≡ some s
      → last_value "disabled" members ≡ some d
      → last_value "filename" members ≡ (if b then some f else none)
      → last_value "playback_filename" members ≡ none
      → last_value "trafo" members ≡ some m
      → last_value "playback_inpoint_micros" members ≡ none
      → Found t s d f m b members
  found e₁ e₂ e₃ e₄ e₅ e₆ e₇ = record {
    type = e₁;
    serial = e₂;
    disabled = e₃;
    filename = e₄;
    playback_filename = e₅;
    trafo = e₆;
    inpoint = e₇;
  }

  own_members-Found :
      (t s d f p m : V) (b b' : Bool) → Found t s d f m b (own_members t s d f p m b b')
  unfolding own_members
  own_members-Found t s d f p m true true = found refl refl refl refl refl refl refl
  own_members-Found t s d f p m true false = found refl refl refl refl refl refl refl
  own_members-Found t s d f p m false true = found refl refl refl refl refl refl refl
  own_members-Found t s d f p m false false = found refl refl refl refl refl refl refl

  -- A member of the camera that is not assigned again, and one that is.
  object-member :
      (members more : List (String × V)) (name : String)
      → json.member (object json (members ++ more)) name
        ≡ either (last_value name more) (last_value name members) some
  object-member members more name =
      laws.member (members ++ more) name ∙ last_value-++ name members more

  kept :
      (members more : List (String × V)) (name : String) {o : Option V}
      → last_value name more ≡ none
      → last_value name members ≡ o
      → json.member (object json (members ++ more)) name ≡ o
  kept members more name e e' =
      object-member members more name ∙ ap (λ o. either o (last_value name members) some) e ∙ e'

  own-Found :
      (c : CameraConfig)
      → Found
          (json.of_string c.type)
          (json.of_string c.serial)
          (json.of_bool c.disabled)
          (json.of_string c.filename)
          (trafo_json json c.trafo)
          (not (str_eq c.filename ""))
          (to_json json c)
  unfolding to_json own_members
  own-Found c =
      let (x, y, z) = c.cameraposition in
      own_members-Found (json.of_string c.type) (json.of_string c.serial) (json.of_bool c.disabled)
        (json.of_string c.filename) (json.array (map json.of_double (x ∷ y ∷ z ∷ [])))
        (trafo_json json c.trafo) (not (str_eq c.filename ""))
        (is_nonzero x || is_nonzero y || is_nonzero z)

  -- A member that only the cameras of some capturers have.
  pub not_of_camera :
      (more : List (String × V)) (c : CameraConfig)
      → json.member (object json (to_json json c ++ more)) "playback_inpoint_micros"
        ≡ last_value "playback_inpoint_micros" more
  not_of_camera more c =
      object-member (to_json json c) more "playback_inpoint_micros"
      ∙ ap (λ o. either (last_value "playback_inpoint_micros" more) o some) (own-Found c).inpoint
      ∙ sym (either-none (last_value "playback_inpoint_micros" more))

  pub object-HasMembers :
      (c : CameraConfig) (type : String) (more : List (String × V))
      → Renames c type more
      → HasMembers c type (object json (to_json json c ++ more))
  object-HasMembers c type more h =
      let m : List (String × V) = to_json json c in
      let own = own-Found c in
      record {
        has_type =
            object-member m more "type"
            ∙ ap (λ o. either (last_value "type" more) o some) own.type
            ∙ h.has_type;
        serial = kept m more "serial" h.serial own.serial;
        disabled = kept m more "disabled" h.disabled own.disabled;
        filename = kept m more "filename" h.filename own.filename;
        playback_filename =
            kept m more "playback_filename" h.playback_filename own.playback_filename;
        trafo = kept m more "trafo" h.trafo own.trafo;
      }

  -- Reading a camera that was written.
  pub from_json-to_json :
      (c : CameraConfig) (type : String) (more : List (String × V))
      → Renames c type more
      → from_json json (object json (to_json json c ++ more)) new_camera_config
        ≡ (restored c type, true)
  from_json-to_json c type more h = from_json_lem c type _ (object-HasMembers c type more h)
