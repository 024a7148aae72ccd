-- ===== src/Config/RealSense/Sections.antt =====
-- A configuration that of a configuration that is written by cwipc_realsense2/src/RS2Config.cpp is read back, section by section.

use cwipc.Common.{
  ◌≡◌, refl, sym, ap, ◌∙◌, Bool, true, false, not, Bool-cases, inl, inr, none, some, List, [], ◌∷◌,
  ◌++◌, map, String, if◌then◌else◌,
}
use cwipc.Common.Int.{pos}
use cwipc.Config.{Json, ◌>>◌, json_get, is_number, object, recording_type}
use cwipc.Config.Laws.{IsJson, last_value}
use cwipc.Config.Steps.{both, into_part, is_number_lem}
use cwipc.Config.Camera
use cwipc.Config.Camera.{new_camera_config}
use cwipc.Config.Camera.RoundTrip.{
  restored as restored_camera, from_json-to_json as camera_lem, Renames, renames, type_of,
  not_of_camera,
}
use cwipc.Config.RealSense.{
  SyncConfig, HardwareConfig, ProcessingConfig, FilteringConfig, CaptureConfig, CameraConfig,
}
use cwipc.Config.RealSense.Read.{
  read_sync, read_hardware, read_processing, read_filtering, read_system, read_camera,
  camera_from_json,
}
use cwipc.Config.RealSense.Write.{
  sync_json, hardware_json, processing_json, filtering_json, system_json, camera_to_json,
}

module _ {V : Type 0} (json : Json V) (laws : IsJson json) where
  pub sync_lem : (c d : SyncConfig) → read_sync json (object json (sync_json json c)) d ≡ (c, true)
  unfolding ◌>>◌ read_sync sync_json
  sync_lem c d = simp (laws.member, laws.int, laws.string) refl

  pub hardware_lem :
      (c d : HardwareConfig) → read_hardware json (object json (hardware_json json c)) d ≡ (c, true)
  unfolding ◌>>◌ read_hardware hardware_json
  hardware_lem c d = simp (laws.member, laws.int) refl

  pub processing_lem :
      (c d : ProcessingConfig)
      → read_processing json (object json (processing_json json c)) d ≡ (c, true)
  unfolding ◌>>◌ read_processing processing_json
  processing_lem c d = simp (laws.member, laws.int, laws.bool, laws.double) refl

  pub filtering_lem :
      (c d : FilteringConfig)
      → read_filtering json (object json (filtering_json json c)) d ≡ (c, true)
  unfolding ◌>>◌ read_filtering filtering_json
  filtering_lem c d = simp (laws.member, laws.int, laws.bool, laws.float) refl

  abbrev pub with_system : Bool → CaptureConfig → CaptureConfig → CaptureConfig
  with_system for_recording c d = record d {
    record_to_directory = if for_recording then "" else c.record_to_directory;
    playback_realtime = c.playback_realtime;
    new_timestamps = c.new_timestamps;
    debug = c.debug;
    prefer_color_timing = c.prefer_color_timing;
  }

  pub system_lem :
      (for_recording : Bool) (c d : CaptureConfig)
      → read_system json (object json (system_json json for_recording c)) d
        ≡ (with_system for_recording c d, true)
  unfolding ◌>>◌ read_system system_json
  system_lem for_recording c d = simp (laws.member, laws.bool, laws.string) refl

  abbrev pub restored_one : Bool → CameraConfig → CameraConfig
  restored_one for_recording k = record {
    base =
        restored_camera json laws k.base (type_of "realsense_playback" for_recording k.base.type);
    playback_inpoint_micros = k.playback_inpoint_micros;
  }

  abbrev pub restored_cameras : Bool → List CameraConfig → List CameraConfig
  restored_cameras for_recording = map (restored_one for_recording)

  with_inpoint : Bool → Bool → V → List (String × V)
  with_inpoint for_recording b x =
      recording_type json "realsense_playback" for_recording
      ++ (if b then ("playback_inpoint_micros", x) ∷ [] else [])

  with_inpoint-Renames :
      (for_recording b : Bool) (k : CameraConfig) (x : V)
      → Renames json laws k.base
          (type_of "realsense_playback" for_recording k.base.type)
          (with_inpoint for_recording b x)
  unfolding with_inpoint
  with_inpoint-Renames true true k x = renames json laws refl refl refl refl refl refl
  with_inpoint-Renames true false k x = renames json laws refl refl refl refl refl refl
  with_inpoint-Renames false true k x = renames json laws refl refl refl refl refl refl
  with_inpoint-Renames false false k x = renames json laws refl refl refl refl refl refl

  inpoint_of :
      (for_recording b : Bool) (x : V)
      → last_value "playback_inpoint_micros" (with_inpoint for_recording b x)
        ≡ (if b then some x else none)
  unfolding with_inpoint
  inpoint_of true true x = refl
  inpoint_of true false x = refl
  inpoint_of false true x = refl
  inpoint_of false false x = refl

  inpoint_member :
      (for_recording : Bool) (k : CameraConfig)
      → json.member (object json (camera_to_json json for_recording k)) "playback_inpoint_micros"
        ≡ (if not (is_number 0 k.playback_inpoint_micros)
            then some (json.of_int k.playback_inpoint_micros)
            else none)
  unfolding camera_to_json with_inpoint
  inpoint_member for_recording k =
      not_of_camera json laws
        (with_inpoint for_recording (not (is_number 0 k.playback_inpoint_micros))
          (json.of_int k.playback_inpoint_micros))
        k.base
      ∙ inpoint_of for_recording (not (is_number 0 k.playback_inpoint_micros))
          (json.of_int k.playback_inpoint_micros)

  inpoint_lem :
      (for_recording : Bool) (k : CameraConfig) (base : Camera.CameraConfig)
      → json_get json json.get_int
          (object json (camera_to_json json for_recording k))
          "playback_inpoint_micros"
          (λ a c. record c { playback_inpoint_micros = a })
          (record { base = base; playback_inpoint_micros = pos 0 })
        ≡ (record k { base = base }, true)
  inpoint_lem for_recording k base = elim (Bool-cases (is_number 0 k.playback_inpoint_micros)) [
    | inl zero_here ↦
        let e : json.member (object json (camera_to_json json for_recording k))
              "playback_inpoint_micros"
            ≡ none =
          inpoint_member for_recording k ∙ rw zero_here refl in
        simp e (
          ap (λ i. (record { base = base; playback_inpoint_micros = i }, true))
            (sym (is_number_lem 0 k.playback_inpoint_micros zero_here)))
    | inr other ↦
        let e : json.member (object json (camera_to_json json for_recording k))
              "playback_inpoint_micros"
            ≡ some (json.of_int k.playback_inpoint_micros) =
          inpoint_member for_recording k ∙ rw other refl in
        simp (e, laws.int) refl
  ]

  base_read :
      (for_recording : Bool) (k : CameraConfig)
      → Camera.from_json json (object json (camera_to_json json for_recording k)) new_camera_config
        ≡ (
          restored_camera json laws k.base (type_of "realsense_playback" for_recording k.base.type),
          true,
        )
  unfolding camera_to_json with_inpoint
  base_read for_recording k = camera_lem json laws k.base _ _ (
      with_inpoint-Renames for_recording (not (is_number 0 k.playback_inpoint_micros)) k
        (json.of_int k.playback_inpoint_micros))

  pub camera_read :
      (for_recording : Bool) (k : CameraConfig) (d : CaptureConfig)
      → read_camera json (object json (camera_to_json json for_recording k)) d ≡ (
        record d {
          all_camera_configs = d.all_camera_configs ++ (restored_one for_recording k ∷ []);
        },
        true,
      )
  unfolding read_camera camera_from_json
  camera_read for_recording k d =
      ap
        (λ p.
          let (camera, ok) = p in
          if ok
          then (record d { all_camera_configs = d.all_camera_configs ++ (camera ∷ []) }, true)
          else (d, false))
        (both _ _ (into_part _ _ _ _ (base_read for_recording k)) (
          inpoint_lem for_recording k (
            restored_camera json laws k.base
              (type_of "realsense_playback" for_recording k.base.type))))
