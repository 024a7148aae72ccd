-- ===== src/Config/RealSense/RoundTrip.antt =====
-- A configuration that is written by cwipc_realsense2/src/RS2Config.cpp is read back.

use text.Mathlib.TextEquality.{eq_iff}
use cwipc.Common.{◌≡◌, refl, ◌∙◌, Bool, true, false, some, List, [], map, String, if◌then◌else◌}
use cwipc.Common.Int.{pos}
use cwipc.Config.{Json, ◌>>◌, object, list}
use cwipc.Config.Laws.{IsJson}
use cwipc.Config.Steps.{
  both, into_part, at_member, contained, base_lem, check_accepts, check_refuses, read_each-map,
}
use cwipc.Config.Camera.RoundTrip.{type_of}
use cwipc.Config.RealSense.{CaptureConfig, CameraConfig}
use cwipc.Config.RealSense.Sections.{
  sync_lem, hardware_lem, processing_lem, filtering_lem, system_lem, camera_read, restored_one,
  restored_cameras,
}
use cwipc.Config.RealSense.Read.{read_camera, all_cameras, from_json}
use cwipc.Config.RealSense.Write.{
  sync_json, hardware_json, processing_json, filtering_json, system_json, camera_to_json, to_json,
}
use cwipc.Config.RealSense.Text.{from_string, from_file, to_string}

module _ {V : Type 0} (json : Json V) (laws : IsJson json) where
  cameras_lem :
      (for_recording : Bool) (ks : List CameraConfig) (d : CaptureConfig)
      → all_cameras json
          (list json (map (λ k. object json (camera_to_json json for_recording k)) ks))
          d
        ≡ (record d { all_camera_configs = restored_cameras json laws for_recording ks }, true)
  unfolding ◌>>◌ all_cameras
  cameras_lem for_recording ks d =
      rw (laws.list_elements (map (λ k. object json (camera_to_json json for_recording k)) ks)) (
        read_each-map json (read_camera json)
          (λ k. object json (camera_to_json json for_recording k))
          (restored_one json laws for_recording) (λ l. record d { all_camera_configs = l })
          (λ k l. camera_read json laws for_recording k (record d { all_camera_configs = l })) ks
          [])

  record HasSections (for_recording : Bool) (c : CaptureConfig) (v : V) : Type 0 where
    has_type :
        json.member v "type"
        ≡ some (json.of_string (type_of "realsense_playback" for_recording c.type))
    version : json.member v "version" ≡ some (json.of_int (pos 5))
    system : json.member v "system" ≡ some (object json (system_json json for_recording c))
    sync : json.member v "sync" ≡ some (object json (sync_json json c.sync))
    hardware : json.member v "hardware" ≡ some (object json (hardware_json json c.hardware))
    processing : json.member v "processing" ≡ some (object json (processing_json json c.processing))
    filtering : json.member v "filtering" ≡ some (object json (filtering_json json c.filtering))
    camera :
        json.member v "camera"
        ≡ some (
            list json
              (map (λ k. object json (camera_to_json json for_recording k)) c.all_camera_configs))

  to_json-HasSections :
      (for_recording : Bool) (c : CaptureConfig)
      → HasSections for_recording c (object json (to_json json for_recording c))
  unfolding to_json
  to_json-HasSections true c = record {
    has_type = laws.member (to_json json true c) "type";
    version = laws.member (to_json json true c) "version";
    system = laws.member (to_json json true c) "system";
    sync = laws.member (to_json json true c) "sync";
    hardware = laws.member (to_json json true c) "hardware";
    processing = laws.member (to_json json true c) "processing";
    filtering = laws.member (to_json json true c) "filtering";
    camera = laws.member (to_json json true c) "camera";
  }
  to_json-HasSections false c = record {
    has_type = laws.member (to_json json false c) "type";
    version = laws.member (to_json json false c) "version";
    system = laws.member (to_json json false c) "system";
    sync = laws.member (to_json json false c) "sync";
    hardware = laws.member (to_json json false c) "hardware";
    processing = laws.member (to_json json false c) "processing";
    filtering = laws.member (to_json json false c) "filtering";
    camera = laws.member (to_json json false c) "camera";
  }

  -- What is read back: the members that are not written are those of the object that reads.
  abbrev pub restored : Bool → CaptureConfig → CaptureConfig → CaptureConfig
  restored for_recording c old = record c {
    type = type_of "realsense_playback" for_recording c.type;
    record_to_directory = if for_recording then "" else c.record_to_directory;
    playback_loop = old.playback_loop;
    all_camera_configs = restored_cameras json laws for_recording c.all_camera_configs;
  }

  from_json-to_json :
      (for_recording : Bool) (c old : CaptureConfig)
      → from_json json (object json (to_json json for_recording c)) old
        ≡ (restored for_recording c old, true)
  unfolding from_json
  from_json-to_json for_recording c old =
      let v : V = object json (to_json json for_recording c) in
      let h = to_json-HasSections for_recording c in
      both _ _
        (both _ _
          (both _ _
            (both _ _
              (both _ _
                (both _ _
                  (base_lem json v _ old (type_of "realsense_playback" for_recording c.type) laws
                    h.has_type)
                  (at_member json v "system" _ _ h.system (system_lem json laws for_recording c _)))
                (contained json v "sync" _ _ h.sync
                  (into_part _ _ _ _ (sync_lem json laws c.sync _))))
              (contained json v "hardware" _ _ h.hardware
                (into_part _ _ _ _ (hardware_lem json laws c.hardware _))))
            (contained json v "processing" _ _ h.processing
              (into_part _ _ _ _ (processing_lem json laws c.processing _))))
          (contained json v "filtering" _ _ h.filtering
            (into_part _ _ _ _ (filtering_lem json laws c.filtering _))))
        (at_member json v "camera" _ _ h.camera (cameras_lem for_recording c.all_camera_configs _))

  -- If the JSON library keeps what it is given, and parses what it prints for this configuration,
  -- a file with a RealSense configuration that to_string wrote, for a recording or not, is read
  -- back by from_file with the type that was written: with every member, but for playback_loop,
  -- which is not written and stays as it was, the cameras, which are not connected and have as
  -- positions the last columns of their matrices with the signs flipped, and, for a recording,
  -- the types and the empty directory.
  pub from_file-to_string :
      (for_recording : Bool) (c old : CaptureConfig)
      → json.parse (to_string json for_recording c)
        ≡ some (object json (to_json json for_recording c))
      → from_file json
          (some (to_string json for_recording c))
          (type_of "realsense_playback" for_recording c.type)
          old
        ≡ (restored for_recording c old, true)
  unfolding from_file
  from_file-to_string for_recording c old parsed =
      let h = to_json-HasSections for_recording c in
      let type : String = type_of "realsense_playback" for_recording c.type in
      rw parsed (
        check_accepts json _ _ (object json (to_json json for_recording c)) _ (pos 5) type old laws
          h.version h.has_type refl ((eq_iff type type).1 refl)
        ∙ from_json-to_json for_recording c old)

  -- If the JSON library keeps what it is given, and parses what it prints for this configuration,
  -- from_string of RealSense refuses every text that to_string writes, whatever type is wanted,
  -- and changes nothing.
  pub from_string-refuses_to_string :
      (for_recording : Bool) (c old : CaptureConfig) (type_wanted : String)
      → json.parse (to_string json for_recording c)
        ≡ some (object json (to_json json for_recording c))
      → from_string json (to_string json for_recording c) type_wanted old ≡ (old, false)
  unfolding from_string
  from_string-refuses_to_string for_recording c old type_wanted parsed =
      let h = to_json-HasSections for_recording c in
      rw parsed (
        check_refuses json _ _ (object json (to_json json for_recording c)) _ (pos 5) old laws
          h.version refl)
