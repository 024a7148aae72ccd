-- ===== src/Config/Kinect/RoundTrip.antt =====
-- A configuration that is written by cwipc_kinect/src/K4AConfig.cpp is read back.

use text.Mathlib.TextEquality.{eq_iff}
use cwipc.Common.{
  ◌≡◌, refl, ◌∙◌, Bool, true, false, some, List, [], ◌∷◌, ◌++◌, map, String, if◌then◌else◌,
}
use cwipc.Common.Int.{pos}
use cwipc.Config.{Json, ◌>>◌, object, list, recording_type}
use cwipc.Config.Laws.{IsJson}
use cwipc.Config.Steps.{
  both, into_part, at_member, contained, base_lem, check_accepts, read_each-map,
}
use cwipc.Config.Camera
use cwipc.Config.Camera.{new_camera_config}
use cwipc.Config.Camera.RoundTrip.{
  restored as restored_camera, from_json-to_json as camera_lem, type_of, recording_type-Renames,
}
use cwipc.Config.Kinect.{
  SyncConfig, HardwareConfig, ProcessingConfig, FilteringConfig, SkeletonConfig, CaptureConfig,
}
use cwipc.Config.Kinect.Read.{
  read_sync, read_hardware, read_processing, read_filtering, read_skeleton, read_system,
  read_camera, all_cameras, from_json,
}
use cwipc.Config.Kinect.Write.{
  sync_json, hardware_json, processing_json, filtering_json, skeleton_json, system_json,
  camera_to_json, to_json,
}
use cwipc.Config.Kinect.Text.{from_string, to_string}

module _ {V : Type 0} (json : Json V) (laws : IsJson json) where
  sync_lem : (c d : SyncConfig) → read_sync json (object json (sync_json json c)) d ≡ (c, true)
  unfolding ◌>>◌ read_sync sync_json
  sync_lem c d = simp (laws.member, laws.bool, laws.string) refl

  hardware_lem :
      (c d : HardwareConfig)
      → read_hardware json (object json (hardware_json json c)) d ≡ (
        record c {
          color_backlight_compensation = d.color_backlight_compensation;
          color_sharpness = d.color_sharpness;
        },
        true,
      )
  unfolding ◌>>◌ read_hardware hardware_json
  hardware_lem c d = simp (laws.member, laws.int, laws.bool) refl

  processing_lem :
      (c d : ProcessingConfig)
      → read_processing json (object json (processing_json json c)) d ≡ (c, true)
  unfolding ◌>>◌ read_processing processing_json
  processing_lem c d = simp (laws.member, laws.int, laws.bool, laws.double) refl

  filtering_lem :
      (c d : FilteringConfig)
      → read_filtering json (object json (filtering_json json c)) d ≡ (c, true)
  unfolding ◌>>◌ read_filtering filtering_json
  filtering_lem c d = simp (laws.member, laws.bool, laws.double) refl

  skeleton_lem :
      (c d : SkeletonConfig) → read_skeleton json (object json (skeleton_json json c)) d ≡ (c, true)
  unfolding ◌>>◌ read_skeleton skeleton_json
  skeleton_lem c d = simp (laws.member, laws.int, laws.string) refl

  abbrev with_system : Bool → CaptureConfig → CaptureConfig → CaptureConfig
  with_system for_recording c d = record d {
    single_tile = c.single_tile;
    record_to_directory = if for_recording then "" else c.record_to_directory;
    new_timestamps = c.new_timestamps;
    debug = c.debug;
  }

  system_lem :
      (for_recording : Bool) (c d : CaptureConfig)
      → read_system json (object json (system_json json for_recording c)) d
        ≡ (with_system for_recording c d, true)
  unfolding ◌>>◌ read_system system_json
  system_lem for_recording c d = simp (laws.member, laws.int, laws.bool, laws.string) refl

  abbrev pub restored_one : Bool → Camera.CameraConfig → Camera.CameraConfig
  restored_one for_recording k =
      restored_camera json laws k (type_of "kinect_playback" for_recording k.type)

  abbrev pub restored_cameras : Bool → List Camera.CameraConfig → List Camera.CameraConfig
  restored_cameras for_recording = map (restored_one for_recording)

  camera_read :
      (for_recording : Bool) (k : Camera.CameraConfig) (d : CaptureConfig)
      → read_camera json (object json (camera_to_json json for_recording k)) d ≡ (
        record d {
          all_camera_configs = d.all_camera_configs ++ (restored_one for_recording k ∷ []);
        },
        true,
      )
  unfolding read_camera camera_to_json
  camera_read for_recording k d =
      rw
        (camera_lem json laws k (type_of "kinect_playback" for_recording k.type)
          (recording_type json "kinect_playback" for_recording)
          (recording_type-Renames json laws "kinect_playback" for_recording k))
        refl

  cameras_lem :
      (for_recording : Bool) (ks : List Camera.CameraConfig) (d : CaptureConfig)
      → all_cameras json
          (list json (map (λ k. object json (camera_to_json json for_recording k)) ks))
          d
        ≡ (record d { all_camera_configs = restored_cameras for_recording ks }, true)
  unfolding ◌>>◌ all_cameras
  cameras_lem for_recording ks d =
      rw (laws.list_elements (map (λ k. object json (camera_to_json json for_recording k)) ks)) (
        read_each-map json (read_camera json)
          (λ k. object json (camera_to_json json for_recording k)) (restored_one for_recording)
          (λ l. record d { all_camera_configs = l })
          (λ k l. camera_read for_recording k (record d { all_camera_configs = l })) ks [])

  record HasSections (for_recording : Bool) (c : CaptureConfig) (v : V) : Type 0 where
    has_type :
        json.member v "type"
        ≡ some (json.of_string (type_of "kinect_playback" for_recording c.type))
    version : json.member v "version" ≡ some (json.of_int (pos 5))
    system : json.member v "system" ≡ some (object json (system_json json for_recording c))
    sync : json.member v "sync" ≡ some (object json (sync_json json c.sync))
    hardware : json.member v "hardware" ≡ some (object json (hardware_json json c.hardware))
    processing : json.member v "processing" ≡ some (object json (processing_json json c.processing))
    filtering : json.member v "filtering" ≡ some (object json (filtering_json json c.filtering))
    skeleton : json.member v "skeleton" ≡ some (object json (skeleton_json json c.skeleton))
    camera :
        json.member v "camera"
        ≡ some (
            list json
              (map (λ k. object json (camera_to_json json for_recording k)) c.all_camera_configs))

  to_json-HasSections :
      (for_recording : Bool) (c : CaptureConfig)
      → HasSections for_recording c (object json (to_json json for_recording c))
  unfolding to_json
  to_json-HasSections true c = record {
    has_type = laws.member (to_json json true c) "type";
    version = laws.member (to_json json true c) "version";
    system = laws.member (to_json json true c) "system";
    sync = laws.member (to_json json true c) "sync";
    hardware = laws.member (to_json json true c) "hardware";
    processing = laws.member (to_json json true c) "processing";
    filtering = laws.member (to_json json true c) "filtering";
    skeleton = laws.member (to_json json true c) "skeleton";
    camera = laws.member (to_json json true c) "camera";
  }
  to_json-HasSections false c = record {
    has_type = laws.member (to_json json false c) "type";
    version = laws.member (to_json json false c) "version";
    system = laws.member (to_json json false c) "system";
    sync = laws.member (to_json json false c) "sync";
    hardware = laws.member (to_json json false c) "hardware";
    processing = laws.member (to_json json false c) "processing";
    filtering = laws.member (to_json json false c) "filtering";
    skeleton = laws.member (to_json json false c) "skeleton";
    camera = laws.member (to_json json false c) "camera";
  }

  -- What is read back: the members that are not written are those of the object that reads.
  abbrev pub restored : Bool → CaptureConfig → CaptureConfig → CaptureConfig
  restored for_recording c old = record c {
    type = type_of "kinect_playback" for_recording c.type;
    hardware = record c.hardware {
      color_backlight_compensation = old.hardware.color_backlight_compensation;
      color_sharpness = old.hardware.color_sharpness;
    };
    record_to_directory = if for_recording then "" else c.record_to_directory;
    api_debug = old.api_debug;
    all_camera_configs = restored_cameras for_recording c.all_camera_configs;
  }

  from_json-to_json :
      (for_recording : Bool) (c old : CaptureConfig)
      → from_json json (object json (to_json json for_recording c)) old
        ≡ (restored for_recording c old, true)
  unfolding from_json
  from_json-to_json for_recording c old =
      let v : V = object json (to_json json for_recording c) in
      let h = to_json-HasSections for_recording c in
      both _ _
        (both _ _
          (both _ _
            (both _ _
              (both _ _
                (both _ _
                  (both _ _
                    (base_lem json v _ old (type_of "kinect_playback" for_recording c.type) laws
                      h.has_type)
                    (at_member json v "system" _ _ h.system (system_lem for_recording c _)))
                  (contained json v "sync" _ _ h.sync (into_part _ _ _ _ (sync_lem c.sync _))))
                (contained json v "hardware" _ _ h.hardware
                  (into_part _ _ _ _ (hardware_lem c.hardware _))))
              (contained json v "processing" _ _ h.processing
                (into_part _ _ _ _ (processing_lem c.processing _))))
            (contained json v "filtering" _ _ h.filtering
              (into_part _ _ _ _ (filtering_lem c.filtering _))))
          (contained json v "skeleton" _ _ h.skeleton
            (into_part _ _ _ _ (skeleton_lem c.skeleton _))))
        (at_member json v "camera" _ _ h.camera (cameras_lem for_recording c.all_camera_configs _))

  -- If the JSON library keeps what it is given, and parses what it prints for this configuration,
  -- a Kinect configuration that to_string writes, for a recording or not, is read back by
  -- from_string with the type that was written: with every member, but for those that are not
  -- written (apiDebug, the sharpness and the backlight compensation), which stay as they were,
  -- the cameras, which are not connected and have as positions the last columns of their matrices
  -- with the signs flipped, and, for a recording, the types and the empty directory.
  pub from_string-to_string :
      (for_recording : Bool) (c old : CaptureConfig)
      → json.parse (to_string json for_recording c)
        ≡ some (object json (to_json json for_recording c))
      → from_string json
          (to_string json for_recording c)
          (type_of "kinect_playback" for_recording c.type)
          old
        ≡ (restored for_recording c old, true)
  unfolding from_string
  from_string-to_string for_recording c old parsed =
      let h = to_json-HasSections for_recording c in
      let type : String = type_of "kinect_playback" for_recording c.type in
      rw parsed (
        check_accepts json _ _ (object json (to_json json for_recording c)) _ (pos 5) type old laws
          h.version h.has_type refl ((eq_iff type type).1 refl)
        ∙ from_json-to_json for_recording c old)
