-- ===== src/Config/Kinect/Write.antt =====
-- `_to_json` of cwipc_kinect/src/K4AConfig.cpp: the members that are assigned, in their order.
use cwipc.Common.{Bool, List, [], ◌∷◌, ◌++◌, String, if◌then◌else◌, map}
use cwipc.Config.{Json, object, list, base_json, recording_type}
use cwipc.Config.Camera
use cwipc.Config.Kinect.{
  SyncConfig, HardwareConfig, ProcessingConfig, FilteringConfig, SkeletonConfig, CaptureConfig,
}

module _ {V : Type 0} (json : Json V) where
  unfoldable pub sync_json : SyncConfig → List (String × V)
  sync_json c =
      ("sync_master_serial", json.of_string c.sync_master_serial)
      ∷ ("ignore_sync", json.of_bool c.ignore_sync)
      ∷ []

  unfoldable pub hardware_json : HardwareConfig → List (String × V)
  hardware_json c =
      ("color_height", json.of_int c.color_height)
      ∷ ("depth_height", json.of_int c.depth_height)
      ∷ ("fps", json.of_int c.fps)
      ∷ ("color_exposure_time", json.of_int c.color_exposure_time)
      ∷ ("color_whitebalance", json.of_int c.color_whitebalance)
      ∷ ("color_brightness", json.of_int c.color_brightness)
      ∷ ("color_contrast", json.of_int c.color_contrast)
      ∷ ("color_saturation", json.of_int c.color_saturation)
      ∷ ("color_gain", json.of_int c.color_gain)
      ∷ ("color_powerline_frequency", json.of_int c.color_powerline_frequency)
      ∷ ("color_mjpeg", json.of_bool c.color_mjpeg)
      ∷ []

  unfoldable pub processing_json : ProcessingConfig → List (String × V)
  processing_json c =
      ("greenscreenremoval", json.of_bool c.greenscreen_removal)
      ∷ ("depth_x_erosion", json.of_int c.depth_x_erosion)
      ∷ ("depth_y_erosion", json.of_int c.depth_y_erosion)
      ∷ ("height_min", json.of_double c.height_min)
      ∷ ("height_max", json.of_double c.height_max)
      ∷ ("radius_filter", json.of_double c.radius_filter)
      ∷ []

  unfoldable pub filtering_json : FilteringConfig → List (String × V)
  filtering_json c =
      ("do_threshold", json.of_bool c.do_threshold)
      ∷ ("threshold_near", json.of_double c.threshold_near)
      ∷ ("threshold_far", json.of_double c.threshold_far)
      ∷ ("map_color_to_depth", json.of_bool c.map_color_to_depth)
      ∷ []

  unfoldable pub skeleton_json : SkeletonConfig → List (String × V)
  skeleton_json c =
      ("sensor_orientation", json.of_int c.bt_sensor_orientation)
      ∷ ("processing_mode", json.of_int c.bt_processing_mode)
      ∷ ("model_path", json.of_string c.bt_model_path)
      ∷ []

  unfoldable pub system_json : Bool → CaptureConfig → List (String × V)
  system_json for_recording c =
      ("single_tile", json.of_int c.single_tile)
      ∷ (
        "record_to_directory",
        json.of_string (if for_recording then "" else c.record_to_directory),
      )
      ∷ ("new_timestamps", json.of_bool c.new_timestamps)
      ∷ ("debug", json.of_bool c.debug)
      ∷ []

  unfoldable pub camera_to_json : Bool → Camera.CameraConfig → List (String × V)
  camera_to_json for_recording c =
      Camera.to_json json c ++ recording_type json "kinect_playback" for_recording

  unfoldable pub to_json : Bool → CaptureConfig → List (String × V)
  to_json for_recording c =
      base_json json c.type
      ++ (recording_type json "kinect_playback" for_recording
          ++ (
            "camera",
            list json
                (map (λ k. object json (camera_to_json for_recording k)) c.all_camera_configs),
          )
            ∷ ("system", object json (system_json for_recording c))
            ∷ ("sync", object json (sync_json c.sync))
            ∷ ("hardware", object json (hardware_json c.hardware))
            ∷ ("processing", object json (processing_json c.processing))
            ∷ ("filtering", object json (filtering_json c.filtering))
            ∷ ("skeleton", object json (skeleton_json c.skeleton))
            ∷ [])
