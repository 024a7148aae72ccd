-- ===== src/Config/RealSense/Write.antt =====
-- `_to_json` of cwipc_realsense2/src/RS2Config.cpp: the members that are assigned, in their order.
use cwipc.Common.{Bool, List, [], ◌∷◌, ◌++◌, String, not, if◌then◌else◌, map}
use cwipc.Config.{Json, object, list, base_json, is_number, recording_type}
use cwipc.Config.Camera
use cwipc.Config.RealSense.{
  SyncConfig, HardwareConfig, ProcessingConfig, FilteringConfig, CaptureConfig, CameraConfig,
}

module _ {V : Type 0} (json : Json V) where
  unfoldable pub sync_json : SyncConfig → List (String × V)
  sync_json c =
      ("sync_master_serial", json.of_string c.sync_master_serial)
      ∷ ("sync_mode", json.of_int c.sync_mode)
      ∷ []

  unfoldable pub hardware_json : HardwareConfig → List (String × V)
  hardware_json c =
      ("color_width", json.of_int c.color_width)
      ∷ ("color_height", json.of_int c.color_height)
      ∷ ("depth_width", json.of_int c.depth_width)
      ∷ ("depth_height", json.of_int c.depth_height)
      ∷ ("fps", json.of_int c.fps)
      ∷ ("visual_preset", json.of_int c.visual_preset)
      ∷ ("color_exposure", json.of_int c.color_exposure)
      ∷ ("color_gain", json.of_int c.color_gain)
      ∷ ("depth_exposure", json.of_int c.depth_exposure)
      ∷ ("depth_gain", json.of_int c.depth_gain)
      ∷ ("whitebalance", json.of_int c.whitebalance)
      ∷ ("backlight_compensation", json.of_int c.backlight_compensation)
      ∷ ("laser_power", json.of_int c.laser_power)
      ∷ []

  unfoldable pub processing_json : ProcessingConfig → List (String × V)
  processing_json c =
      ("greenscreen_removal", json.of_bool c.greenscreen_removal)
      ∷ ("height_min", json.of_double c.height_min)
      ∷ ("height_max", json.of_double c.height_max)
      ∷ ("radius_filter", json.of_double c.radius_filter)
      ∷ ("depth_x_erosion", json.of_int c.depth_x_erosion)
      ∷ ("depth_y_erosion", json.of_int c.depth_y_erosion)
      ∷ []

  unfoldable pub filtering_json : FilteringConfig → List (String × V)
  filtering_json c =
      ("map_color_to_depth", json.of_int c.map_color_to_depth)
      ∷ ("do_decimation", json.of_bool c.do_decimation)
      ∷ ("decimation_magnitude", json.of_int c.decimation_magnitude)
      ∷ ("do_threshold", json.of_bool c.do_threshold)
      ∷ ("threshold_min_distance", json.of_float c.threshold_min_distance)
      ∷ ("threshold_max_distance", json.of_float c.threshold_max_distance)
      ∷ ("do_spatial", json.of_bool c.do_spatial)
      ∷ ("spatial_magnitude", json.of_int c.spatial_magnitude)
      ∷ ("spatial_smooth_alpha", json.of_float c.spatial_smooth_alpha)
      ∷ ("spatial_smooth_delta", json.of_int c.spatial_smooth_delta)
      ∷ ("spatial_holes_fill", json.of_int c.spatial_holes_fill)
      ∷ ("do_temporal", json.of_bool c.do_temporal)
      ∷ ("temporal_smooth_alpha", json.of_float c.temporal_smooth_alpha)
      ∷ ("temporal_smooth_delta", json.of_int c.temporal_smooth_delta)
      ∷ ("temporal_persistency", json.of_int c.temporal_persistency)
      ∷ ("do_hole_filling", json.of_bool c.do_hole_filling)
      ∷ ("hole_filling_mode", json.of_int c.hole_filling_mode)
      ∷ []

  unfoldable pub system_json : Bool → CaptureConfig → List (String × V)
  system_json for_recording c =
      ("record_to_directory", json.of_string (if for_recording then "" else c.record_to_directory))
      ∷ ("playback_realtime", json.of_bool c.playback_realtime)
      ∷ ("new_timestamps", json.of_bool c.new_timestamps)
      ∷ ("debug", json.of_bool c.debug)
      ∷ ("prefer_color_timing", json.of_bool c.prefer_color_timing)
      ∷ []

  unfoldable pub camera_to_json : Bool → CameraConfig → List (String × V)
  camera_to_json for_recording c =
      Camera.to_json json c.base
      ++ (recording_type json "realsense_playback" for_recording
          ++ (if not (is_number 0 c.playback_inpoint_micros)
              then ("playback_inpoint_micros", json.of_int c.playback_inpoint_micros) ∷ []
              else []))

  unfoldable pub to_json : Bool → CaptureConfig → List (String × V)
  to_json for_recording c =
      base_json json c.type
      ++ (recording_type json "realsense_playback" for_recording
          ++ (
            "camera",
            list json
                (map (λ k. object json (camera_to_json for_recording k)) c.all_camera_configs),
          )
            ∷ ("sync", object json (sync_json c.sync))
            ∷ ("filtering", object json (filtering_json c.filtering))
            ∷ ("processing", object json (processing_json c.processing))
            ∷ ("system", object json (system_json for_recording c))
            ∷ ("hardware", object json (hardware_json c.hardware))
            ∷ [])
