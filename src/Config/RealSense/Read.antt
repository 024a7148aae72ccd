-- ===== src/Config/RealSense/Read.antt =====
-- `_from_json` of cwipc_realsense2/src/RS2Config.cpp: each section into its structure.
use cwipc.Common.{true, false, [], ◌∷◌, ◌++◌, if◌then◌else◌}
use cwipc.Common.Int.{pos}
use cwipc.Config.{Json, Reader, ◌>>◌, modify, into, json_get, at, if_contains, read_base, read_each}
use cwipc.Config.Camera.{new_camera_config}
use cwipc.Config.Camera
use cwipc.Config.RealSense.{
  SyncConfig, HardwareConfig, ProcessingConfig, FilteringConfig, CaptureConfig, CameraConfig,
}

abbrev pub in_sync : Reader SyncConfig → Reader CaptureConfig
in_sync = into (λ c. c.sync) (λ d c. record c { sync = d })

abbrev pub in_hardware : Reader HardwareConfig → Reader CaptureConfig
in_hardware = into (λ c. c.hardware) (λ d c. record c { hardware = d })

abbrev pub in_processing : Reader ProcessingConfig → Reader CaptureConfig
in_processing = into (λ c. c.processing) (λ d c. record c { processing = d })

abbrev pub in_filtering : Reader FilteringConfig → Reader CaptureConfig
in_filtering = into (λ c. c.filtering) (λ d c. record c { filtering = d })

module _ {V : Type 0} (json : Json V) where
  unfoldable pub read_sync : V → Reader SyncConfig
  read_sync v =
      json_get json json.get_string v "sync_master_serial"
        (λ a c. record c { sync_master_serial = a })
      >> json_get json json.get_int v "sync_mode" (λ a c. record c { sync_mode = a })

  unfoldable pub read_hardware : V → Reader HardwareConfig
  read_hardware v =
      json_get json json.get_int v "color_width" (λ a c. record c { color_width = a })
      >> json_get json json.get_int v "color_height" (λ a c. record c { color_height = a })
      >> json_get json json.get_int v "fps" (λ a c. record c { fps = a })
      >> json_get json json.get_int v "depth_width" (λ a c. record c { depth_width = a })
      >> json_get json json.get_int v "depth_height" (λ a c. record c { depth_height = a })
      >> json_get json json.get_int v "fps" (λ a c. record c { fps = a })
      >> json_get json json.get_int v "visual_preset" (λ a c. record c { visual_preset = a })
      >> json_get json json.get_int v "color_exposure" (λ a c. record c { color_exposure = a })
      >> json_get json json.get_int v "color_gain" (λ a c. record c { color_gain = a })
      >> json_get json json.get_int v "depth_exposure" (λ a c. record c { depth_exposure = a })
      >> json_get json json.get_int v "depth_gain" (λ a c. record c { depth_gain = a })
      >> json_get json json.get_int v "whitebalance" (λ a c. record c { whitebalance = a })
      >> json_get json json.get_int v "backlight_compensation"
          (λ a c. record c { backlight_compensation = a })
      >> json_get json json.get_int v "laser_power" (λ a c. record c { laser_power = a })

  unfoldable pub read_processing : V → Reader ProcessingConfig
  read_processing v =
      json_get json json.get_bool v "greenscreen_removal"
        (λ a c. record c { greenscreen_removal = a })
      >> json_get json json.get_double v "height_min" (λ a c. record c { height_min = a })
      >> json_get json json.get_double v "height_max" (λ a c. record c { height_max = a })
      >> json_get json json.get_double v "radius_filter" (λ a c. record c { radius_filter = a })
      >> json_get json json.get_int v "depth_x_erosion" (λ a c. record c { depth_x_erosion = a })
      >> json_get json json.get_int v "depth_y_erosion" (λ a c. record c { depth_y_erosion = a })

  unfoldable pub read_filtering : V → Reader FilteringConfig
  read_filtering v =
      json_get json json.get_int v "map_color_to_depth" (λ a c. record c { map_color_to_depth = a })
      >> json_get json json.get_bool v "do_decimation" (λ a c. record c { do_decimation = a })
      >> json_get json json.get_int v "decimation_magnitude"
          (λ a c. record c { decimation_magnitude = a })
      >> json_get json json.get_bool v "do_threshold" (λ a c. record c { do_threshold = a })
      >> json_get json json.get_float v "threshold_min_distance"
          (λ a c. record c { threshold_min_distance = a })
      >> json_get json json.get_float v "threshold_max_distance"
          (λ a c. record c { threshold_max_distance = a })
      >> json_get json json.get_bool v "do_spatial" (λ a c. record c { do_spatial = a })
      >> json_get json json.get_int v "spatial_magnitude"
          (λ a c. record c { spatial_magnitude = a })
      >> json_get json json.get_float v "spatial_smooth_alpha"
          (λ a c. record c { spatial_smooth_alpha = a })
      >> json_get json json.get_int v "spatial_smooth_delta"
          (λ a c. record c { spatial_smooth_delta = a })
      >> json_get json json.get_int v "spatial_holes_fill"
          (λ a c. record c { spatial_holes_fill = a })
      >> json_get json json.get_bool v "do_temporal" (λ a c. record c { do_temporal = a })
      >> json_get json json.get_float v "temporal_smooth_alpha"
          (λ a c. record c { temporal_smooth_alpha = a })
      >> json_get json json.get_int v "temporal_smooth_delta"
          (λ a c. record c { temporal_smooth_delta = a })
      >> json_get json json.get_int v "temporal_persistency"
          (λ a c. record c { temporal_persistency = a })
      >> json_get json json.get_bool v "do_hole_filling" (λ a c. record c { do_hole_filling = a })
      >> json_get json json.get_int v "hole_filling_mode"
          (λ a c. record c { hole_filling_mode = a })

  unfoldable pub read_system : V → Reader CaptureConfig
  read_system v =
      json_get json json.get_string v "record_to_directory"
        (λ a c. record c { record_to_directory = a })
      >> json_get json json.get_bool v "playback_realtime"
          (λ a c. record c { playback_realtime = a })
      >> json_get json json.get_bool v "new_timestamps" (λ a c. record c { new_timestamps = a })
      >> json_get json json.get_bool v "debug" (λ a c. record c { debug = a })
      >> json_get json json.get_bool v "prefer_color_timing"
          (λ a c. record c { prefer_color_timing = a })

module _ {V : Type 0} (json : Json V) where
  unfoldable pub camera_from_json : V → Reader CameraConfig
  camera_from_json v =
      into (λ c. c.base) (λ b c. record c { base = b }) (Camera.from_json json v)
      >> json_get json json.get_int v "playback_inpoint_micros"
          (λ a c. record c { playback_inpoint_micros = a })

  -- One step of the loop over the cameras.
  unfoldable pub read_camera : V → Reader CaptureConfig
  read_camera v = λ c.
      let (camera, ok) =
        camera_from_json v (record { base = new_camera_config; playback_inpoint_micros = pos 0 }) in
      if ok
      then (record c { all_camera_configs = c.all_camera_configs ++ (camera ∷ []) }, true)
      else (c, false)

  unfoldable pub all_cameras : V → Reader CaptureConfig
  all_cameras v =
      modify (λ c. record c { all_camera_configs = [] })
      >> read_each json read_camera (json.elements v)

  unfoldable pub from_json : V → Reader CaptureConfig
  from_json v =
      read_base json v (λ a c. record c { type = a })
      >> at json v "system" (read_system json)
      >> if_contains json v "sync" (λ d. in_sync (read_sync json d))
      >> if_contains json v "hardware" (λ d. in_hardware (read_hardware json d))
      >> if_contains json v "processing" (λ d. in_processing (read_processing json d))
      >> if_contains json v "filtering" (λ d. in_filtering (read_filtering json d))
      >> at json v "camera" all_cameras
