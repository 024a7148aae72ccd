-- ===== src/Config/Orbbec/Read.antt =====
-- `_from_json` of cwipc_orbbec/src/OrbbecConfig.cpp: each section into its structure.
use cwipc.Common.{true, false, [], ◌∷◌, ◌++◌, if◌then◌else◌}
use cwipc.Config.{Json, Reader, ◌>>◌, modify, into, json_get, at, if_contains, read_base, read_each}
use cwipc.Config.Camera.{new_camera_config}
use cwipc.Config.Camera
use cwipc.Config.Orbbec.{
  SyncConfig, HardwareConfig, ProcessingConfig, FilteringConfig, CaptureConfig,
}

abbrev pub in_sync : Reader SyncConfig → Reader CaptureConfig
in_sync = into (λ c. c.sync) (λ d c. record c { sync = d })

abbrev pub in_hardware : Reader HardwareConfig → Reader CaptureConfig
in_hardware = into (λ c. c.hardware) (λ d c. record c { hardware = d })

abbrev pub in_processing : Reader ProcessingConfig → Reader CaptureConfig
in_processing = into (λ c. c.processing) (λ d c. record c { processing = d })

abbrev pub in_filtering : Reader FilteringConfig → Reader CaptureConfig
in_filtering = into (λ c. c.filtering) (λ d c. record c { filtering = d })

module _ {V : Type 0} (json : Json V) where
  unfoldable pub read_sync : V → Reader SyncConfig
  read_sync v =
      json_get json json.get_string v "sync_master_serial"
        (λ a c. record c { sync_master_serial = a })
      >> json_get json json.get_bool v "ignore_sync" (λ a c. record c { ignore_sync = a })

  unfoldable pub read_hardware : V → Reader HardwareConfig
  read_hardware v =
      json_get json json.get_int v "color_width" (λ a c. record c { color_width = a })
      >> json_get json json.get_int v "color_height" (λ a c. record c { color_height = a })
      >> json_get json json.get_int v "depth_width" (λ a c. record c { depth_width = a })
      >> json_get json json.get_int v "depth_height" (λ a c. record c { depth_height = a })
      >> json_get json json.get_int v "fps" (λ a c. record c { fps = a })
      >> json_get json json.get_int v "color_exposure_time"
          (λ a c. record c { color_exposure_time = a })
      >> json_get json json.get_int v "color_whitebalance"
          (λ a c. record c { color_whitebalance = a })
      >> json_get json json.get_int v "color_backlight_compensation"
          (λ a c. record c { color_backlight_compensation = a })
      >> json_get json json.get_int v "color_brightness" (λ a c. record c { color_brightness = a })
      >> json_get json json.get_int v "color_contrast" (λ a c. record c { color_contrast = a })
      >> json_get json json.get_int v "color_saturation" (λ a c. record c { color_saturation = a })
      >> json_get json json.get_int v "color_sharpness" (λ a c. record c { color_sharpness = a })
      >> json_get json json.get_int v "color_gain" (λ a c. record c { color_gain = a })
      >> json_get json json.get_int v "color_powerline_frequency"
          (λ a c. record c { color_powerline_frequency = a })

  unfoldable pub read_processing : V → Reader ProcessingConfig
  read_processing v =
      json_get json json.get_bool v "greenscreenremoval"
        (λ a c. record c { greenscreen_removal = a })
      >> json_get json json.get_int v "depth_x_erosion" (λ a c. record c { depth_x_erosion = a })
      >> json_get json json.get_int v "depth_y_erosion" (λ a c. record c { depth_y_erosion = a })
      >> json_get json json.get_double v "height_min" (λ a c. record c { height_min = a })
      >> json_get json json.get_double v "height_max" (λ a c. record c { height_max = a })
      >> json_get json json.get_double v "radius_filter" (λ a c. record c { radius_filter = a })

  unfoldable pub read_filtering : V → Reader FilteringConfig
  read_filtering v =
      json_get json json.get_bool v "map_color_to_depth"
        (λ a c. record c { map_color_to_depth = a })
      >> json_get json json.get_bool v "do_threshold" (λ a c. record c { do_threshold = a })
      >> json_get json json.get_double v "threshold_near" (λ a c. record c { threshold_near = a })
      >> json_get json json.get_double v "threshold_far" (λ a c. record c { threshold_far = a })

  unfoldable pub read_system : V → Reader CaptureConfig
  read_system v =
      json_get json json.get_int v "single_tile" (λ a c. record c { single_tile = a })
      >> json_get json json.get_string v "record_to_directory"
          (λ a c. record c { record_to_directory = a })
      >> json_get json json.get_bool v "debug" (λ a c. record c { debug = a })
      >> json_get json json.get_bool v "apiDebug" (λ a c. record c { api_debug = a })
      >> json_get json json.get_bool v "new_timestamps" (λ a c. record c { new_timestamps = a })

module _ {V : Type 0} (json : Json V) where
  -- One step of the loop over the cameras.
  unfoldable pub read_camera : V → Reader CaptureConfig
  read_camera v = λ c.
      let (camera, ok) = Camera.from_json json v new_camera_config in
      if ok
      then (record c { all_camera_configs = c.all_camera_configs ++ (camera ∷ []) }, true)
      else (c, false)

  unfoldable pub all_cameras : V → Reader CaptureConfig
  all_cameras v =
      modify (λ c. record c { all_camera_configs = [] })
      >> read_each json read_camera (json.elements v)

  unfoldable pub from_json : V → Reader CaptureConfig
  from_json v =
      read_base json v (λ a c. record c { type = a })
      >> at json v "system" (read_system json)
      >> if_contains json v "sync" (λ d. in_sync (read_sync json d))
      >> if_contains json v "hardware" (λ d. in_hardware (read_hardware json d))
      >> if_contains json v "processing" (λ d. in_processing (read_processing json d))
      >> if_contains json v "filtering" (λ d. in_filtering (read_filtering json d))
      >> at json v "camera" all_cameras
