-- ===== src/Config/Orbbec.antt =====
-- The structures of cwipc_orbbec/src/OrbbecConfig.hpp.
pub mod Read
pub mod Write
pub mod Text
pub mod RoundTrip
use cwipc.Common.{ℕ, Bool, List, String}
use cwipc.Common.Int.{ℤ}
use cwipc.Config.Camera

pub record SyncConfig : Type 0 where
  pub sync_master_serial : String
  pub ignore_sync : Bool

pub record HardwareConfig : Type 0 where
  pub color_width : ℤ
  pub color_height : ℤ
  pub depth_width : ℤ
  pub depth_height : ℤ
  pub fps : ℤ
  pub color_exposure_time : ℤ
  pub color_whitebalance : ℤ
  pub color_backlight_compensation : ℤ
  pub color_brightness : ℤ
  pub color_contrast : ℤ
  pub color_saturation : ℤ
  pub color_sharpness : ℤ
  pub color_gain : ℤ
  pub color_powerline_frequency : ℤ

pub record ProcessingConfig : Type 0 where
  pub greenscreen_removal : Bool
  pub depth_x_erosion : ℤ
  pub depth_y_erosion : ℤ
  pub height_min : ℕ
  pub height_max : ℕ
  pub radius_filter : ℕ

pub record FilteringConfig : Type 0 where
  pub map_color_to_depth : Bool
  pub do_threshold : Bool
  pub threshold_near : ℕ
  pub threshold_far : ℕ

pub record CaptureConfig : Type 0 where
  pub type : String
  pub sync : SyncConfig
  pub hardware : HardwareConfig
  pub processing : ProcessingConfig
  pub filtering : FilteringConfig
  pub single_tile : ℤ
  pub record_to_directory : String
  pub debug : Bool
  pub api_debug : Bool
  pub new_timestamps : Bool
  pub camera_processing : FilteringConfig
  pub all_camera_configs : List Camera.CameraConfig
