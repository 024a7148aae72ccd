-- ===== src/Config/RealSense.antt =====
-- The structures of cwipc_realsense2/src/RS2Config.hpp.
pub mod Read
pub mod Write
pub mod Text
pub mod Sections
pub mod RoundTrip
use cwipc.Common.{ℕ, Bool, List, String}
use cwipc.Common.Int.{ℤ}
use cwipc.Config.Camera

pub record SyncConfig : Type 0 where
  pub sync_master_serial : String
  pub sync_mode : ℤ

pub record HardwareConfig : Type 0 where
  pub color_width : ℤ
  pub color_height : ℤ
  pub fps : ℤ
  pub depth_width : ℤ
  pub depth_height : ℤ
  pub visual_preset : ℤ
  pub color_exposure : ℤ
  pub color_gain : ℤ
  pub depth_exposure : ℤ
  pub depth_gain : ℤ
  pub whitebalance : ℤ
  pub backlight_compensation : ℤ
  pub laser_power : ℤ

pub record ProcessingConfig : Type 0 where
  pub greenscreen_removal : Bool
  pub height_min : ℕ
  pub height_max : ℕ
  pub radius_filter : ℕ
  pub depth_x_erosion : ℤ
  pub depth_y_erosion : ℤ

pub record FilteringConfig : Type 0 where
  pub map_color_to_depth : ℤ
  pub do_decimation : Bool
  pub decimation_magnitude : ℤ
  pub do_threshold : Bool
  pub threshold_min_distance : ℕ
  pub threshold_max_distance : ℕ
  pub do_spatial : Bool
  pub spatial_magnitude : ℤ
  pub spatial_smooth_alpha : ℕ
  pub spatial_smooth_delta : ℤ
  pub spatial_holes_fill : ℤ
  pub do_temporal : Bool
  pub temporal_smooth_alpha : ℕ
  pub temporal_smooth_delta : ℤ
  pub temporal_persistency : ℤ
  pub do_hole_filling : Bool
  pub hole_filling_mode : ℤ

-- A camera: the attributes that all capturers have, and the initial seek of a recording.
pub record CameraConfig : Type 0 where
  pub base : Camera.CameraConfig
  pub playback_inpoint_micros : ℤ

pub record CaptureConfig : Type 0 where
  pub type : String
  pub sync : SyncConfig
  pub hardware : HardwareConfig
  pub processing : ProcessingConfig
  pub filtering : FilteringConfig
  pub record_to_directory : String
  pub playback_realtime : Bool
  pub new_timestamps : Bool
  pub debug : Bool
  pub prefer_color_timing : Bool
  pub playback_loop : Bool
  pub all_camera_configs : List CameraConfig
