-- ===== src/Config/Samples.antt =====
-- Witnesses: configurations with one camera, as recordings write them.
use cwipc.Common.{◌≡◌, refl, true, false, none, some, [], ◌∷◌}
use cwipc.Common.Int.{pos}
use cwipc.Config.{Json, object, assign, list, assign_from}
use cwipc.Config.Tree.{Value, tree, tree-IsJson}
use cwipc.Config.Camera
use cwipc.Config.Camera.{new_camera_config}
use cwipc.Config.Kinect
use cwipc.Config.Kinect.Write.{to_json as kinect_to_json}
use cwipc.Config.Kinect.Text.{to_string as kinect_to_string, from_string as kinect_from_string}
use cwipc.Config.Kinect.RoundTrip.{restored as kinect_restored, from_string-to_string}
use cwipc.Config.Orbbec
use cwipc.Config.Orbbec.Write.{to_json as orbbec_to_json}
use cwipc.Config.Orbbec.Text.{
  to_string as orbbec_to_string, from_string as orbbec_from_string, from_file as orbbec_from_file,
}
use cwipc.Config.Orbbec.RoundTrip.{restored as orbbec_restored, to_string_read_back}
use cwipc.Config.RealSense
use cwipc.Config.RealSense.Write.{to_json as realsense_to_json}
use cwipc.Config.RealSense.Text.{
  to_string as realsense_to_string, from_string as realsense_from_string,
  from_file as realsense_from_file,
}
use cwipc.Config.RealSense.RoundTrip.{
  restored as realsense_restored, from_file-to_string, from_string-refuses_to_string,
}

abbrev camera : Camera.CameraConfig
camera = record new_camera_config {
  type = "k";
  serial = "s1";
  filename = "s1.mkv";
  connected = true;
}

abbrev kinect : Kinect.CaptureConfig
kinect = record {
  type = "kinect";
  sync = record { sync_master_serial = "s"; ignore_sync = true };
  hardware = record {
    color_height = pos 5;
    depth_height = pos 5;
    fps = pos 5;
    color_exposure_time = pos 5;
    color_whitebalance = pos 5;
    color_backlight_compensation = pos 5;
    color_brightness = pos 5;
    color_contrast = pos 5;
    color_saturation = pos 5;
    color_sharpness = pos 5;
    color_gain = pos 5;
    color_powerline_frequency = pos 5;
    color_mjpeg = true;
  };
  processing = record {
    greenscreen_removal = true;
    depth_x_erosion = pos 5;
    depth_y_erosion = pos 5;
    height_min = 0x3FF0_0000_0000_0000;
    height_max = 0x3FF0_0000_0000_0000;
    radius_filter = 0x3FF0_0000_0000_0000;
  };
  filtering = record {
    map_color_to_depth = true;
    do_threshold = true;
    threshold_near = 0x3FF0_0000_0000_0000;
    threshold_far = 0x3FF0_0000_0000_0000;
  };
  skeleton = record {
    bt_sensor_orientation = pos 5;
    bt_processing_mode = pos 5;
    bt_model_path = "s";
  };
  single_tile = pos 5;
  record_to_directory = "s";
  debug = true;
  api_debug = true;
  new_timestamps = true;
  all_camera_configs = camera ∷ [];
}

abbrev kinect_json : Json Value
kinect_json = tree (some (object (tree none) (kinect_to_json (tree none) true kinect)))

parsed_kinect :
    kinect_json.parse (kinect_to_string kinect_json true kinect)
    ≡ some (object kinect_json (kinect_to_json kinect_json true kinect))
unfolding kinect_to_json object assign cwipc.Config.Kinect.Write.camera_to_json
    cwipc.Config.Kinect.Write.system_json cwipc.Config.Kinect.Write.sync_json
    cwipc.Config.Kinect.Write.hardware_json cwipc.Config.Kinect.Write.processing_json
    cwipc.Config.Kinect.Write.filtering_json cwipc.Config.Kinect.Write.skeleton_json Camera.to_json
    list assign_from
parsed_kinect = refl

from_string-to_string_example :
    kinect_from_string kinect_json
      (kinect_to_string kinect_json true kinect)
      "kinect_playback"
      kinect
    ≡ (kinect_restored kinect_json (tree-IsJson _) true kinect kinect, true)
from_string-to_string_example =
    from_string-to_string kinect_json (tree-IsJson (Json.parse kinect_json "")) true kinect kinect
      parsed_kinect

abbrev orbbec : Orbbec.CaptureConfig
orbbec = record {
  type = "orbbec";
  sync = record { sync_master_serial = "s"; ignore_sync = true };
  hardware = record {
    color_width = pos 5;
    color_height = pos 5;
    depth_width = pos 5;
    depth_height = pos 5;
    fps = pos 5;
    color_exposure_time = pos 5;
    color_whitebalance = pos 5;
    color_backlight_compensation = pos 5;
    color_brightness = pos 5;
    color_contrast = pos 5;
    color_saturation = pos 5;
    color_sharpness = pos 5;
    color_gain = pos 5;
    color_powerline_frequency = pos 5;
  };
  processing = record {
    greenscreen_removal = true;
    depth_x_erosion = pos 5;
    depth_y_erosion = pos 5;
    height_min = 0x3FF0_0000_0000_0000;
    height_max = 0x3FF0_0000_0000_0000;
    radius_filter = 0x3FF0_0000_0000_0000;
  };
  filtering = record {
    map_color_to_depth = true;
    do_threshold = true;
    threshold_near = 0x3FF0_0000_0000_0000;
    threshold_far = 0x3FF0_0000_0000_0000;
  };
  single_tile = pos 5;
  record_to_directory = "s";
  debug = true;
  api_debug = true;
  new_timestamps = true;
  camera_processing = record {
    map_color_to_depth = true;
    do_threshold = true;
    threshold_near = 0x3FF0_0000_0000_0000;
    threshold_far = 0x3FF0_0000_0000_0000;
  };
  all_camera_configs = camera ∷ [];
}

abbrev orbbec_json : Json Value
orbbec_json = tree (some (object (tree none) (orbbec_to_json (tree none) true orbbec)))

parsed_orbbec :
    orbbec_json.parse (orbbec_to_string orbbec_json true orbbec)
    ≡ some (object orbbec_json (orbbec_to_json orbbec_json true orbbec))
unfolding orbbec_to_json object assign cwipc.Config.Orbbec.Write.camera_to_json
    cwipc.Config.Orbbec.Write.system_json cwipc.Config.Orbbec.Write.sync_json
    cwipc.Config.Orbbec.Write.hardware_json cwipc.Config.Orbbec.Write.processing_json
    cwipc.Config.Orbbec.Write.filtering_json Camera.to_json list assign_from
parsed_orbbec = refl

to_string_read_back_example :
    (orbbec_from_string orbbec_json
        (orbbec_to_string orbbec_json true orbbec)
        "orbbec_playback"
        orbbec
      ≡ (orbbec_restored orbbec_json (tree-IsJson _) true orbbec orbbec, true))
    × (orbbec_from_file orbbec_json
          (some (orbbec_to_string orbbec_json true orbbec))
          "orbbec_playback"
          orbbec
        ≡ (orbbec_restored orbbec_json (tree-IsJson _) true orbbec orbbec, true))
to_string_read_back_example =
    to_string_read_back orbbec_json (tree-IsJson (Json.parse orbbec_json "")) true orbbec orbbec
      parsed_orbbec

abbrev realsense : RealSense.CaptureConfig
realsense = record {
  type = "realsense";
  sync = record { sync_master_serial = "s"; sync_mode = pos 5 };
  hardware = record {
    color_width = pos 5;
    color_height = pos 5;
    fps = pos 5;
    depth_width = pos 5;
    depth_height = pos 5;
    visual_preset = pos 5;
    color_exposure = pos 5;
    color_gain = pos 5;
    depth_exposure = pos 5;
    depth_gain = pos 5;
    whitebalance = pos 5;
    backlight_compensation = pos 5;
    laser_power = pos 5;
  };
  processing = record {
    greenscreen_removal = true;
    height_min = 0x3FF0_0000_0000_0000;
    height_max = 0x3FF0_0000_0000_0000;
    radius_filter = 0x3FF0_0000_0000_0000;
    depth_x_erosion = pos 5;
    depth_y_erosion = pos 5;
  };
  filtering = record {
    map_color_to_depth = pos 5;
    do_decimation = true;
    decimation_magnitude = pos 5;
    do_threshold = true;
    threshold_min_distance = 0x3F80_0000;
    threshold_max_distance = 0x3F80_0000;
    do_spatial = true;
    spatial_magnitude = pos 5;
    spatial_smooth_alpha = 0x3F80_0000;
    spatial_smooth_delta = pos 5;
    spatial_holes_fill = pos 5;
    do_temporal = true;
    temporal_smooth_alpha = 0x3F80_0000;
    temporal_smooth_delta = pos 5;
    temporal_persistency = pos 5;
    do_hole_filling = true;
    hole_filling_mode = pos 5;
  };
  record_to_directory = "s";
  playback_realtime = true;
  new_timestamps = true;
  debug = true;
  prefer_color_timing = true;
  playback_loop = false;
  all_camera_configs = record { base = camera; playback_inpoint_micros = pos 7 } ∷ [];
}

abbrev realsense_json : Json Value
realsense_json = tree (some (object (tree none) (realsense_to_json (tree none) true realsense)))

parsed_realsense :
    realsense_json.parse (realsense_to_string realsense_json true realsense)
    ≡ some (object realsense_json (realsense_to_json realsense_json true realsense))
unfolding realsense_to_json object assign cwipc.Config.RealSense.Write.camera_to_json
    cwipc.Config.RealSense.Write.system_json cwipc.Config.RealSense.Write.sync_json
    cwipc.Config.RealSense.Write.hardware_json cwipc.Config.RealSense.Write.processing_json
    cwipc.Config.RealSense.Write.filtering_json Camera.to_json list assign_from
parsed_realsense = refl

from_file-to_string_example :
    realsense_from_file realsense_json
      (some (realsense_to_string realsense_json true realsense))
      "realsense_playback"
      realsense
    ≡ (realsense_restored realsense_json (tree-IsJson _) true realsense realsense, true)
from_file-to_string_example =
    from_file-to_string realsense_json (tree-IsJson (Json.parse realsense_json "")) true realsense
      realsense parsed_realsense

from_string-refuses_to_string_example :
    realsense_from_string realsense_json
      (realsense_to_string realsense_json true realsense)
      "realsense_playback"
      realsense
    ≡ (realsense, false)
from_string-refuses_to_string_example =
    from_string-refuses_to_string realsense_json (tree-IsJson (Json.parse realsense_json "")) true
      realsense realsense "realsense_playback" parsed_realsense
