-- ===== src/Capturer/Samples.antt =====
-- Concrete capturers, and the theorems on them at these.
use cwipc.Common.{◌≡◌, none, some, List, [], ◌∷◌}
use cwipc.Common.Int.{pos}
use cwipc.World.{fresh_world, set_errorbuf, pure}
use cwipc.Pointcloud.Create.{api_version}
use cwipc.Capturer.{Capturer, Configs, capturer}
use cwipc.Capturer.Choice.{outcome, capturer-auto}

-- Two kinds of cameras, one of which is attached, and a source without devices.
abbrev realsense : Capturer
realsense = record {
  name = "realsense";
  count_func = some (pos 2);
  factory_func = λ config err api. pure (some 7);
}

abbrev kinect : Capturer
kinect = record {
  name = "kinect";
  count_func = some (pos 0);
  factory_func = λ config err api. pure (some 8);
}

abbrev synthetic : Capturer
synthetic = record {
  name = "synthetic";
  count_func = none;
  factory_func = λ config err api. pure (some 9);
}

abbrev registry : List Capturer
registry = kinect ∷ realsense ∷ synthetic ∷ []

-- No file can be opened, and nothing can be parsed.
abbrev no_configs : Configs
no_configs = record { read = λ name. none; parse = λ contents. none }

capturer-auto_example :
    capturer no_configs registry (some "auto") (some 5) api_version fresh_world
    ≡ outcome (realsense ∷ []) (some 5) (set_errorbuf (some 5) fresh_world).1
capturer-auto_example = capturer-auto no_configs registry (some 5) fresh_world
