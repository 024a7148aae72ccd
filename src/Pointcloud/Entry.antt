-- ===== src/Pointcloud/Entry.antt =====
-- The entry points of cwipc_util/src/cwipc_util.cpp and their error buffer.
use cwipc.Common.{ℕ, ◌≡◌, ◌≢◌, refl, Option, none, List, arith, false, ◌==◌}
use cwipc.Common.Int.{ℤ, negsuc}
use cwipc.Words.{mul_size, to_size_t}
use cwipc.Point.{Point, sizeof_point}
use cwipc.Logging.{cwipc_log, cwipc_log_set_errorbuf, level_error}
use cwipc.World.{World, Env}
use cwipc.Pointcloud.Raw
use cwipc.Pointcloud.Create
use cwipc.Pointcloud.Create.{version_refused, api_version}

raw_mismatch :
    (env : Env) (ps : List Point) (size t : ℕ) (n : ℤ) (w : World)
    → mul_size (to_size_t n) sizeof_point ≢ size
    → Raw.from_points env Raw.null_uncompressed ps size n t w ≡ (
      (negsuc 0, Raw.null_uncompressed),
      record w {
        log = cwipc_log level_error "cwipc_util" "from_points: size and npoint inconsistent" w.log;
      },
    )
unfolding Raw.from_points
raw_mismatch env ps size t n w differ =
    let test : (mul_size (to_size_t n) sizeof_point == size) ≡ false = ground arith in rw test

-- Whatever the error buffer, an array of another size than the points gives NULL.
pub from_points_refused :
    (env : Env) (ps : List Point) (size t : ℕ) (n : ℤ) (err : Option ℕ) (w : World)
    → mul_size (to_size_t n) sizeof_point ≢ size
    → (Create.from_points env ps size n t err api_version w).0 ≡ none
unfolding Create.from_points
from_points_refused env ps size t n err w differ =
    rw (raw_mismatch env ps size t n (record w { log = cwipc_log_set_errorbuf err w.log }) differ)
      refl
