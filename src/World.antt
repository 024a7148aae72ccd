-- ===== src/World.antt =====
-- The state that the modelled calls share: the logging variables, the four allocation counters of
-- cwipc_util/src/cwipc_util.cpp (no counter reaches 2 ^ 31), and the calls made of the metadata's
-- deallocation functions. A call is a function from the state to its result and the state after it.
use cwipc.Common.{ℕ, Option, none, some, String, List, Bool, []}
use cwipc.Float32.{Float32}
use cwipc.Point.{PclPoint}
use cwipc.Logging.{LogState, cwipc_log, cwipc_log_set_errorbuf, Message, set_cell, fresh_log}

pub record World : Type 0 where
  pub log : LogState
  pub n_cwipc_pointcloud_alloc : ℕ
  pub n_cwipc_pointcloud_dealloc : ℕ
  pub n_cwipc_uncompressed_pointcloud_alloc : ℕ
  pub n_cwipc_uncompressed_pointcloud_dealloc : ℕ
  -- The calls `dealloc(pointer)` so far, each as the function and the pointer.
  pub deallocs : List (ℕ × ℕ)

-- What the calls take from outside: whether the allocation of so many bytes succeeds, and
-- `pcl::geometry::distance`.
pub record Env : Type 0 where
  pub malloc : ℕ → Bool
  pub distance : PclPoint → PclPoint → Float32

abbrev pub M {ℓ} : Type ℓ → Type ℓ
M A = World → A × World

abbrev pub pure {ℓ} : {A : Type ℓ} → A → M A
pure a w = (a, w)

infixl 5 ◌>>=◌ ◌>>◌
abbrev pub ◌>>=◌ {ℓ κ} : {A : Type ℓ} {B : Type κ} → M A → (A → M B) → M B
◌>>=◌ m f w = let (a, w') = m w in f a w'

abbrev pub ◌>>◌ {ℓ} : {B : Type ℓ} → M (Unit {0}) → M B → M B
◌>>◌ m k w = k (m w).1

-- The logging calls, as calls on the shared state.
abbrev pub log : ℕ → String → String → M (Unit {0})
log level name text w = (tt, record w { log = cwipc_log level name text w.log })

abbrev pub set_errorbuf : Option ℕ → M (Unit {0})
set_errorbuf buf w = (tt, record w { log = cwipc_log_set_errorbuf buf w.log })

-- `if (errorMessage) *errorMessage = …`.
abbrev pub store_message : Option ℕ → Message → M (Unit {0})
store_message none m w = (tt, w)
store_message (some p) m w = (tt, record w { log = set_cell p m w.log })

-- The state in which the process starts.
abbrev pub fresh_world : World
fresh_world = record {
  log = fresh_log none;
  n_cwipc_pointcloud_alloc = 0;
  n_cwipc_pointcloud_dealloc = 0;
  n_cwipc_uncompressed_pointcloud_alloc = 0;
  n_cwipc_uncompressed_pointcloud_dealloc = 0;
  deallocs = [];
}

-- A call returns, or waits for something that does not come without another call.
pub data Waits {ℓ} (A : Type ℓ) : Type ℓ where
  returns : A → Waits A
  blocks : Waits A

-- A call returns, or does something that the language leaves undefined.
pub data Outcome {ℓ} (A : Type ℓ) : Type ℓ where
  done : A → Outcome A
  undefined : Outcome A
