-- ===== src/Logging/Samples.antt =====
-- Runs of the logging interface, and its theorems at concrete inputs.
use cwipc.Common.{some, [], ◌∷◌}
use cwipc.Logging.{Message, logged, fresh_log, level_error, level_debug}
use cwipc.Logging.Destinations.{configure, log, run, run-IsConsistent, IsConsistent}

abbrev failed : Message
failed = logged "cwipc_read" level_error "failed"

run-IsConsistent_example :
    IsConsistent (
      run (log level_error "m" "t" ∷ configure level_debug (some 7) ∷ []) (fresh_log (some "NONE")))
run-IsConsistent_example =
    run-IsConsistent (some "NONE") (log level_error "m" "t" ∷ configure level_debug (some 7) ∷ [])
