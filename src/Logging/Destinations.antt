-- ===== src/Logging/Destinations.antt =====
-- cwipc_util/src/logging.cpp: where messages go.
use cwipc.Common.{
  ℕ, ◌≡◌, ◌↔◌, none, some, String, arith, Option, true, false, not, ◌&&◌, ◌∷◌, [], List,
}
use cwipc.Logging.{
  LogState, Message, logged, cwipc_log, cwipc_log_configure, cwipc_log_set_errorbuf,
  cwipc_log_get_level, initialize, fresh_log, set_callback, log_message, level_debug,
}

-- The flags and the pointers that they stand for agree, and `log_to_stderr` is set exactly when neither of the
-- other flags is. The stream can itself be the standard error stream.
pub record IsConsistent (s : LogState) : Type 0 where
  pub callback : (s.log_to_callback ≡ false) ↔ (s.log_callback ≡ none)
  pub stream : (s.log_to_file ≡ false) ↔ (s.log_stream ≡ none)
  pub stderr : s.log_to_stderr ≡ not s.log_to_callback && not s.log_to_file
  -- Nothing but `initialize` opens the stream.
  pub opened : s.initialized ≡ false → s.log_to_file ≡ false
  -- No callback is set before `initialize`.
  pub first : s.initialized ≡ false → s.log_to_callback ≡ false

fresh_log-IsConsistent : (env : Option String) → IsConsistent (fresh_log env)
fresh_log-IsConsistent env = ground arith

initialize-IsConsistent : (s : LogState) → IsConsistent s → IsConsistent (initialize s)
unfolding initialize
initialize-IsConsistent s h = ground arith

log_message-IsConsistent :
    (level : ℕ) (m : Message) (s : LogState) → IsConsistent s → IsConsistent (log_message level m s)
unfolding log_message
log_message-IsConsistent level m s h = ground arith

cwipc_log-IsConsistent :
    (level : ℕ) (name text : String) (s : LogState)
    → IsConsistent s
    → IsConsistent (cwipc_log level name text s)
unfolding cwipc_log
cwipc_log-IsConsistent level name text s h = ground (
  arith,
  initialize-IsConsistent s h,
  log_message-IsConsistent level (logged name level text) (initialize s),
)

-- The calls of the logging interface.
pub data Call : Type 0 where
  configure : ℕ → Option ℕ → Call
  log : ℕ → String → String → Call
  set_errorbuf : Option ℕ → Call
  get_level : Call

pub step : Call → LogState → LogState
unfolding cwipc_log_set_errorbuf cwipc_log_get_level
step (configure level callback) s = cwipc_log_configure level callback s
step (log level name text) s = cwipc_log level name text s
step (set_errorbuf buf) s = cwipc_log_set_errorbuf buf s
step get_level s = (cwipc_log_get_level s).1

pub run : List Call → LogState → LogState
run [] s = s
run (c ∷ cs) s = run cs (step c s)

initialize-initialized : (s : LogState) → (initialize s).initialized ≡ true
unfolding initialize
initialize-initialized s = ground arith

set_callback-IsConsistent :
    (callback : Option ℕ) (s : LogState)
    → s.initialized ≡ true
    → IsConsistent s
    → IsConsistent (set_callback callback s)
unfolding set_callback
set_callback-IsConsistent none s i h = ground arith
set_callback-IsConsistent (some f) s i h = ground arith

level-IsConsistent :
    (level : ℕ) (s : LogState)
    → IsConsistent s
    → IsConsistent (record s { current_log_level = level })
level-IsConsistent level s h = ground arith

cwipc_log_configure-IsConsistent :
    (level : ℕ) (callback : Option ℕ) (s : LogState)
    → IsConsistent s
    → IsConsistent (cwipc_log_configure level callback s)
unfolding cwipc_log_configure
cwipc_log_configure-IsConsistent level callback s h = ground (
  arith,
  set_callback-IsConsistent callback (initialize s) (initialize-initialized s)
      (initialize-IsConsistent s h),
  set_callback-IsConsistent callback (record (initialize s) { current_log_level = level })
      (initialize-initialized s)
      (level-IsConsistent level (initialize s) (initialize-IsConsistent s h)),
  cwipc_log-IsConsistent level_debug "logging" "Logging configured"
      (set_callback callback (initialize s)),
  cwipc_log-IsConsistent level_debug "logging" "Logging configured"
      (set_callback callback (record (initialize s) { current_log_level = level })),
)

step-IsConsistent : (c : Call) (s : LogState) → IsConsistent s → IsConsistent (step c s)
unfolding step
step-IsConsistent (configure level callback) s h =
    cwipc_log_configure-IsConsistent level callback s h
step-IsConsistent (log level name text) s h = cwipc_log-IsConsistent level name text s h
step-IsConsistent (set_errorbuf buf) s h = ground (arith, initialize-IsConsistent s h)
step-IsConsistent get_level s h = initialize-IsConsistent s h

run_from-IsConsistent : (cs : List Call) (s : LogState) → IsConsistent s → IsConsistent (run cs s)
unfolding run
run_from-IsConsistent [] s h = h
run_from-IsConsistent (c ∷ cs) s h = run_from-IsConsistent cs (step c s) (step-IsConsistent c s h)

-- After any sequence of calls of the logging interface from the start of the process, in any
-- environment, the flag for the callback is set exactly when there is a callback, the one for the
-- file exactly when there is a stream (which can be the standard error stream), and the flag
-- log_to_stderr exactly when neither of the others is; before the first initialisation the first
-- two are not set.
pub run-IsConsistent :
    (env : Option String) (cs : List Call) → IsConsistent (run cs (fresh_log env))
run-IsConsistent env cs = run_from-IsConsistent cs (fresh_log env) (fresh_log-IsConsistent env)
