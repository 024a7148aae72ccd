-- ===== src/Logging.antt =====
-- cwipc_util/src/logging.cpp: the log level, the destinations of a message and the error buffer of
-- the API call in progress. The static variables are the record `LogState`. A `char **` of a caller
-- is a number, and `cells` holds what the `char *` at each of them points to (`none` is NULL). A
-- message is kept as its parts, without the time stamp that is printed in front of it.
pub mod Destinations
pub mod Samples
use Prim.Native.Char.{Char, code}
use text.Mathlib.Text.{◌==◌ as str_eq}
use cwipc.Common.{
  ℕ, ◌≡◌, Bool, true, false, not, ◌&&◌, Option, none, some, List, [], ◌∷◌, ◌++◌, String, ltb, leb,
  ◌==◌, if◌then◌else◌,
}

-- `enum cwipc_log_level`, by its numbers.
abbrev pub level_none : ℕ
level_none = 0

abbrev pub level_error : ℕ
level_error = 1

abbrev pub level_warning : ℕ
level_warning = 2

abbrev pub level_trace : ℕ
level_trace = 3

abbrev pub level_debug : ℕ
level_debug = 4

-- What an error buffer can point to: a logged message, or the text that an entry point prints for an
-- API version (or encoder parameter version) that it does not accept, or another text of its own.
pub data Message : Type 0 where
  logged : String → ℕ → String → Message
  bad_version : String → ℕ → Message
  literal : String → Message

-- Where a message goes.
pub data Line : Type 0 where
  to_stderr to_stream : Message → Line
  to_callback : ℕ → ℕ → Message → Line

pub record LogState : Type 0 where
  -- `getenv("CWIPC_LOGGING")`.
  pub env : Option String
  pub initialized : Bool
  pub current_error_buf : Option ℕ
  pub current_log_level : ℕ
  -- The stream that `initialize` opens: `some ""` is the standard error stream.
  pub log_stream : Option String
  pub log_callback : Option ℕ
  pub log_to_callback : Bool
  pub log_to_stderr : Bool
  pub log_to_file : Bool
  pub cells : ℕ → Option Message
  pub lines : List Line

abbrev pub level_to_string : ℕ → String
level_to_string level =
    if level == level_error
    then "Error"
    else if level == level_warning
    then "Warning"
    else if level == level_trace
    then "Trace"
    else if level == level_debug
    then "Debug"
    else "Unknown-level"

unfoldable pub string_to_level : String → ℕ
string_to_level levelstr =
    if str_eq levelstr "NONE"
    then level_none
    else if str_eq levelstr "ERROR"
    then level_error
    else if str_eq levelstr "WARNING"
    then level_warning
    else if str_eq levelstr "TRACE"
    then level_trace
    else if str_eq levelstr "DEBUG"
    then level_debug
    else level_warning

-- The text before the first colon, and the text after it (empty where there is none).
unfoldable pub split_at_colon : String → String × String
split_at_colon String.[] = (String.[], String.[])
split_at_colon (String.◌∷◌ c s) =
    let rest = split_at_colon s in
    if code c == b':' then (String.[], s) else (String.◌∷◌ c rest.0, rest.1)

-- `initialize` where the environment variable is set.
initialize_env : String → LogState → LogState
unfolding split_at_colon string_to_level
initialize_env value s =
    let (level_s, filename_s) = split_at_colon value in
    record s {
      current_log_level = string_to_level level_s;
      log_stream = some filename_s;
      log_to_stderr = false;
      log_to_file = true;
      initialized = true;
    }

initialize_unset : Option String → LogState → LogState
unfolding initialize_env
initialize_unset none s = record s { initialized = true }
initialize_unset (some value) s = initialize_env value s

unfoldable pub initialize : LogState → LogState
unfolding initialize_unset
initialize s = if s.initialized then s else initialize_unset s.env s

-- Store through the caller's pointer.
abbrev pub set_cell : ℕ → Message → LogState → LogState
set_cell p m s = record s { cells = λ q. if p == q then some m else s.cells q }

-- An error goes to the error buffer, if there is one and it holds no earlier error.
store_error : Option ℕ → ℕ → Message → LogState → LogState
store_error none level m s = s
store_error (some p) level m s = elim (s.cells p) [
  | none ↦ if level == level_error then set_cell p m s else s
  | some _ ↦ s
]

abbrev emit : Line → LogState → LogState
emit l s = record s { lines = s.lines ++ l ∷ [] }

emit_stderr : Message → LogState → LogState
emit_stderr m s = if s.log_to_stderr then emit (to_stderr m) s else s

emit_stream : Message → LogState → LogState
emit_stream m s = elim s.log_stream [
  | none ↦ s
  | some _ ↦ if s.log_to_file then emit (to_stream m) s else s
]

emit_callback : ℕ → Message → LogState → LogState
emit_callback level m s = elim s.log_callback [
  | none ↦ s
  | some f ↦ if s.log_to_callback then emit (to_callback f level m) s else s
]

-- `cwipc_log` behind its early return.
pub log_message : ℕ → Message → LogState → LogState
unfolding store_error emit_stderr emit_stream emit_callback
log_message level m s =
    emit_callback level m
      (emit_stream m (emit_stderr m (store_error s.current_error_buf level m s)))

unfoldable pub cwipc_log : ℕ → String → String → LogState → LogState
cwipc_log level name message s =
    let s' = initialize s in
    if ltb s'.current_log_level level then s' else log_message level (logged name level message) s'

unfoldable pub cwipc_log_set_errorbuf : Option ℕ → LogState → LogState
unfolding initialize
cwipc_log_set_errorbuf buf s = record (initialize s) { current_error_buf = buf }

unfoldable pub cwipc_log_get_level : LogState → ℕ × LogState
unfolding initialize
cwipc_log_get_level s = let s' = initialize s in (s'.current_log_level, s')

set_callback : Option ℕ → LogState → LogState
set_callback (some f) s = record s {
  log_callback = some f;
  log_to_callback = true;
  log_to_stderr = false;
}
set_callback none s = record s {
  log_callback = none;
  log_to_callback = false;
  log_to_stderr = not s.log_to_file;
}

abbrev set_level : ℕ → LogState → LogState
set_level level s = if level == level_none then s else record s { current_log_level = level }

unfoldable pub cwipc_log_configure : ℕ → Option ℕ → LogState → LogState
unfolding initialize set_callback
cwipc_log_configure level callback s =
    let s' = set_callback callback (set_level level (initialize s)) in
    if leb level_debug s'.current_log_level
    then cwipc_log level_debug "logging" "Logging configured" s'
    else s'

-- The static variables before the first call, in a process with this environment and no message in
-- any caller's buffer.
abbrev pub fresh_log : Option String → LogState
fresh_log env = record {
  env = env;
  initialized = false;
  current_error_buf = none;
  current_log_level = level_warning;
  log_stream = none;
  log_callback = none;
  log_to_callback = false;
  log_to_stderr = true;
  log_to_file = false;
  cells = λ _. none;
  lines = [];
}
