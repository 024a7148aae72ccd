-- ===== src/Capturer.antt =====
-- The registry of capturers, and the choice among them (cwipc_util/src/cwipc_capturer.cpp). A capturer's
-- functions belong to its plugin; what the count function returns is a number that does not change
-- during the call. A `cwipc_activesource *` is a number.
pub mod Choice
pub mod Samples
use Prim.Native.Char.{Char, code}
use text.Mathlib.Text.{◌==◌ as str_eq}
use cwipc.Common.{
  ℕ, Bool, true, false, not, Option, none, some, List, [], ◌∷◌, ◌++◌, String, ◌==◌, if◌then◌else◌,
}
use cwipc.Common.Int.{ℤ}
use cwipc.Filters.{eq_ℤ}
use cwipc.Logging.{bad_version, literal, level_error}
use cwipc.World.{M, pure, ◌>>=◌, ◌>>◌, log, set_errorbuf, store_message}
use cwipc.Pointcloud.Create.{version_refused}

-- `struct capturer`. The factory takes the configuration, the error buffer and the API version.
pub record Capturer : Type 0 where
  pub name : String
  pub count_func : Option ℤ
  pub factory_func : String → Option ℕ → ℕ → M (Option ℕ)

-- What the JSON library says of the member "type" of a value.
pub data TypeMember : Type 0 where
  missing other_type : TypeMember
  type_name : String → TypeMember

-- The files, and the JSON library: `none` is a file that cannot be opened, or an exception.
pub record Configs : Type 0 where
  pub read : String → Option String
  pub parse : String → Option TypeMember

-- A call returns, or uses a NULL pointer, or leaves with an exception of the JSON library.
pub data Answer : Type 0 where
  source : Option ℕ → Answer
  undefined uncaught : Answer

-- `_cwipc_register_capturer`; it returns 1.
unfoldable pub register_capturer : Capturer → List Capturer → ℕ × List Capturer
register_capturer new_capturer all_capturers = (1, all_capturers ++ new_capturer ∷ [])

abbrev pub is_attached : Capturer → Bool
is_attached c = elim c.count_func [ none ↦ false | some n ↦ not (eq_ℤ n 0) ]

-- The search for a capturer with devices.
pub data Candidate : Type 0 where
  no_candidate several : Candidate
  candidate : Capturer → Candidate

unfoldable pub find_candidate : List Capturer → Option Capturer → Candidate
find_candidate [] none = no_candidate
find_candidate [] (some c) = candidate c
find_candidate (c ∷ cs) found =
    let skipped = find_candidate cs found in
    let taken = find_candidate cs (some c) in
    if is_attached c then elim found [ none ↦ taken | some other ↦ several ] else skipped

called : Capturer → String → Option ℕ → ℕ → M Answer
called c config error_message api = do
  rv ← c.factory_func config error_message api
  pure (source rv)

refused : String → M Answer
refused message = do log level_error "cwipc_capturer" message; set_errorbuf none; pure (source none)

-- The configuration "auto", for the result of the search.
unfoldable pub choose : Candidate → String → Option ℕ → ℕ → M Answer
unfolding called refused
choose no_candidate config error_message api = refused "auto: no supported cameras found"
choose several config error_message api = refused "auto: multiple supported cameras found"
choose (candidate c) config error_message api = called c config error_message api

-- `strrchr(s, '.')`.
unfoldable pub extension : String → Option String
extension String.[] = none
extension (String.◌∷◌ c s) =
    let later = extension s in
    elim later [ some e ↦ some e | none ↦ if code c == b'.' then some (String.◌∷◌ c s) else none ]

abbrev pub is_literal : String → Bool
is_literal String.[] = false
is_literal (String.◌∷◌ c s) = code c == b'{'

-- A message of the function's own; the error buffer stays set.
failed : Option ℕ → String → M Answer
failed error_message message = do store_message error_message (literal message); pure (source none)

unfoldable pub find_by_name : String → List Capturer → Option Capturer
find_by_name type [] = none
find_by_name type (c ∷ cs) = if str_eq c.name type then some c else find_by_name type cs

by_name : Option Capturer → String → Option ℕ → ℕ → M Answer
unfolding called failed
by_name none config error_message api =
    failed error_message "cwipc_capturer: auto: camera type not supported"
by_name (some c) config error_message api = called c config error_message api

-- The JSON value's type decides.
unfoldable pub by_type : List Capturer → TypeMember → String → Option ℕ → ℕ → M Answer
unfolding by_name failed
by_type all_capturers missing config error_message api =
    failed error_message "cwipc_capturer: auto: cannot determine camera type"
by_type all_capturers other_type config error_message api = pure uncaught
by_type all_capturers (type_name type) config error_message api =
    by_name (find_by_name type all_capturers) config error_message api

parsed : List Capturer → Option TypeMember → String → Option ℕ → ℕ → M Answer
unfolding failed by_type
parsed all_capturers none config error_message api =
    failed error_message "cwipc_capturer: auto: JSON parse error"
parsed all_capturers (some type) config error_message api =
    by_type all_capturers type config error_message api

-- A file with another extension than ".json" counts as one without a type.
from_file : Configs → List Capturer → Option String → String → Option ℕ → ℕ → M Answer
unfolding failed parsed
from_file configs all_capturers none config error_message api = pure undefined
from_file configs all_capturers (some suffix) config error_message api =
    if str_eq suffix ".json"
    then elim (configs.read config) [
      | none ↦ failed error_message "cwipc_capturer: auto: cannot open"
      | some contents ↦ parsed all_capturers (configs.parse contents) config error_message api
    ]
    else by_type all_capturers missing config error_message api

unfoldable pub configured : Configs → List Capturer → String → Option ℕ → ℕ → M Answer
unfolding parsed from_file extension
configured configs all_capturers config error_message api =
    if is_literal config
    then parsed all_capturers (configs.parse config) config error_message api
    else from_file configs all_capturers (extension config) config error_message api

-- A NULL pointer or an empty string stands for the default file.
abbrev pub config_or_default : Option String → String
config_or_default none = "cameraconfig.json"
config_or_default (some String.[]) = "cameraconfig.json"
config_or_default (some (String.◌∷◌ c s)) = String.◌∷◌ c s

unfoldable pub capturer : Configs → List Capturer → Option String → Option ℕ → ℕ → M Answer
unfolding find_candidate
capturer configs all_capturers config_filename error_message api =
    let config = config_or_default config_filename in
    if version_refused api
    then (do store_message error_message (bad_version "cwipc_capturer" api); pure (source none))
    else (do
      set_errorbuf error_message
      if str_eq config "auto"
          then choose (find_candidate all_capturers none) config error_message api
          else configured configs all_capturers config error_message api)
