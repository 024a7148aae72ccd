-- ===== src/Capturer/Choice.antt =====
-- Which capturer is chosen (cwipc_util/src/cwipc_capturer.cpp).

use cwipc.Common.{
  ℕ, zero, suc, Bool, true, false, not, if◌then◌else◌, arith, ap, ◌∙◌, ◌≡◌, refl, Bool-cases, inl,
  inr, Option, none, some, List, [], ◌∷◌, filter_by, String,
}
use cwipc.Common.Int.{ℤ, pos, negsuc}
use cwipc.Filters.{eq_ℤ}
use cwipc.Logging.{level_error}
use cwipc.World.{World, set_errorbuf, log}
use cwipc.Pointcloud.Create.{api_version}
use cwipc.Capturer.{
  Capturer, Configs, Candidate, no_candidate, several, candidate, find_candidate, is_attached,
  choose, capturer, Answer, source,
}

-- A list of capturers as a candidate: one alone, or why there is none.
abbrev only : List Capturer → Candidate
only [] = no_candidate
only (c ∷ []) = candidate c
only (c ∷ d ∷ cs) = several

find_candidate-only :
    (cs : List Capturer)
    → (find_candidate cs none ≡ only (filter_by is_attached cs))
      × ((c : Capturer) → find_candidate cs (some c) ≡ only (c ∷ filter_by is_attached cs))
unfolding find_candidate
find_candidate-only [] = (refl, λ c. refl)
find_candidate-only (c ∷ cs) = elim (Bool-cases (is_attached c)) [
  | inl h ↦ (rw h ((find_candidate-only cs).1 c), λ d. rw h refl)
  | inr h ↦ (rw h (find_candidate-only cs).0, λ d. rw h ((find_candidate-only cs).1 d))
]

-- Whether a capturer has devices: it counts them, and not to 0.
abbrev has_devices : Option ℤ → Bool
has_devices none = false
has_devices (some (pos zero)) = false
has_devices (some (pos (suc n))) = true
has_devices (some (negsuc n)) = true

-- The capturers with devices.
abbrev pub with_devices : List Capturer → List Capturer
with_devices = filter_by (λ c. has_devices c.count_func)

counts : (n : Option ℤ) → elim n [ none ↦ false | some n ↦ not (eq_ℤ n 0) ] ≡ has_devices n
counts none = refl
counts (some (pos zero)) = refl
counts (some (pos (suc n))) = ground arith
counts (some (negsuc n)) = ground arith

is_attached-with_devices : (cs : List Capturer) → filter_by is_attached cs ≡ with_devices cs
is_attached-with_devices [] = refl
is_attached-with_devices (c ∷ cs) =
    ap (λ b. if b then c ∷ filter_by is_attached cs else filter_by is_attached cs)
      (counts c.count_func)
    ∙ ap (λ l. if has_devices c.count_func then c ∷ l else l) (is_attached-with_devices cs)

-- An error with a message, after which there is no error buffer.
abbrev pub fails_with : String → World → Answer × World
fails_with message w =
    (source none, (set_errorbuf none (log level_error "cwipc_capturer" message w).1).1)

-- What a call makes of the capturers with devices.
abbrev pub outcome : List Capturer → Option ℕ → World → Answer × World
outcome [] err w = fails_with "auto: no supported cameras found" w
outcome (c ∷ []) err w = let (rv, w') = c.factory_func "auto" err api_version w in (source rv, w')
outcome (c ∷ d ∷ cs) err w = fails_with "auto: multiple supported cameras found" w

choose-outcome :
    (cs : List Capturer) (err : Option ℕ) (w : World)
    → choose (only cs) "auto" err api_version w ≡ outcome cs err w
unfolding choose
choose-outcome [] err w = refl
choose-outcome (c ∷ []) err w = refl
choose-outcome (c ∷ d ∷ cs) err w = refl

-- With the configuration "auto", cwipc_capturer sets the error buffer and answers what the
-- factory of the one capturer that has devices makes; where none or several have, it logs an
-- error that says which, resets the error buffer and answers no source.
pub capturer-auto :
    (configs : Configs) (all : List Capturer) (err : Option ℕ) (w : World)
    → capturer configs all (some "auto") err api_version w
      ≡ outcome (with_devices all) err (set_errorbuf err w).1
unfolding capturer
capturer-auto configs all err w = rw (find_candidate-only all).0 (
    choose-outcome (filter_by is_attached all) err (set_errorbuf err w).1
    ∙ ap (λ cs. outcome cs err (set_errorbuf err w).1) (is_attached-with_devices all))
