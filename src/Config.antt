-- ===== src/Config.antt =====
-- Configurations as JSON: the macros and base classes of
-- cwipc_util/include/cwipc_util/internal/capturers.hpp. The JSON library is a parameter. A `double` or a
-- `float` is its bit pattern.
pub mod Laws
pub mod Steps
pub mod Camera
pub mod Kinect
pub mod RealSense
pub mod Orbbec
mod Tree
mod Samples
use text.Mathlib.Text.{◌==◌ as str_eq}
use cwipc.Common.{
  ℕ, suc, Bool, true, false, ◌||◌, Option, none, some, List, [], ◌∷◌, ◌++◌, String, not, ◌==◌,
  if◌then◌else◌, ◌^◌, map,
}
use cwipc.Common.Int.{ℤ, pos, negsuc}

-- The library: a value from and to the types of the configuration (`none` is an exception), an array, its
-- elements, one element (`none` is an index or a type that cannot be read), an
-- assignment to an index, a member (`contains` says
-- whether it is there), and texts.
pub record Json (V : Type 0) : Type 0 where
  pub null : V
  pub of_int : ℤ → V
  pub of_bool : Bool → V
  pub of_double : ℕ → V
  pub of_float : ℕ → V
  pub of_string : String → V
  pub get_int : V → Option ℤ
  pub get_bool : V → Option Bool
  pub get_double : V → Option ℕ
  pub get_float : V → Option ℕ
  pub get_string : V → Option String
  pub array : List V → V
  pub elements : V → List V
  pub index : V → ℕ → Option V
  pub put_index : V → ℕ → V → V
  pub member : V → String → Option V
  pub put : V → String → V → V
  pub dump : V → String
  pub parse : String → Option V

-- A part of a configuration is read into an object: the object as it is left, and whether there was no
-- exception.
abbrev pub Reader : Type 0 → Type 0
Reader C = C → C × Bool

infixl 5 ◌>>◌
unfoldable pub ◌>>◌ : {C : Type 0} → Reader C → Reader C → Reader C
r₁ >> r₂ = λ c. let (c', ok) = r₁ c in if ok then r₂ c' else (c', false)

abbrev pub pure : {C : Type 0} → Reader C
pure = λ c. (c, true)

abbrev pub throw : {C : Type 0} → Reader C
throw = λ c. (c, false)

-- A change of the object.
abbrev pub modify : {C : Type 0} → (C → C) → Reader C
modify f = λ c. (f c, true)

-- What is done without a value, or with the value there is.
abbrev pub either : {A R : Type 0} → Option A → R → (A → R) → R
either none r k = r
either (some a) r k = k a

-- A reader of a member object.
unfoldable pub into : {C D : Type 0} → (C → D) → (D → C → C) → Reader D → Reader C
into part replace r = λ c. let (d, ok) = r (part c) in (replace d c, ok)

module _ {V : Type 0} (json : Json V) where
  -- `get_to`.
  abbrev pub get_to : {A C : Type 0} → (V → Option A) → V → (A → C → C) → Reader C
  get_to read v set = either (read v) throw (λ a. modify (set a))

  -- `_CWIPC_CONFIG_JSON_GET`.
  abbrev pub json_get : {A C : Type 0} → (V → Option A) → V → String → (A → C → C) → Reader C
  json_get read v name set = either (json.member v name) pure (λ x. get_to read x set)

  -- `at`, whose result is used by what follows.
  abbrev pub at : {C : Type 0} → V → String → (V → Reader C) → Reader C
  at v name k = either (json.member v name) throw k

  -- What follows a test by `contains`.
  abbrev pub if_contains : {C : Type 0} → V → String → (V → Reader C) → Reader C
  if_contains v name k = either (json.member v name) pure k

  -- A value after assignments to its members, in their order.
  pub assign : V → List (String × V) → V
  assign v [] = v
  assign v ((name, x) ∷ members) = assign (json.put v name x) members

  unfoldable pub object : List (String × V) → V
  object members = assign json.null members

  -- A value after assignments to consecutive indices.
  pub assign_from : ℕ → V → List V → V
  assign_from i v [] = v
  assign_from i v (x ∷ xs) = assign_from (suc i) (json.put_index v i x) xs

  unfoldable pub list : List V → V
  list xs = assign_from 0 json.null xs

  -- A loop over values.
  abbrev pub read_each : {C : Type 0} → (V → Reader C) → List V → Reader C
  read_each read [] = pure
  read_each read (v ∷ vs) = read v >> read_each read vs

  -- The type that a recording gives to a configuration or a camera.
  abbrev pub recording_type : String → Bool → List (String × V)
  recording_type type for_recording =
      if for_recording then ("type", json.of_string type) ∷ [] else []

  -- `_from_json` and `_to_json` of `CwipcBaseCaptureConfig`.
  abbrev pub read_base : {C : Type 0} → V → (String → C → C) → Reader C
  read_base v set = at v "type" (λ x. get_to json.get_string x set)

  abbrev pub base_json : String → List (String × V)
  base_json type = ("type", json.of_string type) ∷ ("version", json.of_int (pos 5)) ∷ []

  -- The checks that come before a configuration is read: its version, and its type.
  unfoldable pub read_checked :
      {C : Type 0} → (ℤ → Bool) → (String → Bool) → Option V → (ℤ → V → Reader C) → Reader C
  read_checked supported wanted parsed read = either parsed throw (λ v. at v "version" (λ x.
      either (json.get_int x) throw (λ version.
        if supported version
        then at v "type" (λ y.
          either (json.get_string y) throw (λ type. if wanted type then read version v else throw))
        else throw)))

-- Whether a number is a given one.
abbrev pub is_number : ℕ → ℤ → Bool
is_number n (pos k) = k == n
is_number n (negsuc k) = false
