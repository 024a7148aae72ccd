-- ===== src/Config/Laws.antt =====
-- What the documentation of the JSON library says of the operations that the configurations use.
use text.Mathlib.Text.{◌==◌ as str_eq}
use cwipc.Common.{
  ℕ, ◌≡◌, refl, ap, ◌∙◌, Bool, Option, none, some, List, [], ◌∷◌, ◌++◌, String, get_elem?,
  if◌then◌else◌,
}
use cwipc.Common.Int.{ℤ}
use cwipc.Config.{Json, either, object, list}

-- The last value that is assigned to a member.
abbrev pub last_value : {V : Type 0} → String → List (String × V) → Option V
last_value name [] = none
last_value name ((name', x) ∷ members) =
    either (last_value name members) (if str_eq name' name then some x else none) some

pub either-none : {V : Type 0} (o : Option V) → o ≡ either o none some
either-none none = refl
either-none (some x) = refl

either_assoc :
    {V : Type 0} (o p q : Option V)
    → either (either o p some) q some ≡ either o (either p q some) some
either_assoc none p q = refl
either_assoc (some x) p q = refl

pub last_value-++ :
    {V : Type 0} (name : String) (xs ys : List (String × V))
    → last_value name (xs ++ ys) ≡ either (last_value name ys) (last_value name xs) some
last_value-++ name [] ys = either-none (last_value name ys)
last_value-++ name ((name', x) ∷ xs) ys =
    ap (λ o. either o (if str_eq name' name then some x else none) some) (last_value-++ name xs ys)
    ∙ either_assoc (last_value name ys) (last_value name xs)
        (if str_eq name' name then some x else none)

pub record IsJson {V : Type 0} (json : Json V) : Type 0 where
  pub int : (i : ℤ) → json.get_int (json.of_int i) ≡ some i
  pub bool : (b : Bool) → json.get_bool (json.of_bool b) ≡ some b
  pub double : (d : ℕ) → json.get_double (json.of_double d) ≡ some d
  pub float : (f : ℕ) → json.get_float (json.of_float f) ≡ some f
  pub string : (s : String) → json.get_string (json.of_string s) ≡ some s
  pub list_elements : (xs : List V) → json.elements (list json xs) ≡ xs
  pub index : (xs : List V) (i : ℕ) → json.index (json.array xs) i ≡ get_elem? xs i
  pub member :
      (members : List (String × V)) (name : String)
      → json.member (object json members) name ≡ last_value name members
