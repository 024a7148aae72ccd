-- ===== src/Config/Tree.antt =====
-- A JSON library whose values are trees, and whose parser has a fixed result.
use text.Mathlib.Text.{◌==◌ as str_eq}
use mathlib.Core.List.{append_assoc, append-nil}
use cwipc.Common.{
  ℕ, zero, suc, ◌≡◌, refl, sym, ap, ◌∙◌, Bool, true, false, Option, none, some, List, [], ◌∷◌, ◌++◌,
  String, if◌then◌else◌, get_elem?,
}
use cwipc.Common.Int.{ℤ}
use cwipc.Config.{Json, either, object, list, assign, assign_from}
use cwipc.Config.Laws.{IsJson, last_value, either-none}

mutual
  pub data Value : Type 0 where
    null_value : Value
    int_value : ℤ → Value
    bool_value : Bool → Value
    double_value : ℕ → Value
    float_value : ℕ → Value
    string_value : String → Value
    array_value : Values → Value
    object_value : Members → Value

  pub data Values : Type 0 where
    no_values : Values
    one_more : Value → Values → Values

  pub data Members : Type 0 where
    no_members : Members
    assigned : Members → String → Value → Members

abbrev pub to_values : List Value → Values
to_values [] = no_values
to_values (v ∷ vs) = one_more v (to_values vs)

abbrev pub values_of : Values → List Value
values_of no_values = []
values_of (one_more v vs) = v ∷ values_of vs

abbrev pub lookup : String → Members → Option Value
lookup name no_members = none
lookup name (assigned ms name' v) = if str_eq name' name then some v else lookup name ms

abbrev pub put_at : Values → ℕ → Value → Values
put_at no_values i v = one_more v no_values
put_at (one_more w ws) zero v = one_more v ws
put_at (one_more w ws) (suc i) v = one_more w (put_at ws i v)

abbrev pub members_of : Value → Members
members_of (object_value ms) = ms
members_of v = no_members

abbrev pub elements_of : Value → Values
elements_of (array_value vs) = vs
elements_of v = no_values

abbrev pub int_of : Value → Option ℤ
int_of (int_value x) = some x
int_of v = none

abbrev pub bool_of : Value → Option Bool
bool_of (bool_value x) = some x
bool_of v = none

abbrev pub double_of : Value → Option ℕ
double_of (double_value x) = some x
double_of v = none

abbrev pub float_of : Value → Option ℕ
float_of (float_value x) = some x
float_of v = none

abbrev pub string_of : Value → Option String
string_of (string_value x) = some x
string_of v = none

-- The parser is given by its result.
abbrev pub tree : Option Value → Json Value
tree parsed = record {
  null = null_value;
  of_int = int_value;
  of_bool = bool_value;
  of_double = double_value;
  of_float = float_value;
  of_string = string_value;
  get_int = int_of;
  get_bool = bool_of;
  get_double = double_of;
  get_float = float_of;
  get_string = string_of;
  array = λ vs. array_value (to_values vs);
  elements = λ v. values_of (elements_of v);
  index = λ v i. get_elem? (values_of (elements_of v)) i;
  put_index = λ v i w. array_value (put_at (elements_of v) i w);
  member = λ v name. lookup name (members_of v);
  put = λ v name w. object_value (assigned (members_of v) name w);
  dump = λ v. "";
  parse = λ text. parsed;
}

values_of-to_values : (vs : List Value) → values_of (to_values vs) ≡ vs
values_of-to_values [] = refl
values_of-to_values (v ∷ vs) = ap (λ l. v ∷ l) (values_of-to_values vs)

choose_member :
    (o : Option Value) (b : Bool) (x : Value) (l : Option Value)
    → either o (if b then some x else l) some
      ≡ either (either o (if b then some x else none) some) l some
choose_member none true x l = refl
choose_member none false x l = refl
choose_member (some v) b x l = refl

lookup-assign :
    (parsed : Option Value) (name : String) (members : List (String × Value)) (v : Value)
    → lookup name (members_of (assign (tree parsed) v members))
      ≡ either (last_value name members) (lookup name (members_of v)) some
unfolding assign
lookup-assign parsed name [] v = refl
lookup-assign parsed name ((name', x) ∷ members) v =
    lookup-assign parsed name members (object_value (assigned (members_of v) name' x))
    ∙ choose_member (last_value name members) (str_eq name' name) x (lookup name (members_of v))

abbrev pub size : Values → ℕ
size no_values = 0
size (one_more v vs) = suc (size vs)

append_value :
    (vs : Values) (w : Value) → values_of (put_at vs (size vs) w) ≡ values_of vs ++ (w ∷ [])
append_value no_values w = refl
append_value (one_more v vs) w = ap (λ l. v ∷ l) (append_value vs w)

size-put_at : (vs : Values) (w : Value) → size (put_at vs (size vs) w) ≡ suc (size vs)
size-put_at no_values w = refl
size-put_at (one_more v vs) w = ap suc (size-put_at vs w)

elements-assign_from :
    (parsed : Option Value) (ws : List Value) (v : Value)
    → values_of (elements_of (assign_from (tree parsed) (size (elements_of v)) v ws))
      ≡ values_of (elements_of v) ++ ws
unfolding assign_from
elements-assign_from parsed [] v = sym (append-nil (values_of (elements_of v)))
elements-assign_from parsed (w ∷ ws) v =
    let vs : Values = elements_of v in
    let put : Values = put_at vs (size vs) w in
    ap (λ n. values_of (elements_of (assign_from (tree parsed) n (array_value put) ws)))
      (sym (size-put_at vs w))
    ∙ elements-assign_from parsed ws (array_value put)
    ∙ ap (λ l. l ++ ws) (append_value vs w)
    ∙ append_assoc (values_of vs) (w ∷ []) ws

pub tree-IsJson : (parsed : Option Value) → IsJson (tree parsed)
unfolding object list
tree-IsJson parsed = record {
  int = λ i. refl;
  bool = λ b. refl;
  double = λ d. refl;
  float = λ f. refl;
  string = λ s. refl;
  list_elements = λ vs. elements-assign_from parsed vs null_value;
  index = λ vs i. ap (λ l. get_elem? l i) (values_of-to_values vs);
  member = λ members name.
      lookup-assign parsed name members null_value ∙ sym (either-none (last_value name members));
}
