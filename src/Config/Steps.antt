-- ===== src/Config/Steps.antt =====
-- Readers that succeed, one after the other.
use mathlib.Core.List.{append_assoc, append-nil}
use cwipc.Common.{
  ◌∷◌, List, sym, map, [], ◌++◌, ℕ, arith, ◌≡◌, refl, ap, ◌∙◌, Bool, true, false, some, String,
  if◌then◌else◌,
}
use cwipc.Config.{
  read_each, Json, Reader, ◌>>◌, either, into, at, if_contains, pure, throw, read_base,
  read_checked, is_number,
}
use cwipc.Common.Int.{ℤ, pos, negsuc}
use cwipc.Config.Laws.{IsJson}

pub both :
    {C : Type 0} (r₁ r₂ : Reader C) {c c' : C} {o : C × Bool}
    → r₁ c ≡ (c', true)
    → r₂ c' ≡ o
    → (r₁ >> r₂) c ≡ o
unfolding ◌>>◌
both r₁ r₂ e e' = ap (λ p. let (d, ok) = p in if ok then r₂ d else (d, false)) e ∙ e'

pub into_part :
    {C D : Type 0} (part : C → D) (replace : D → C → C) (r : Reader D) (c : C) {d : D} {ok : Bool}
    → r (part c) ≡ (d, ok)
    → into part replace r c ≡ (replace d c, ok)
unfolding into
into_part part replace r c e = ap (λ p. (replace (p.0) c, p.1)) e

pub is_number_lem : (n : ℕ) (i : ℤ) → is_number n i ≡ true → i ≡ pos n
is_number_lem n (pos k) e = ap pos (ground arith)
is_number_lem n (negsuc k) e = absurd (ground arith)

module _ {V : Type 0} (json : Json V) where
  pub at_member :
      {C : Type 0} (v : V) (name : String) (k : V → Reader C) (c : C) {x : V} {o : C × Bool}
      → json.member v name ≡ some x
      → k x c ≡ o
      → at json v name k c ≡ o
  at_member v name k c e e' = ap (λ m. either m throw k c) e ∙ e'

  pub contained :
      {C : Type 0} (v : V) (name : String) (k : V → Reader C) (c : C) {x : V} {o : C × Bool}
      → json.member v name ≡ some x
      → k x c ≡ o
      → if_contains json v name k c ≡ o
  contained v name k c e e' = ap (λ m. either m pure k c) e ∙ e'

  pub base_lem :
      {C : Type 0} (v : V) (set : String → C → C) (c : C) (type : String)
      → IsJson json
      → json.member v "type" ≡ some (json.of_string type)
      → read_base json v set c ≡ (set type c, true)
  base_lem v set c type laws e = simp (e, laws.string) refl

  -- What the checks let through, and what they refuse.
  pub check_accepts :
      {C : Type 0} (supported : ℤ → Bool) (wanted : String → Bool) (v : V) (read : ℤ → V → Reader C)
      (version : ℤ) (type : String) (c : C)
      → IsJson json
      → json.member v "version" ≡ some (json.of_int version)
      → json.member v "type" ≡ some (json.of_string type)
      → supported version ≡ true
      → wanted type ≡ true
      → read_checked json supported wanted (some v) read c ≡ read version v c
  unfolding read_checked
  check_accepts supported wanted v read version type c laws e e' s w =
      simp (e, e', laws.int, laws.string, s, w) refl

  pub check_refuses :
      {C : Type 0} (supported : ℤ → Bool) (wanted : String → Bool) (v : V) (read : ℤ → V → Reader C)
      (version : ℤ) (c : C)
      → IsJson json
      → json.member v "version" ≡ some (json.of_int version)
      → supported version ≡ false
      → read_checked json supported wanted (some v) read c ≡ (c, false)
  unfolding read_checked
  check_refuses supported wanted v read version c laws e s = simp (e, laws.int, s) refl

  -- A loop that reads elements one by one, in a state with the elements read so far.
  pub read_each-map :
      {C K : Type 0} (read : V → Reader C) (write : K → V) (restored : K → K) (state : List K → C)
      → ((k : K) (l : List K) → read (write k) (state l) ≡ (state (l ++ (restored k ∷ [])), true))
      → (ks l : List K)
      → read_each json read (map write ks) (state l) ≡ (state (l ++ map restored ks), true)
  read_each-map read write restored state step [] l = ap (λ l. (state l, true)) (sym (append-nil l))
  read_each-map read write restored state step (k ∷ ks) l =
      both (read (write k)) (read_each json read (map write ks)) (step k l) (
        read_each-map read write restored state step ks (l ++ (restored k ∷ []))
        ∙ ap (λ l. (state l, true)) (append_assoc l (restored k ∷ []) (map restored ks)))
