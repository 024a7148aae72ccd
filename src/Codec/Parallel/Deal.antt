-- ===== src/Codec/Parallel/Deal.antt =====
-- Dealing a list out to a number of receivers in turn, as the multithreaded encoder of
-- cwipc_codec/src/cwipc_codec.cpp does with the clouds that it is fed.
use cwipc.Common.{
  ℕ, suc, ◌+◌, ◌%◌, ◌<◌, ◌≡◌, ◌≢◌, ◌∙◌, refl, sym, ap, Bool-cases, inl, inr, false, some, List, [],
  ◌∷◌, ◌++◌, length, get_elem?, set, get_elem?-set_self, get_elem?-set_ne, ==_iff, ◌==◌,
  if◌then◌else◌, arith,
}
use mathlib.Core.Path.{subst}
use mathlib.Core.List.{append-nil}
use cwipc.Codec.{Encoder}
use cwipc.Codec.Threads.Running.{IsRunning, times, Keeps}

-- What receiver `i` of `n` gets, where the first element goes to receiver `k % n`.
abbrev pub dealt : ℕ → ℕ → ℕ → List ℕ → List ℕ
dealt n i k [] = []
dealt n i k (t ∷ ts) = let rest = dealt n i (suc k) ts in if k % n == i then t ∷ rest else rest

pub dealt-append :
    (n i k t : ℕ) (ts : List ℕ)
    → dealt n i k (ts ++ t ∷ [])
      ≡ dealt n i k ts ++ (if (k + length ts) % n == i then t ∷ [] else [])
dealt-append n i k t [] = let same : k + 0 ≡ k = omega arith in rw same refl
dealt-append n i k t (u ∷ ts) =
    let same : k + suc (length ts) ≡ suc k + length ts = omega arith in
    elim (Bool-cases (k % n == i)) [
      | inl h ↦ rw (h, same) (ap (◌∷◌ u) (dealt-append n i (suc k) t ts))
      | inr h ↦ rw (h, same) (dealt-append n i (suc k) t ts)
    ]

-- Receiver `j` runs and was fed this much.
abbrev pub Slot : List Encoder → ℕ → List ℕ → Type 0
Slot es j ts = (e : Encoder) × (get_elem? es j ≡ some e) × IsRunning e × (times e ≡ ts)

different : (i j : ℕ) → (i == j) ≡ false → i ≢ j
different i j h eq = ground arith

-- One receiver takes a step; the others are as they were.
pub set-Slot :
    (es : List Encoder) (i j : ℕ) (e e' : Encoder) (more ts us : List ℕ)
    → i < length es
    → Keeps e e' more
    → times e ≡ ts
    → (i ≡ j → ts ≡ us)
    → Slot es j us
    → Slot (set es i e') j (us ++ (if i == j then more else []))
set-Slot es i j e e' more ts us bound keeps t same (d, found, runs, u) =
    elim (Bool-cases (i == j)) [
      | inl h ↦
          let eq : i ≡ j = (==_iff i j).0 h in
          rw h (
            e',
            subst (λ k. get_elem? (set es i e') k ≡ some e') eq (get_elem?-set_self es i e' bound),
            keeps.0,
            keeps.1 ∙ ap (◌++ more) (t ∙ same eq),
          )
      | inr h ↦
          let ne : i ≢ j = different i j h in
          rw h (d, get_elem?-set_ne es e' ne ∙ found, runs, u ∙ sym (append-nil us))
    ]
