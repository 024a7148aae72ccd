-- ===== src/CloudCodec/Frame/Sync.antt =====
-- The search of `syncToHeader` finds the first place of the identifier (point_cloud_codec_v2_impl.hpp).
use mathlib.Core.List.{append-nil, append_assoc}
use cwipc.Common.{
  ℕ, zero, suc, ◌<◌, ◌≤◌, ◌≡◌, ◌≢◌, refl, sym, ap, ◌∙◌, inl, inr, Bool, true, false, Bool-cases,
  ◌&&◌, not, Option, none, some, List, [], ◌∷◌, ◌++◌, length, take, take_all, drop, get_or, All,
  arith, ◌==◌, ltb, if◌then◌else◌,
}
use cwipc.Words.{drop-append}
use cwipc.CloudCodec.Frame.{sync_from}

-- Whether a text begins with an identifier.
abbrev pub begins : List ℕ → List ℕ → Bool
begins [] text = true
begins (i ∷ identifier) [] = false
begins (i ∷ identifier) (c ∷ text) = c == i && begins identifier text

-- What follows the first place of an identifier in a text.
abbrev pub after_first : List ℕ → List ℕ → Option (List ℕ)
after_first identifier [] = elim identifier [ [] ↦ some [] | i ∷ is ↦ none ]
after_first identifier (c ∷ text) =
    let later = after_first identifier text in
    if begins identifier (c ∷ text) then some (drop (length identifier) (c ∷ text)) else later

abbrev pub first_of : Option (List ℕ) → Option (List ℕ) → Option (List ℕ)
first_of (some rest) other = some rest
first_of none other = other

-- What follows it in a text, or else in the text with one more character.
abbrev pub after_first_or_unread : List ℕ → ℕ → List ℕ → Option (List ℕ)
after_first_or_unread identifier unread text =
    first_of (after_first identifier text) (after_first identifier (text ++ unread ∷ []))

first_of-both : {a b a' b' : Option (List ℕ)} → a ≡ a' → b ≡ b' → first_of a b ≡ first_of a' b'
first_of-both {a} {b} {a'} {b'} e e' = ap (λ o. first_of o b) e ∙ ap (first_of a') e'

begins_self : (identifier text : List ℕ) → begins identifier (identifier ++ text) ≡ true
begins_self [] text = refl
begins_self (i ∷ identifier) text = ground (arith, begins_self identifier text)

-- A text that goes on from the first characters of an identifier does not begin with the identifier if its
-- next character is another, or if it ends.
begins_other :
    (identifier : List ℕ) (pos c : ℕ) (text : List ℕ)
    → pos < length identifier
    → c ≢ get_or identifier pos 0
    → begins identifier (take pos identifier ++ c ∷ text) ≡ false
begins_other [] pos c text h ne = absurd (omega arith)
begins_other (i ∷ identifier) zero c text h ne = ground arith
begins_other (i ∷ identifier) (suc pos) c text h ne =
    ground (arith, begins_other identifier pos c text (omega arith) ne)

begins_short :
    (identifier : List ℕ) (pos : ℕ)
    → pos < length identifier
    → begins identifier (take pos identifier) ≡ false
begins_short [] pos h = absurd (omega arith)
begins_short (i ∷ identifier) zero h = refl
begins_short (i ∷ identifier) (suc pos) h =
    ground (arith, begins_short identifier pos (omega arith))

take_more :
    (identifier text : List ℕ) (pos : ℕ)
    → pos < length identifier
    → take (suc pos) identifier ++ text ≡ take pos identifier ++ get_or identifier pos 0 ∷ text
take_more [] text pos h = absurd (omega arith)
take_more (i ∷ identifier) text zero h = refl
take_more (i ∷ identifier) text (suc pos) h =
    ap (◌∷◌ i) (take_more identifier text pos (omega arith))

-- One character is no identifier, if it is not where the identifier has it.
alone :
    (i : ℕ) (is : List ℕ) (c pos : ℕ)
    → pos < length (i ∷ is)
    → c ≢ get_or (i ∷ is) pos 0
    → after_first (i ∷ is) (c ∷ []) ≡ none
alone i [] c zero h ne = ground arith
alone i [] c (suc pos) h ne = absurd (omega arith)
alone i (j ∷ is) c pos h ne = ground arith

All-take {κ} : (P : ℕ → Type κ) (n : ℕ) (xs : List ℕ) → All P xs → All P (take n xs)
All-take P zero xs h = tt
All-take P (suc n) [] h = tt
All-take P (suc n) (x ∷ xs) h = (h.0, All-take P n xs h.1)

module _ (i : ℕ) (is : List ℕ) (once : All (λ c. c ≢ i) is) where
  abbrev identifier : List ℕ
  identifier = i ∷ is

  skip :
      (passed text : List ℕ)
      → All (λ c. c ≢ i) passed
      → after_first identifier (passed ++ text) ≡ after_first identifier text
  skip [] text h = refl
  skip (c ∷ passed) text h = ground (arith, skip passed text h.1)

  short_text :
      (pos : ℕ) → pos < length identifier → after_first identifier (take pos identifier) ≡ none
  short_text zero h = refl
  short_text (suc pos) h = rw (begins_short identifier (suc pos) h) (
      ap (after_first identifier) (sym (append-nil (take pos is)))
      ∙ skip (take pos is) [] (All-take _ pos is once))

  -- A character that is not the next one of the identifier.
  mismatch :
      (pos c : ℕ) (ss : List ℕ)
      → pos < length identifier
      → c ≢ get_or identifier pos 0
      → after_first identifier (take pos identifier ++ c ∷ ss) ≡ after_first identifier (c ∷ ss)
  mismatch zero c ss h ne = refl
  mismatch (suc pos) c ss h ne =
      rw (begins_other identifier (suc pos) c ss h ne)
        (skip (take pos is) (c ∷ ss) (All-take _ pos is once))

  full : (pos : ℕ) → pos ≡ length identifier → take pos identifier ≡ identifier
  full pos e = rw e (take_all identifier)

  whole : (ss : List ℕ) → after_first identifier (identifier ++ ss) ≡ some ss
  whole ss = rw (begins_self identifier ss, drop-append identifier ss) refl

  module _ (unread : ℕ) where
    -- The identifier, or its first characters, and what follows.
    abbrev expected : ℕ → List ℕ → Option (List ℕ)
    expected pos ss = after_first_or_unread identifier unread (take pos identifier ++ ss)

    expected-more :
        (pos : ℕ) (ss : List ℕ)
        → pos < length identifier
        → expected (suc pos) ss ≡ expected pos (get_or identifier pos 0 ∷ ss)
    expected-more pos ss h =
        ap (after_first_or_unread identifier unread) (take_more identifier ss pos h)

    expected-mismatch :
        (pos c : ℕ) (ss : List ℕ)
        → pos < length identifier
        → c ≢ get_or identifier pos 0
        → expected pos (c ∷ ss) ≡ expected 0 (c ∷ ss)
    expected-mismatch pos c ss h ne = first_of-both (mismatch pos c ss h ne) (
        ap (after_first identifier) (append_assoc (take pos identifier) (c ∷ ss) (unread ∷ []))
        ∙ mismatch pos c (ss ++ unread ∷ []) h ne)

    expected-skip : (c : ℕ) (ss : List ℕ) → c ≢ i → expected 0 (c ∷ ss) ≡ expected 0 ss
    expected-skip c ss ne =
        first_of-both (skip (c ∷ []) ss (ne, tt)) (skip (c ∷ []) (ss ++ unread ∷ []) (ne, tt))

    found_at :
        (text ss : List ℕ)
        → after_first identifier text ≡ some ss
        → after_first_or_unread identifier unread text ≡ some ss
    found_at text ss e = ap (λ o. first_of o (after_first identifier (text ++ unread ∷ []))) e

    expected-whole : (pos : ℕ) (ss : List ℕ) → pos ≡ length identifier → expected pos ss ≡ some ss
    expected-whole pos ss e =
        found_at (take pos identifier ++ ss) ss
          (ap (λ text. after_first identifier (text ++ ss)) (full pos e) ∙ whole ss)

    -- One character, where the rest of the search is right.
    next :
        (c : ℕ) (ss : List ℕ) (pos : ℕ)
        → pos < length identifier
        → ((p : ℕ) → p ≤ length identifier → sync_from identifier unread p ss ≡ expected p ss)
        → (if c == get_or identifier pos 0
            then sync_from identifier unread (suc pos) ss
            else if c == i
            then sync_from identifier unread 1 ss
            else sync_from identifier unread 0 ss)
          ≡ expected pos (c ∷ ss)
    next c ss pos h rest = elim (Bool-cases (c == get_or identifier pos 0)) [
      | inl same ↦
          let e : c ≡ get_or identifier pos 0 = ground arith in
          rw same
            (rest (suc pos) h ∙ expected-more pos ss h ∙ ap (λ d. expected pos (d ∷ ss)) (sym e))
      | inr other ↦ elim (Bool-cases (c == i)) [
        | inl first ↦
            let e : c ≡ i = ground arith in
            rw (other, first)
              (rest 1 (omega arith)
                ∙ ap (λ d. expected 0 (d ∷ ss)) (sym e)
                ∙ sym (expected-mismatch pos c ss h (ground arith)))
        | inr not_first ↦
            rw (other, not_first)
              (rest 0 (omega arith)
                ∙ sym (expected-skip c ss (ground arith))
                ∙ sym (expected-mismatch pos c ss h (ground arith)))
      ]
    ]

    -- The comparison after the end of the stream.
    last :
        (pos : ℕ)
        → pos < length identifier
        → (if unread == get_or identifier pos 0 && suc pos == length identifier
            then some []
            else none)
          ≡ after_first identifier (take pos identifier ++ unread ∷ [])
    last pos h = elim (Bool-cases (unread == get_or identifier pos 0)) [
      | inl same ↦
          let e : unread ≡ get_or identifier pos 0 = ground arith in
          let more : take pos identifier ++ unread ∷ [] ≡ take (suc pos) identifier =
            ap (λ d. take pos identifier ++ d ∷ []) e
            ∙ sym (take_more identifier [] pos h)
            ∙ append-nil (take (suc pos) identifier) in
          elim (Bool-cases (suc pos == length identifier)) [
            | inl all ↦
                ap (λ b. if b && suc pos == length identifier then some [] else none) same
                ∙ ap (λ b. if b then some [] else none) all
                ∙ sym (whole [])
                ∙ ap (after_first identifier) (append-nil identifier)
                ∙ ap (after_first identifier) (sym (full (suc pos) (ground arith)))
                ∙ ap (after_first identifier) (sym more)
            | inr short ↦
                ap (λ b. if b && suc pos == length identifier then some [] else none) same
                ∙ ap (λ b. if b then some [] else none) short
                ∙ sym (short_text (suc pos) (ground arith))
                ∙ ap (after_first identifier) (sym more)
          ]
      | inr other ↦
          let ne : unread ≢ get_or identifier pos 0 = ground arith in
          ap (λ b. if b && suc pos == length identifier then some [] else none) other
          ∙ sym (alone i is unread pos h ne)
          ∙ sym (mismatch pos unread [] h ne)
    ]

    sync_from_lem :
        (ss : List ℕ) (pos : ℕ)
        → pos ≤ length identifier
        → sync_from identifier unread pos ss ≡ expected pos ss
    unfolding sync_from
    sync_from_lem [] pos h = elim (Bool-cases (ltb pos (length identifier))) [
      | inl more ↦
          let text = take pos identifier in
          let none_there : after_first identifier (text ++ []) ≡ none =
            ap (after_first identifier) (append-nil text) ∙ short_text pos (ground arith) in
          rw more (
            last pos (ground arith)
            ∙ ap (λ t. after_first identifier (t ++ unread ∷ [])) (sym (append-nil text))
            ∙ ap (λ o. first_of o (after_first identifier ((text ++ []) ++ unread ∷ [])))
                (sym none_there))
      | inr done ↦ rw done (sym (expected-whole pos [] (ground arith)))
    ]
    sync_from_lem (c ∷ ss) pos h = elim (Bool-cases (ltb pos (length identifier))) [
      | inl more ↦ rw more (next c ss pos (ground arith) (sync_from_lem ss))
      | inr done ↦ rw done (sym (expected-whole pos (c ∷ ss) (ground arith)))
    ]

-- For an identifier whose first character does not occur in it again, the search of syncToHeader
-- finds the first place of the identifier in the stream, whatever comes before. If there is none,
-- it fails, unless the value that it compares after the end of the stream, where no character was
-- read, completes the identifier.
pub sync_from-after_first :
    (i : ℕ) (is : List ℕ) (unread : ℕ) (text : List ℕ)
    → All (λ c. c ≢ i) is
    → sync_from (i ∷ is) unread 0 text ≡ after_first_or_unread (i ∷ is) unread text
sync_from-after_first i is unread text once = sync_from_lem i is once unread text 0 (omega arith)

-- A stream that starts with the identifier.
pub sync_from_whole :
    (i : ℕ) (is : List ℕ) (unread : ℕ) (text : List ℕ)
    → All (λ c. c ≢ i) is
    → sync_from (i ∷ is) unread 0 (i ∷ (is ++ text)) ≡ some text
sync_from_whole i is unread text once =
    sync_from-after_first i is unread (i ∷ (is ++ text)) once
    ∙ found_at i is once unread (i ∷ (is ++ text)) text (whole i is once text)

abbrev pub differ_from : ℕ → List ℕ → Bool
differ_from i [] = true
differ_from i (c ∷ is) = not (c == i) && differ_from i is

pub All-differ : (i : ℕ) (is : List ℕ) → differ_from i is ≡ true → All (λ c. c ≢ i) is
All-differ i [] h = tt
All-differ i (c ∷ is) h = (ground arith, All-differ i is (ground arith))
