-- ===== src/Float32.antt =====
-- A `float` of the source is its IEEE 754 bit pattern, a number below 2 ^ 32. Here are the operations
-- that the modelled code performs on floats without arithmetic: the comparisons, the change of sign
-- and `std::min`.
use cwipc.Common.{
  Bool-cases, inl, inr, ℕ, ◌+◌, ◌-◌, ◌%◌, ◌^◌, ◌≡◌, Bool, false, not, ◌&&◌, ltb, leb, if◌then◌else◌,
}

abbrev pub Float32 : Type 0
Float32 = ℕ

abbrev pub zero_f : Float32
zero_f = 0

-- `std::numeric_limits<float>::infinity()`.
abbrev pub infinity : Float32
infinity = 0x7f80_0000

abbrev pub magnitude : Float32 → ℕ
magnitude f = f % 2 ^ 31

abbrev pub is_nan : Float32 → Bool
is_nan f = ltb infinity (magnitude f)

-- Where a float that is not NaN stands in the order; both zeros stand at 2 ^ 31.
abbrev pub rank : Float32 → ℕ
rank f = if ltb f (2 ^ 31) then 2 ^ 31 + magnitude f else 2 ^ 31 - magnitude f

-- `a < b`, `a <= b` and `a == b`: false if one of them is NaN.
abbrev pub lt_f : Float32 → Float32 → Bool
lt_f a b = not (is_nan a) && not (is_nan b) && ltb (rank a) (rank b)

abbrev pub le_f : Float32 → Float32 → Bool
le_f a b = not (is_nan a) && not (is_nan b) && leb (rank a) (rank b)

abbrev pub eq_f : Float32 → Float32 → Bool
eq_f a b = le_f a b && le_f b a

-- `-a`.
abbrev pub neg_f : Float32 → Float32
neg_f a = if ltb a (2 ^ 31) then a + 2 ^ 31 else a - 2 ^ 31

-- `std::min(a, b)`.
abbrev pub min_f : Float32 → Float32 → Float32
min_f a b = if lt_f b a then b else a

-- `std::min` gives one of its arguments.
pub min_f-nonneg :
    (a b : Float32)
    → lt_f a zero_f ≡ false
    → lt_f b zero_f ≡ false
    → lt_f (min_f a b) zero_f ≡ false
min_f-nonneg a b h h' = elim (Bool-cases (lt_f b a)) [ inl e ↦ rw e h' | inr e ↦ rw e h ]
