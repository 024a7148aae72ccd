-- ===== src/Common/Loops.antt =====
-- Counted loops over the native numbers.
use Prim.Native.Nat.{ℕ, zero, suc, ◌+◌, ◌<◌}
use mathlib.Core.Path.{◌≡◌}
use native.Mathlib.Omega.{arith}

-- `for (k = i; k < i + n; k++) s = body(k, s)`.
unfoldable pub for_range {ℓ} : {S : Type ℓ} → ℕ → ℕ → (ℕ → S → S) → S → S
for_range zero i body s = s
for_range (suc n) i body s = for_range n (suc i) body (body i s)

-- What every round keeps holds at the end.
pub for_range-keeps {ℓ κ} :
    {S : Type ℓ} (P : ℕ → S → Type κ) (body : ℕ → S → S) (n i j : ℕ) (s : S)
    → i + n ≡ j
    → ((k : ℕ) (t : S) → k < j → P k t → P (suc k) (body k t))
    → P i s
    → P j (for_range n i body s)
unfolding for_range
for_range-keeps P body zero i j s e keep h = let e' : i ≡ j = omega arith in rw (← e') h
for_range-keeps P body (suc n) i j s e keep h =
    for_range-keeps P body n (suc i) j (body i s) (omega arith) keep (keep i s (omega arith) h)
