-- ===== src/Prelude/Int.antt =====
-- Go's signed integers, and results with an error.
use Prim.Native.Nat.{ℕ, zero, suc, ◌+◌, ◌-◌}
use mathlib.Core.Bool.{Bool, true, false}
use mathlib.Core.Logic.{◌⊎◌, inl, inr}
use mathlib.Core.Path.{◌≡◌, refl}
use traefik.Prelude.Tests.{leb, ◌==◌, if◌then◌else◌}

-- `negsuc n` is -(n + 1).
pub data ℤ : Type 0 where
  pos : ℕ → ℤ
  negsuc : ℕ → ℤ

-- `n > 0`
abbrev pub is_positive : ℤ → Bool
is_positive (pos zero) = false
is_positive (pos (suc n)) = true
is_positive (negsuc n) = false

-- `n == 0`
abbrev pub is_zero : ℤ → Bool
is_zero (pos zero) = true
is_zero (pos (suc n)) = false
is_zero (negsuc n) = false

-- `n == m`
abbrev pub int_eq : ℤ → ℤ → Bool
int_eq (pos n) (pos m) = n == m
int_eq (negsuc n) (negsuc m) = n == m
int_eq _ _ = false

-- `n + k` at a length `k`
abbrev pub add_length : ℤ → ℕ → ℤ
add_length (pos n) k = pos (n + k)
add_length (negsuc n) k = if leb (suc n) k then pos (k - suc n) else negsuc (n - k)

-- A value, or the error that a call returned in its place.
pub data Result {ℓ κ} (E : Type ℓ) (A : Type κ) : Type (ℓ ⊔ κ) where
  ok : A → Result E A
  err : E → Result E A

pub Result-cases {ℓ κ} :
    {E : Type ℓ} {A : Type κ} (r : Result E A) → ((a : A) × (r ≡ ok a)) ⊎ ((e : E) × (r ≡ err e))
Result-cases (ok a) = inl (a, refl)
Result-cases (err e) = inr (e, refl)
