-- ===== src/Prelude/Int/Checked.antt =====
-- The checked arithmetic of `i32` and `i64`; `half` is `2^(w-1)`.
use native.Mathlib.Nat.{div-add-mod', mul_comm}
use crabgresql.Prelude.{
  ℕ, zero, suc, ◌/◌, ◌%◌, ◌≡◌, Bool, true, false, Option, some, none, arith, ltb, Bool-cases, inl,
  inr, if◌then◌else◌,
}
use crabgresql.Prelude.Int.{ℤ, pos, negsuc, sub_ℕ, ◌+ℤ◌, ◌-ℤ◌, ◌*ℤ◌, Fits}

unfoldable pub fits : ℕ → ℤ → Bool
fits half (pos n) = ltb n half
fits half (negsuc n) = ltb n half

-- The result, if it is in range.
unfoldable pub checked : ℕ → ℤ → Option ℤ
checked half n = if fits half n then some n else none

unfoldable pub checked_add : ℕ → ℤ → ℤ → Option ℤ
checked_add half a b = checked half (a +ℤ b)

unfoldable pub checked_sub : ℕ → ℤ → ℤ → Option ℤ
checked_sub half a b = checked half (a -ℤ b)

unfoldable pub checked_mul : ℕ → ℤ → ℤ → Option ℤ
checked_mul half a b = checked half (a *ℤ b)

unfoldable pub checked_neg : ℕ → ℤ → Option ℤ
checked_neg half a = checked half (pos 0 -ℤ a)

-- Division truncates toward zero; the remainder has the sign of the dividend.
unfoldable pub quot : ℤ → ℤ → ℤ
quot (pos a) (pos b) = pos (a / b)
quot (pos a) (negsuc b) = sub_ℕ 0 (a / suc b)
quot (negsuc a) (pos b) = sub_ℕ 0 (suc a / b)
quot (negsuc a) (negsuc b) = pos (suc a / suc b)

unfoldable pub rem : ℤ → ℤ → ℤ
rem (pos a) (pos b) = pos (a % b)
rem (pos a) (negsuc b) = pos (a % suc b)
rem (negsuc a) (pos b) = sub_ℕ 0 (suc a % b)
rem (negsuc a) (negsuc b) = sub_ℕ 0 (suc a % suc b)

unfoldable pub is_zero : ℤ → Bool
is_zero (pos zero) = true
is_zero _ = false

unfoldable pub checked_div : ℕ → ℤ → ℤ → Option ℤ
checked_div half a b = if is_zero b then none else checked half (quot a b)

pub fits_lem : (half : ℕ) (n : ℤ) → fits half n ≡ true → Fits half n
unfolding fits
fits_lem half (pos n) h = ground arith
fits_lem half (negsuc n) h = ground arith

pub checked-Fits : (half : ℕ) (n : ℤ) {m : ℤ} → checked half n ≡ some m → (n ≡ m) × Fits half m
unfolding checked
checked-Fits half n {m} h = elim (Bool-cases (fits half n)) [
  | inl e ↦ let eq : n ≡ m = ground (arith, e, h) in (eq, rw (← eq) (fits_lem half n e))
  | inr e ↦ absurd (ground (arith, e, h))
]

-- Quotient and remainder make the dividend.
pub quot-rem : (a b : ℤ) → is_zero b ≡ false → (b *ℤ quot a b) +ℤ rem a b ≡ a
unfolding is_zero quot rem ◌*ℤ◌ ◌+ℤ◌
quot-rem (pos a) (pos zero) h = absurd cc
quot-rem (pos a) (pos (suc b)) h =
    ground (arith, div-add-mod' a (suc b), mul_comm (suc b) (a / suc b))
quot-rem (pos a) (negsuc b) h = ground (arith, div-add-mod' a (suc b), mul_comm (suc b) (a / suc b))
quot-rem (negsuc a) (pos zero) h = absurd cc
quot-rem (negsuc a) (pos (suc b)) h =
    ground (arith, div-add-mod' (suc a) (suc b), mul_comm (suc b) (suc a / suc b))
quot-rem (negsuc a) (negsuc b) h =
    ground (arith, div-add-mod' (suc a) (suc b), mul_comm (suc b) (suc a / suc b))
