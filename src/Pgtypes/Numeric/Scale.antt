-- ===== src/Pgtypes/Numeric/Scale.antt =====
-- Zero tests and display scales.
use crabgresql.Prelude.{ℕ, zero, suc, ◌≡◌, ◌∙◌, ◌↔◌, refl, ap, sym, true, [], ◌∷◌, arith}
use crabgresql.Prelude.Int.{ℤ, pos, negsuc, ◌≤ℤ◌, clamp}
use crabgresql.Bytes.{bytes_eq}
use crabgresql.Bytes.Equality.{bytes_eq_iff}
use crabgresql.Bytes.Decimal.{
  to_string, digits_onto, parse_digits, parse_onto, parse_digits-to_string,
}
use crabgresql.Pgtypes.Crates.{Crates}
use crabgresql.Pgtypes.Numeric.{digits_of, is_zero, select_div_scale}

zero_digits : (n : ℕ) → bytes_eq (to_string n) (b'0' ∷ []) ≡ true → n ≡ 0
unfolding parse_digits parse_onto
zero_digits n h =
    sym (parse_digits-to_string n) ∙ ap parse_digits ((bytes_eq_iff (to_string n) (b'0' ∷ [])).0 h)

digits_of_iff : (n : ℤ) → (bytes_eq (digits_of n) (b'0' ∷ []) ≡ true) ↔ (n ≡ pos 0)
unfolding digits_of to_string digits_onto bytes_eq
digits_of_iff (pos zero) = (λ h. refl, λ e. refl)
digits_of_iff (pos (suc n)) = (λ h. absurd (omega (arith, zero_digits (suc n) h)), λ e. absurd cc)
digits_of_iff (negsuc n) = (λ h. absurd (omega (arith, zero_digits (suc n) h)), λ e. absurd cc)

clamp-bounds :
    (n : ℤ) → (pos 0 ≤ℤ clamp n (pos 0) (pos 1000)) × (clamp n (pos 0) (pos 1000) ≤ℤ pos 1000)
unfolding clamp
clamp-bounds n = ground arith

module _ (C : Crates) where
  -- The test for zero, on decimal digits, is that of the mantissa.
  pub is_zero_iff :
      (bd : C.scalars.BigDecimal)
      → (is_zero C bd ≡ true) ↔ ((C.decimals.as_bigint_and_exponent bd).0 ≡ pos 0)
  unfolding is_zero digits_of
  is_zero_iff bd = digits_of_iff (C.decimals.as_bigint_and_exponent bd).0

  -- The display scale of a quotient lies between 0 and 1000.
  pub select_div_scale-Bounds :
      (a b : C.scalars.BigDecimal)
      → (pos 0 ≤ℤ select_div_scale C a b) × (select_div_scale C a b ≤ℤ pos 1000)
  unfolding select_div_scale
  select_div_scale-Bounds a b = clamp-bounds _
