-- ===== src/Bytes/Decimal.antt =====
-- Decimal digits in ASCII: `to_string` of a number, and `parse` of digits.
use crabgresql.Prelude.{
  ℕ, zero, suc, ◌+◌, ◌-◌, ◌*◌, ◌/◌, ◌%◌, ◌≤◌, ◌<◌, ◌≡◌, true, false, [], ◌∷◌, ltb, arith,
  Bool-cases, inl, inr, ap, ◌∙◌, tests,
}
use crabgresql.Bytes.{Bytes}

-- The digits of `n` before those of `acc`, on fuel.
unfoldable pub digits_onto : ℕ → ℕ → Bytes → Bytes
digits_onto zero n acc = acc
digits_onto (suc fuel) n acc = elim (ltb n 10) [
  | true ↦ (48 + n) ∷ acc
  | false ↦ digits_onto fuel (n / 10) ((48 + n % 10) ∷ acc)
]

unfoldable pub to_string : ℕ → Bytes
to_string n = digits_onto (suc n) n []

-- The number that digits stand for, after the number `acc`.
unfoldable pub parse_onto : ℕ → Bytes → ℕ
parse_onto acc [] = acc
parse_onto acc (d ∷ ds) = parse_onto (10 * acc + (d - 48)) ds

unfoldable pub parse_digits : Bytes → ℕ
parse_digits = parse_onto 0

unfoldable pub IsDigit : ℕ → Type 0
IsDigit d = (48 ≤ d) × (d < 58)

parse_onto-digits_onto :
    (fuel n : ℕ) (acc : Bytes) → n < fuel → parse_onto 0 (digits_onto fuel n acc) ≡ parse_onto n acc
unfolding digits_onto parse_onto
parse_onto-digits_onto zero n acc h = absurd (omega arith)
parse_onto-digits_onto (suc fuel) n acc h = elim (Bool-cases (ltb n 10)) [
  | inl e ↦
      let same : 10 * 0 + (48 + n - 48) ≡ n = omega arith in
      rw (digits_onto, e) (ap (λ z. parse_onto z acc) same)
  | inr e ↦
      let same : 10 * (n / 10) + (48 + n % 10 - 48) ≡ n = omega arith in
      rw (digits_onto, e)
        (parse_onto-digits_onto fuel (n / 10) ((48 + n % 10) ∷ acc) (omega (tests, e))
          ∙ ap (λ z. parse_onto z acc) same)
]

pub parse_digits-to_string : (n : ℕ) → parse_digits (to_string n) ≡ n
unfolding parse_digits to_string parse_onto
parse_digits-to_string n = parse_onto-digits_onto (suc n) n [] (omega arith)
