-- ===== src/Pgtypes/Ops/Literals.antt =====
-- crates/pgtypes/src/ops.rs: integer literals, and `str::parse` for integers.
use crabgresql.Prelude.{
  ℕ, zero, suc, ◌+◌, ◌/◌, ◌%◌, ◌^◌, ◌≡◌, ◌∙◌, refl, ap, sym, Bool, true, ◌&&◌, [], ◌∷◌, Option,
  some, none, Result, ok, err, arith, ltb, leb, ◌==◌, Bool-cases, inl, inr, if◌then◌else◌,
}
use crabgresql.Prelude.Int.{ℤ, pos, sub_ℕ, i32_half, i64_half}
use crabgresql.Prelude.Int.Checked.{fits}
use crabgresql.Bytes.{Bytes}
use crabgresql.Bytes.Decimal.{digits_onto, to_string, parse_digits, parse_digits-to_string}
use crabgresql.Pgtypes.TypeError.{Fault, error, overflow}
use crabgresql.Pgtypes.Datum.{int4, int8}
use crabgresql.Pgtypes.Crates.{Crates}
use crabgresql.Pgtypes.Ops.{Value}

unfoldable pub is_digit : ℕ → Bool
is_digit c = leb b'0' c && leb c b'9'

unfoldable pub all_digits : Bytes → Bool
all_digits [] = true
all_digits (c ∷ s) = is_digit c && all_digits s

-- One digit at least.
unfoldable pub digits : Bytes → Option ℕ
digits [] = none
digits (c ∷ s) = if all_digits (c ∷ s) then some (parse_digits (c ∷ s)) else none

abbrev signed : (ℕ → ℤ) → Option ℕ → Option ℤ
signed f none = none
signed f (some n) = some (f n)

-- `parse` to an integer wide enough.
unfoldable pub parse_int : Bytes → Option ℤ
parse_int [] = none
parse_int (c ∷ s) =
    if c == b'+'
    then signed pos (digits s)
    else if c == b'-'
    then signed (λ n. sub_ℕ 0 n) (digits s)
    else signed pos (digits (c ∷ s))

module _ (C : Crates) where
  unfoldable pub int_literal : Bytes → Result Fault (Value C)
  int_literal s = elim (parse_int s) [
    | none ↦ err (error overflow)
    | some n ↦
        if fits i32_half n
        then ok (int4 n)
        else if fits i64_half n
        then ok (int8 n)
        else err (error overflow)
  ]

digits_onto-digits :
    (fuel n : ℕ) (acc : Bytes) → all_digits acc ≡ true → all_digits (digits_onto fuel n acc) ≡ true
unfolding digits_onto all_digits is_digit
digits_onto-digits zero n acc h = h
digits_onto-digits (suc fuel) n acc h = elim (Bool-cases (ltb n 10)) [
  | inl e ↦ rw (digits_onto, e) (ground (arith, h, e))
  | inr e ↦
      rw (digits_onto, e)
        (digits_onto-digits fuel (n / 10) ((48 + n % 10) ∷ acc) (ground (arith, h)))
]

digits_onto-cons :
    (fuel n d : ℕ) (acc : Bytes) → (c : ℕ) × (s : Bytes) × (digits_onto fuel n (d ∷ acc) ≡ c ∷ s)
unfolding digits_onto
digits_onto-cons zero n d acc = (d, acc, refl)
digits_onto-cons (suc fuel) n d acc = elim (Bool-cases (ltb n 10)) [
  | inl e ↦ (48 + n, d ∷ acc, rw (digits_onto, e) refl)
  | inr e ↦
      let (c, s, h) = digits_onto-cons fuel (n / 10) (48 + n % 10) (d ∷ acc) in
      (c, s, rw (digits_onto, e) h)
]

to_string-cons : (n : ℕ) → (c : ℕ) × (s : Bytes) × (to_string n ≡ c ∷ s)
unfolding to_string digits_onto
to_string-cons n = elim (Bool-cases (ltb n 10)) [
  | inl e ↦ (48 + n, [], rw (to_string, digits_onto, e) refl)
  | inr e ↦
      let (c, s, h) = digits_onto-cons n (n / 10) (48 + n % 10) [] in
      (c, s, rw (to_string, digits_onto, e) h)
]

parse_int-digits :
    (s : Bytes) (c : ℕ)
    → all_digits (c ∷ s) ≡ true
    → parse_int (c ∷ s) ≡ some (pos (parse_digits (c ∷ s)))
unfolding parse_int digits all_digits is_digit
parse_int-digits s c h = ground (arith, h)

pub parse_int-to_string : (n : ℕ) → parse_int (to_string n) ≡ some (pos n)
unfolding to_string all_digits
parse_int-to_string n =
    let (c, s, h) = to_string-cons n in
    let all : all_digits (c ∷ s) ≡ true =
      ap all_digits (sym h) ∙ digits_onto-digits (suc n) n [] refl in
    rw h (parse_int-digits s c all)
    ∙ ap (λ z. some (pos z)) (ap parse_digits (sym h) ∙ parse_digits-to_string n)

-- The literal that a number's digits are is the number: as `int4` below 2^31, as `int8` from there
-- to below 2^63, and an overflow from 2^63 on.
pub int_literal-to_string :
    (C : Crates) (n : ℕ)
    → int_literal C (to_string n) ≡ (
        if ltb n (2 ^ 31)
        then ok (int4 (pos n))
        else if ltb n (2 ^ 63)
        then ok (int8 (pos n))
        else err (error overflow))
unfolding int_literal fits
int_literal-to_string C n = rw (int_literal, parse_int-to_string n) (ground arith)
