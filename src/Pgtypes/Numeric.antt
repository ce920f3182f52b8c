-- ===== src/Pgtypes/Numeric.antt =====
-- crates/pgtypes/src/numeric.rs: the arithmetic of `numeric` values and the display scale of a
-- quotient, over the operations of the crate `bigdecimal`.
pub mod Scale
use Prim.Native.Nat.{Ordering}
use crabgresql.Prelude.{
  ℕ, suc, ◌+◌, ◌-◌, ◌≡◌, Bool, not, ◌&&◌, true, false, List, [], ◌∷◌, ◌++◌, Option, some, none,
  Result, ok, err, ltb, length, take, replicate, if◌then◌else◌,
}
use crabgresql.Prelude.Int.{
  ℤ, pos, negsuc, pos_part, neg_part, ◌+ℤ◌, ◌-ℤ◌, ◌*ℤ◌, ltb_ℤ, max_ℤ, clamp, div_euclid,
}
use crabgresql.Bytes.{Bytes, bytes_eq}
use crabgresql.Bytes.Decimal.{to_string, parse_digits}
use crabgresql.Pgtypes.TypeError.{Fault, error, division_by_zero, overflow}
use crabgresql.Pgtypes.Crates.{Crates}
use crabgresql.Pgtypes.ColumnType.{Typmod}

-- `to_string().trim_start_matches('-')` of a mantissa.
unfoldable pub digits_of : ℤ → Bytes
digits_of (pos n) = to_string n
digits_of (negsuc n) = to_string (suc n)

-- The leading decimal digits, padded with zeros to `count`.
unfoldable pub lead_digits : ℕ → Bytes → Bytes
lead_digits count digits = take count digits ++ replicate (count - length digits) b'0'

-- `DEC_DIGITS`, `MIN_SIG_DIGITS` and `MAX_DISPLAY_SCALE` are 4, 16 and 1000.
module _ (C : Crates) where
  abbrev Decimal : Type 0
  Decimal = C.scalars.BigDecimal

  unfoldable pub canonical : Decimal → Decimal
  canonical bd =
      if ltb_ℤ (C.decimals.fractional_digit_count bd) (pos 0)
      then C.decimals.with_scale bd (pos 0)
      else bd

  unfoldable pub add : Decimal → Decimal → Decimal
  add a b = canonical (C.decimals.add a b)

  unfoldable pub sub : Decimal → Decimal → Decimal
  sub a b = canonical (C.decimals.sub a b)

  unfoldable pub mul : Decimal → Decimal → Decimal
  mul a b = canonical (C.decimals.mul a b)

  unfoldable pub is_zero : Decimal → Bool
  is_zero bd = bytes_eq (digits_of (C.decimals.as_bigint_and_exponent bd).0) (b'0' ∷ [])

  -- The weight of the leading digit in base 10000, and the value of its group.
  unfoldable pub nbase_weight_and_lead : Decimal → ℤ × ℕ
  nbase_weight_and_lead bd =
      let (mant, scale) = C.decimals.as_bigint_and_exponent bd in
      let digits = digits_of mant in
      let dweight = pos (length digits) -ℤ pos 1 -ℤ scale in
      let w = div_euclid dweight 4 in
      let count = pos_part (dweight -ℤ (pos 4 *ℤ w) +ℤ pos 1) in
      if bytes_eq digits (b'0' ∷ [])
      then (pos 0, 0)
      else (w, parse_digits (lead_digits count digits))

  unfoldable pub select_div_scale : Decimal → Decimal → ℤ
  select_div_scale a b =
      let (w1, f1) = nbase_weight_and_lead a in
      let (w2, f2) = nbase_weight_and_lead b in
      let qweight = if ltb f1 f2 then (w1 -ℤ w2) -ℤ pos 1 else w1 -ℤ w2 in
      let s1 = max_ℤ (C.decimals.fractional_digit_count a) (pos 0) in
      let s2 = max_ℤ (C.decimals.fractional_digit_count b) (pos 0) in
      clamp (max_ℤ (pos 16 -ℤ (qweight *ℤ pos 4)) (s1 +ℤ s2)) (pos 0) (pos 1000)

  unfoldable pub div : Decimal → Decimal → Result Fault Decimal
  div a b =
      if is_zero b
      then err (error division_by_zero)
      else ok (C.decimals.with_scale_round (C.decimals.div a b) (select_div_scale a b))

  unfoldable pub rem : Decimal → Decimal → Result Fault Decimal
  rem a b = if is_zero b then err (error division_by_zero) else ok (canonical (C.decimals.rem a b))

  unfoldable pub sign : Decimal → Decimal
  sign bd = elim (C.decimals.cmp bd (C.decimals.of_int (pos 0))) [
    | Ordering.lt ↦ C.decimals.of_int (negsuc 0)
    | Ordering.eq ↦ C.decimals.of_int (pos 0)
    | Ordering.gt ↦ C.decimals.of_int (pos 1)
  ]

  -- Beyond the range of `f64` the value is infinite.
  unfoldable pub to_f64 : Decimal → ℕ
  to_f64 bd = elim (C.decimals.to_f64 bd) [ some f ↦ f | none ↦ 0x7FF0_0000_0000_0000 ]

  -- `numeric(precision, scale)`: rounds to the scale, then checks the digits before the point.
  unfoldable pub apply_typmod : Decimal → Typmod → Result Fault Decimal
  apply_typmod bd tm =
      let r = C.decimals.with_scale_round bd (pos tm.scale) in
      let (mant, scale) = C.decimals.as_bigint_and_exponent r in
      let int_digits = pos (length (digits_of mant)) -ℤ scale in
      if is_zero r
      then ok (canonical r)
      else if ltb_ℤ (pos tm.precision -ℤ pos tm.scale) int_digits
      then err (error overflow)
      else ok (canonical r)

  -- At most 16383 digits after the point and 131072 before it.
  unfoldable pub within_format_limits : Decimal → Bool
  within_format_limits bd =
      let (mant, exp) = C.decimals.as_bigint_and_exponent bd in
      let ndigits = pos (length (digits_of mant)) in
      not (ltb_ℤ (pos 16383) exp) && not (ltb_ℤ (pos 131071) (ndigits -ℤ pos 1 -ℤ exp))

  unfoldable pub parse : Bytes → Option Decimal
  parse s =
      let t = C.trim s in
      if bytes_eq t [] then none else elim (C.decimals.from_str t) [
        | none ↦ none
        | some bd ↦ if within_format_limits bd then some (canonical bd) else none
      ]
