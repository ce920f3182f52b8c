-- ===== src/Pgtypes/Ops/Operators.antt =====
-- crates/pgtypes/src/ops.rs: `+`, `-`, `*`, `/` and `mod`.
pub mod Integers
pub mod Division
use crabgresql.Prelude.{◌||◌, Result, ok, err, if◌then◌else◌}
use crabgresql.Prelude.Int.{i32_half, i64_half}
use crabgresql.Prelude.Int.Checked
use crabgresql.Prelude.Int.Checked.{checked_add, checked_sub, checked_mul, checked_div}
use crabgresql.Pgtypes.TypeError.{Fault, error, panics, division_by_zero}
use crabgresql.Pgtypes.Datum.{null, int4, int8, numeric, is_null}
use crabgresql.Pgtypes.Float
use crabgresql.Pgtypes.Float.{is_finite, is_infinite, is_nan, partial_cmp, cmp_ℤ}
use crabgresql.Pgtypes.Crates.{Crates}
use crabgresql.Pgtypes.Numeric
use crabgresql.Pgtypes.Ops.Temporal.{temporal_add, temporal_sub, temporal_mul, temporal_div}
use crabgresql.Pgtypes.Ops.{
  map_ok, Value, as_i64, as_f64, as_numeric, is_float, is_numeric, is_temporal, is_int_zero,
  float_arith, both, arith,
}

module _ (C : Crates) where
  unfoldable pub add : Value C → Value C → Result Fault (Value C)
  add a b =
      if is_null a || is_null b
      then ok null
      else if is_temporal C a || is_temporal C b
      then temporal_add C a b
      else arith C a b (checked_add i32_half) (checked_add i64_half) C.floats.add
          (λ x y. ok (Numeric.add C x y))

  unfoldable pub sub : Value C → Value C → Result Fault (Value C)
  sub a b =
      if is_null a || is_null b
      then ok null
      else if is_temporal C a || is_temporal C b
      then temporal_sub C a b
      else arith C a b (checked_sub i32_half) (checked_sub i64_half) C.floats.sub
          (λ x y. ok (Numeric.sub C x y))

  unfoldable pub mul : Value C → Value C → Result Fault (Value C)
  mul a b =
      if is_null a || is_null b
      then ok null
      else if is_temporal C a || is_temporal C b
      then temporal_mul C a b
      else arith C a b (checked_mul i32_half) (checked_mul i64_half) C.floats.mul
          (λ x y. ok (Numeric.mul C x y))

  unfoldable pub div : Value C → Value C → Result Fault (Value C)
  div a b =
      if is_null a || is_null b
      then ok null
      else if is_temporal C a || is_temporal C b
      then temporal_div C a b
      else if is_float C a || is_float C b
      then both C (as_f64 C a) (as_f64 C b) "operator requires numeric operands" (λ x y.
        if Float.is_zero y then err (error division_by_zero) else float_arith C x y C.floats.div)
      else if is_numeric C a || is_numeric C b
      then both C (as_numeric C a) (as_numeric C b) "operator requires numeric operands"
          (λ x y. map_ok numeric (Numeric.div C x y))
      else if is_int_zero C b
      then err (error division_by_zero)
      else arith C a b (checked_div i32_half) (checked_div i64_half) C.floats.div
          (λ x y. err panics)

  -- `wrapping_rem`: the remainder of a division of integers always fits.
  unfoldable pub int_rem : Value C → Value C → Result Fault (Value C)
  int_rem (int4 x) (int4 y) = ok (int4 (Checked.rem x y))
  int_rem a b =
      both C (as_i64 C a) (as_i64 C b) "mod requires integer operands"
        λ x y. ok (int8 (Checked.rem x y))

  unfoldable pub rem : Value C → Value C → Result Fault (Value C)
  rem a b =
      if is_null a || is_null b
      then ok null
      else if is_numeric C a || is_numeric C b
      then both C (as_numeric C a) (as_numeric C b) "mod requires numeric operands"
          (λ x y. map_ok numeric (Numeric.rem C x y))
      else if is_int_zero C b
      then err (error division_by_zero)
      else int_rem a b
