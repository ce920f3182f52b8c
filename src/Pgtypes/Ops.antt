-- ===== src/Pgtypes/Ops.antt =====
-- crates/pgtypes/src/ops.rs: the operators on values: promotion, checked arithmetic, NULL, the logic
-- of three values. `concat` is left out.
pub mod Literals
pub mod Temporal
pub mod Operators
pub mod Compare
pub mod Logic
use Prim.Native.Nat.{Ordering, lt, eq, gt}
use crabgresql.Prelude
use crabgresql.Prelude.{
  ℕ, ◌≡◌, Bool, true, false, ◌||◌, ◌&&◌, String, List, [], ◌∷◌, Option, some, none, Result, ok, err,
  ok_or, ◌>>=◌, ltb, if◌then◌else◌,
}
use crabgresql.Prelude.Int.{ℤ, pos, i32_half, i64_half}
use crabgresql.Prelude.Int.Checked
use crabgresql.Prelude.Int.Checked.{checked_add, checked_sub, checked_mul, checked_div}
use crabgresql.Bytes.{Bytes, bytes_eq, lex_lt}
use crabgresql.Pgtypes.TypeError.{Fault, error, panics, overflow, division_by_zero, type_mismatch}
use crabgresql.Pgtypes.ColumnType
use crabgresql.Pgtypes.Datum
use crabgresql.Pgtypes.Datum.{
  Datum, null, bool, int4, int8, text, float8, numeric, date, time, timestamp, timestamptz,
  interval, bytea, is_null, column_type,
}
use crabgresql.Pgtypes.Float
use crabgresql.Pgtypes.Float.{is_finite, is_infinite, is_nan, partial_cmp, cmp_ℤ}
use crabgresql.Pgtypes.Crates.{Crates}
use crabgresql.Pgtypes.Numeric
use crabgresql.Pgtypes.Datetime

abbrev pub mismatch : String → Fault
mismatch message = error (type_mismatch message [])

-- `Result::map`.
abbrev pub map_ok {ℓ κ} : {A : Type ℓ} {B : Type κ} → (A → B) → Result Fault A → Result Fault B
map_ok f (ok a) = ok (f a)
map_ok f (err e) = err e

module _ (C : Crates) where
  abbrev pub Value : Type 0
  Value = Datum C.scalars

  unfoldable pub as_i64 : Value → Option ℤ
  as_i64 (int4 n) = some n
  as_i64 (int8 n) = some n
  as_i64 _ = none

  unfoldable pub as_f64 : Value → Option ℕ
  as_f64 (int4 n) = some (C.floats.of_int n)
  as_f64 (int8 n) = some (C.floats.of_int n)
  as_f64 (float8 f) = some f
  as_f64 (numeric d) = some (Numeric.to_f64 C d)
  as_f64 _ = none

  unfoldable pub as_numeric : Value → Option C.scalars.BigDecimal
  as_numeric (int4 n) = some (C.decimals.of_int n)
  as_numeric (int8 n) = some (C.decimals.of_int n)
  as_numeric (numeric d) = some d
  as_numeric _ = none

  unfoldable pub is_float : Value → Bool
  is_float (float8 _) = true
  is_float _ = false

  unfoldable pub is_numeric : Value → Bool
  is_numeric (numeric _) = true
  is_numeric _ = false

  unfoldable pub is_temporal : Value → Bool
  is_temporal (date _) = true
  is_temporal (time _) = true
  is_temporal (timestamp _) = true
  is_temporal (timestamptz _) = true
  is_temporal (interval _) = true
  is_temporal _ = false

  -- `matches!(b, Datum::Int4(0) | Datum::Int8(0))`.
  unfoldable pub is_int_zero : Value → Bool
  is_int_zero (int4 n) = Checked.is_zero n
  is_int_zero (int8 n) = Checked.is_zero n
  is_int_zero _ = false

  unfoldable pub float_arith : ℕ → ℕ → (ℕ → ℕ → ℕ) → Result Fault Value
  float_arith x y op =
      let r = op x y in
      if is_infinite r && is_finite x && is_finite y then err (error overflow) else ok (float8 r)

  -- `match (promote(a), promote(b)) { (Some(x), Some(y)) => .., _ => Err(..) }`.
  unfoldable pub both :
      {A : Type 0}
      → Option A
      → Option A
      → String
      → (A → A → Result Fault Value)
      → Result Fault Value
  both (some x) (some y) message op = op x y
  both _ _ message op = err (mismatch message)

  -- Integers of one width or of two.
  unfoldable pub int_arith :
      Value → Value → (ℤ → ℤ → Option ℤ) → (ℤ → ℤ → Option ℤ) → Result Fault Value
  int_arith (int4 x) (int4 y) op_i4 op_i8 = map_ok int4 (ok_or (op_i4 x y) (error overflow))
  int_arith a b op_i4 op_i8 =
      both (as_i64 a) (as_i64 b) "operator requires integer operands"
        λ x y. map_ok int8 (ok_or (op_i8 x y) (error overflow))

  unfoldable pub arith :
      Value
      → Value
      → (ℤ → ℤ → Option ℤ)
      → (ℤ → ℤ → Option ℤ)
      → (ℕ → ℕ → ℕ)
      → (C.scalars.BigDecimal → C.scalars.BigDecimal → Result Fault C.scalars.BigDecimal)
      → Result Fault Value
  arith a b op_i4 op_i8 op_f8 op_num =
      if is_null a || is_null b
      then ok null
      else if is_float a || is_float b
      then both (as_f64 a) (as_f64 b) "operator requires numeric operands"
          (λ x y. float_arith x y op_f8)
      else if is_numeric a || is_numeric b
      then both (as_numeric a) (as_numeric b) "operator requires numeric operands"
          (λ x y. map_ok numeric (op_num x y))
      else int_arith a b op_i4 op_i8
