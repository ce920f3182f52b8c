-- ===== src/Pgtypes/Ops/Compare.antt =====
-- crates/pgtypes/src/ops.rs: comparison.
pub mod Order
use Prim.Native.Nat.{Ordering, lt, eq, gt}
use crabgresql.Prelude.{
  ℕ, Bool, true, false, ◌||◌, String, [], ◌∷◌, Option, some, none, Result, ok, err, ok_or,
  if◌then◌else◌,
}
use crabgresql.Bytes.{Bytes, bytes_eq, lex_lt}
use crabgresql.Pgtypes.TypeError.{Fault, error, panics, type_mismatch}
use crabgresql.Pgtypes.ColumnType
use crabgresql.Pgtypes.Datum.{
  bool, text, date, time, timestamp, timestamptz, interval, is_null, column_type,
}
use crabgresql.Pgtypes.Float.{is_nan, partial_cmp, cmp_ℤ}
use crabgresql.Pgtypes.Crates.{Crates}
use crabgresql.Pgtypes.Datetime
use crabgresql.Pgtypes.Ops.{map_ok, Value, as_i64, as_f64, as_numeric, is_float, is_numeric}

-- `a.cmp(b)` of two texts and of two Booleans.
unfoldable pub text_cmp : Bytes → Bytes → Ordering
text_cmp a b = if lex_lt a b then lt else if bytes_eq a b then eq else gt

unfoldable pub bool_cmp : Bool → Bool → Ordering
bool_cmp false true = lt
bool_cmp true false = gt
bool_cmp _ _ = eq

-- PostgreSQL's order of floats: a NaN is the largest.
unfoldable pub float_cmp : ℕ → ℕ → Result Fault Ordering
float_cmp x y =
    if is_nan x
    then ok (if is_nan y then eq else gt)
    else if is_nan y
    then ok lt
    else ok_or (partial_cmp x y) panics

module _ (C : Crates) where
  unfoldable pub type_name : Value C → String
  type_name d = elim (column_type d) [ some t ↦ ColumnType.name t | none ↦ "unknown" ]

  unfoldable pub cannot_compare : Value C → Value C → Fault
  cannot_compare a b =
      error (type_mismatch "cannot compare {} and {}" (type_name a ∷ type_name b ∷ []))

  -- A pair of numbers is compared as floats, as decimals or as integers.
  unfoldable pub number_cmp : Value C → Value C → Result Fault Ordering
  number_cmp a b =
      if is_float C a || is_float C b
      then elim (as_f64 C a) [
        | none ↦ err (cannot_compare a b)
        | some x ↦ elim (as_f64 C b) [ none ↦ err (cannot_compare a b) | some y ↦ float_cmp x y ]
      ]
      else if is_numeric C a || is_numeric C b
      then elim (as_numeric C a) [
        | none ↦ err (cannot_compare a b)
        | some x ↦ elim (as_numeric C b) [
          | none ↦ err (cannot_compare a b)
          | some y ↦ ok (C.decimals.cmp x y)
        ]
      ]
      else elim (as_i64 C a) [
        | none ↦ err (cannot_compare a b)
        | some x ↦ elim (as_i64 C b) [ none ↦ err (cannot_compare a b) | some y ↦ ok (cmp_ℤ x y) ]
      ]

  unfoldable pub value_cmp : Value C → Value C → Result Fault Ordering
  value_cmp (text x) (text y) = ok (text_cmp x y)
  value_cmp (bool x) (bool y) = ok (bool_cmp x y)
  value_cmp (date x) (date y) = ok (C.jiff.date_cmp x y)
  value_cmp (time x) (time y) = ok (C.jiff.time_cmp x y)
  value_cmp (timestamp x) (timestamp y) = ok (C.jiff.datetime_cmp x y)
  value_cmp (timestamptz x) (timestamptz y) = ok (C.jiff.timestamp_cmp x y)
  value_cmp (interval x) (interval y) = ok (Datetime.interval_cmp x y)
  value_cmp (date d) (timestamp ts) = ok (C.jiff.datetime_cmp (Datetime.date_to_midnight C d) ts)
  value_cmp (timestamp ts) (date d) = ok (C.jiff.datetime_cmp ts (Datetime.date_to_midnight C d))
  value_cmp a b = number_cmp a b

  unfoldable pub compare : Value C → Value C → Result Fault (Option Ordering)
  compare a b = if is_null a || is_null b then ok none else map_ok some (value_cmp a b)
