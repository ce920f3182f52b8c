-- ===== src/Executor/Infer/Values.antt =====
-- The static types of the operators and the values that they return.
use crabgresql.Prelude.{◌≡◌, Bool, true, false, ok, arith}
use crabgresql.Pgtypes.ColumnType.{ColumnType}
use crabgresql.Pgtypes.Datum
use crabgresql.Pgtypes.Datum.{
  Scalars, Datum, null, bool, int4, int8, text, float8, numeric, date, time, timestamp, timestamptz,
  interval, bytea,
}
use crabgresql.Pgtypes.Crates.{Crates}
use crabgresql.Pgtypes.Ops.{Value, map_ok}
use crabgresql.Pgtypes.Ops
use crabgresql.Pgtypes.Ops.Temporal.{temporal_add, temporal_sub, temporal_mul, temporal_div}
use crabgresql.Pgparser.Ast.{plus, minus, times, over}
use crabgresql.Executor.Infer
use crabgresql.Executor.Infer.{
  is_int, is_number, datetime_arms, datetime_result_type, numeric_result_type, result_type,
}

-- NULL has every type, another value its own; modifiers of `numeric` aside.
unfoldable pub has_type : {S : Scalars} → ColumnType → Datum S → Bool
has_type t null = true
has_type ColumnType.bool (bool _) = true
has_type ColumnType.int4 (int4 _) = true
has_type ColumnType.int8 (int8 _) = true
has_type ColumnType.text (text _) = true
has_type ColumnType.float8 (float8 _) = true
has_type (ColumnType.numeric _) (numeric _) = true
has_type ColumnType.date (date _) = true
has_type ColumnType.time (time _) = true
has_type ColumnType.timestamp (timestamp _) = true
has_type ColumnType.timestamptz (timestamptz _) = true
has_type ColumnType.interval (interval _) = true
has_type ColumnType.bytea (bytea _) = true
has_type _ _ = false

module _ (C : Crates) (l r : ColumnType) where
  pub temporal_add_typed :
      (a b : Value C) {c : Value C}
      → temporal_add C a b ≡ ok c
      → has_type l a ≡ true
      → has_type r b ≡ true
      → has_type (result_type plus l r) c ≡ true
  unfolding temporal_add has_type result_type datetime_result_type datetime_arms Infer.is_temporal
      is_int
  temporal_add_typed (date d) b {c} h f g = ground arith
  temporal_add_typed (int4 n) b {c} h f g = ground arith
  temporal_add_typed (int8 n) b {c} h f g = ground arith
  temporal_add_typed (interval iv) b {c} h f g = ground arith
  temporal_add_typed (time t) b {c} h f g = ground arith
  temporal_add_typed (timestamp t) b {c} h f g = ground arith
  temporal_add_typed _ b h f g = absurd (ground (arith, h))

  pub temporal_sub_typed :
      (a b : Value C) {c : Value C}
      → temporal_sub C a b ≡ ok c
      → has_type l a ≡ true
      → has_type r b ≡ true
      → has_type (result_type minus l r) c ≡ true
  unfolding temporal_sub has_type result_type datetime_result_type datetime_arms Infer.is_temporal
      is_int
  temporal_sub_typed (date d) b {c} h f g = ground arith
  temporal_sub_typed (interval iv) b {c} h f g = ground arith
  temporal_sub_typed (time t) b {c} h f g = ground arith
  temporal_sub_typed (timestamp t) b {c} h f g = ground arith
  temporal_sub_typed _ b h f g = absurd (ground (arith, h))

  pub temporal_mul_typed :
      (a b : Value C) {c : Value C}
      → temporal_mul C a b ≡ ok c
      → has_type l a ≡ true
      → has_type r b ≡ true
      → Datum.is_null b ≡ false
      → has_type (result_type times l r) c ≡ true
  unfolding temporal_mul has_type result_type datetime_result_type datetime_arms Infer.is_temporal
      is_number Ops.as_f64 Datum.is_null
  temporal_mul_typed (interval iv) b {c} h f g n = ground arith
  temporal_mul_typed (int4 x) b {c} h f g n = ground arith
  temporal_mul_typed (int8 x) b {c} h f g n = ground arith
  temporal_mul_typed (float8 x) b {c} h f g n = ground arith
  temporal_mul_typed (numeric x) b {c} h f g n = ground arith
  temporal_mul_typed _ b h f g n = absurd (ground (arith, h))

  pub temporal_div_typed :
      (a b : Value C) {c : Value C}
      → temporal_div C a b ≡ ok c
      → has_type l a ≡ true
      → has_type r b ≡ true
      → Datum.is_null b ≡ false
      → has_type (result_type over l r) c ≡ true
  unfolding temporal_div has_type result_type datetime_result_type datetime_arms Infer.is_temporal
      is_number Ops.as_f64 Datum.is_null
  temporal_div_typed (interval iv) b {c} h f g n = ground arith
  temporal_div_typed _ b h f g n = absurd (ground (arith, h))
