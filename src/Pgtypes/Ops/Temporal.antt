-- ===== src/Pgtypes/Ops/Temporal.antt =====
-- crates/pgtypes/src/ops.rs: operators with a temporal operand.
use crabgresql.Prelude.{Result, ok, err, ok_or, ◌>>=◌}
use crabgresql.Prelude.Int.{i32_half, i64_half}
use crabgresql.Prelude.Int.Checked
use crabgresql.Prelude.Int.Checked.{checked_add, checked_sub, checked_mul, checked_div}
use crabgresql.Pgtypes.TypeError.{Fault, error, overflow}
use crabgresql.Pgtypes.Datum.{int4, int8, date, time, timestamp, interval}
use crabgresql.Pgtypes.Crates.{Crates}
use crabgresql.Pgtypes.Datetime
use crabgresql.Pgtypes.Ops.{mismatch, map_ok, Value, as_f64}

module _ (C : Crates) where
  abbrev no_operator : Fault
  no_operator = mismatch "operator does not exist for these temporal types"

  unfoldable pub temporal_add : Value C → Value C → Result Fault (Value C)
  temporal_add (date d) (int4 n) = map_ok date (Datetime.date_plus_days C d n)
  temporal_add (date d) (int8 n) = map_ok date (Datetime.date_plus_days C d n)
  temporal_add (int4 n) (date d) = map_ok date (Datetime.date_plus_days C d n)
  temporal_add (int8 n) (date d) = map_ok date (Datetime.date_plus_days C d n)
  temporal_add (date d) (interval iv) = map_ok timestamp (Datetime.date_plus_interval C d iv)
  temporal_add (interval iv) (date d) = map_ok timestamp (Datetime.date_plus_interval C d iv)
  temporal_add (date d) (time t) = ok (timestamp (Datetime.combine_date_time C d t))
  temporal_add (time t) (date d) = ok (timestamp (Datetime.combine_date_time C d t))
  temporal_add (time t) (interval iv) = map_ok time (Datetime.time_plus_interval C t iv)
  temporal_add (interval iv) (time t) = map_ok time (Datetime.time_plus_interval C t iv)
  temporal_add (timestamp ts) (interval iv) =
      map_ok timestamp (Datetime.timestamp_plus_interval C ts iv)
  temporal_add (interval iv) (timestamp ts) =
      map_ok timestamp (Datetime.timestamp_plus_interval C ts iv)
  temporal_add (interval x) (interval y) = map_ok interval (Datetime.add_interval x y)
  temporal_add _ _ = err no_operator

  unfoldable pub temporal_sub : Value C → Value C → Result Fault (Value C)
  temporal_sub (date d) (int4 n) = do
    neg ← ok_or (Checked.checked_neg i32_half n) (error overflow)
    map_ok date (Datetime.date_plus_days C d neg)
  temporal_sub (date d) (int8 n) = do
    neg ← ok_or (Checked.checked_neg i64_half n) (error overflow)
    map_ok date (Datetime.date_plus_days C d neg)
  temporal_sub (date a) (date b) = ok (int4 (Datetime.date_diff_days C a b))
  temporal_sub (date d) (interval iv) = do
    neg ← Datetime.neg_interval iv
    map_ok timestamp (Datetime.date_plus_interval C d neg)
  temporal_sub (time t) (interval iv) = do
    neg ← Datetime.neg_interval iv
    map_ok time (Datetime.time_plus_interval C t neg)
  temporal_sub (timestamp ts) (interval iv) = do
    neg ← Datetime.neg_interval iv
    map_ok timestamp (Datetime.timestamp_plus_interval C ts neg)
  temporal_sub (timestamp a) (timestamp b) = ok (interval (Datetime.timestamp_diff C a b))
  temporal_sub (interval x) (interval y) = map_ok interval (Datetime.sub_interval x y)
  temporal_sub _ _ = err no_operator

  unfoldable pub temporal_mul : Value C → Value C → Result Fault (Value C)
  temporal_mul (interval iv) num = do
    f ← ok_or (as_f64 C num) (mismatch "interval multiplier must be numeric")
    map_ok interval (Datetime.mul_interval C.floats iv f)
  temporal_mul num (interval iv) = do
    f ← ok_or (as_f64 C num) (mismatch "interval multiplier must be numeric")
    map_ok interval (Datetime.mul_interval C.floats iv f)
  temporal_mul _ _ = err no_operator

  unfoldable pub temporal_div : Value C → Value C → Result Fault (Value C)
  temporal_div (interval iv) num = do
    f ← ok_or (as_f64 C num) (mismatch "interval divisor must be numeric")
    map_ok interval (Datetime.div_interval C.floats iv f)
  temporal_div _ _ = err no_operator
