-- ===== src/Pgtypes/Datum.antt =====
-- crates/pgtypes/src/datum.rs: runtime values, over the types of the crates `bigdecimal` and `jiff`
-- and of crates/pgtypes/src/datetime.rs (`Interval`). A `float8` is its 64 bits; a text is its
-- bytes.
use crabgresql.Prelude.{ℕ, Bool, true, false, Option, some, none}
use crabgresql.Prelude.Int.{ℤ}
use crabgresql.Bytes.{Bytes}
use crabgresql.Pgtypes.ColumnType.{ColumnType}

-- The value types that third-party crates define.
pub record Scalars : Type 1 where
  pub BigDecimal : Type 0
  pub Date : Type 0
  pub Time : Type 0
  pub DateTime : Type 0
  pub Timestamp : Type 0

pub record Interval : Type 0 where
  pub months : ℤ  -- i32
  pub days : ℤ  -- i32
  pub micros : ℤ  -- i64

pub data Datum (S : Scalars) : Type 0 where
  null : Datum S
  bool : Bool → Datum S
  int4 : ℤ → Datum S
  int8 : ℤ → Datum S
  text : Bytes → Datum S
  float8 : ℕ → Datum S
  numeric : S.BigDecimal → Datum S
  date : S.Date → Datum S
  time : S.Time → Datum S
  timestamp : S.DateTime → Datum S
  timestamptz : S.Timestamp → Datum S
  interval : Interval → Datum S
  bytea : Bytes → Datum S

unfoldable pub column_type : {S : Scalars} → Datum S → Option ColumnType
column_type null = none
column_type (bool _) = some ColumnType.bool
column_type (int4 _) = some ColumnType.int4
column_type (int8 _) = some ColumnType.int8
column_type (text _) = some ColumnType.text
column_type (float8 _) = some ColumnType.float8
column_type (numeric _) = some (ColumnType.numeric none)
column_type (date _) = some ColumnType.date
column_type (time _) = some ColumnType.time
column_type (timestamp _) = some ColumnType.timestamp
column_type (timestamptz _) = some ColumnType.timestamptz
column_type (interval _) = some ColumnType.interval
column_type (bytea _) = some ColumnType.bytea

unfoldable pub is_null : {S : Scalars} → Datum S → Bool
is_null null = true
is_null _ = false
