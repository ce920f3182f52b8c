-- ===== src/Pgtypes/Crates.antt =====
-- What crates/pgtypes takes of the crates `bigdecimal` and `jiff`. A function that panics or
-- returns an error outside its range has `none` there.
use Prim.Native.Nat.{Ordering}
use crabgresql.Prelude.{ℕ, Option}
use crabgresql.Bytes.{Bytes}
use crabgresql.Prelude.Int.{ℤ}
use crabgresql.Pgtypes.Datum.{Scalars}
use crabgresql.Pgtypes.Float.{FloatOps}

-- `BigDecimal`; `with_scale_round` rounds half up; the integer of `as_bigint_and_exponent` is a
-- number of any size.
pub record BigDecimals (S : Scalars) : Type 0 where
  pub add : S.BigDecimal → S.BigDecimal → S.BigDecimal
  pub sub : S.BigDecimal → S.BigDecimal → S.BigDecimal
  pub mul : S.BigDecimal → S.BigDecimal → S.BigDecimal
  pub div : S.BigDecimal → S.BigDecimal → S.BigDecimal
  pub rem : S.BigDecimal → S.BigDecimal → S.BigDecimal
  pub cmp : S.BigDecimal → S.BigDecimal → Ordering
  pub fractional_digit_count : S.BigDecimal → ℤ
  pub with_scale : S.BigDecimal → ℤ → S.BigDecimal
  pub with_scale_round : S.BigDecimal → ℤ → S.BigDecimal
  pub as_bigint_and_exponent : S.BigDecimal → ℤ × ℤ
  pub to_f64 : S.BigDecimal → Option ℕ
  pub of_int : ℤ → S.BigDecimal
  pub from_str : Bytes → Option S.BigDecimal

-- `jiff`: spans, whose constructors panic out of range; civil dates and times; instants.
pub record Jiff (S : Scalars) : Type 1 where
  pub Span : Type 0
  pub TimeZone : Type 0
  pub Zoned : Type 0
  pub months : ℤ → Option Span
  pub days : ℤ → Option Span
  pub microseconds : ℤ → Option Span
  pub date_checked_add : S.Date → Span → Option S.Date
  pub datetime_checked_add : S.DateTime → Span → Option S.DateTime
  pub zoned_checked_add : Zoned → Span → Option Zoned
  pub since_days : S.Date → S.Date → ℤ
  pub since_microseconds : S.DateTime → S.DateTime → ℤ
  pub to_datetime : S.Date → S.Time → S.DateTime
  pub midnight : S.Time
  pub hour : S.Time → ℕ
  pub minute : S.Time → ℕ
  pub second : S.Time → ℕ
  pub subsec_nanosecond : S.Time → ℕ
  pub time_new : ℕ → ℕ → ℕ → ℕ → Option S.Time
  pub to_zoned : S.Timestamp → TimeZone → Zoned
  pub timestamp_of : Zoned → S.Timestamp
  pub as_microsecond : S.Timestamp → ℤ
  pub date_cmp : S.Date → S.Date → Ordering
  pub time_cmp : S.Time → S.Time → Ordering
  pub datetime_cmp : S.DateTime → S.DateTime → Ordering
  pub timestamp_cmp : S.Timestamp → S.Timestamp → Ordering

-- `trim` is that of `str`.
pub record Crates : Type 1 where
  pub scalars : Scalars
  pub floats : FloatOps
  pub decimals : BigDecimals scalars
  pub jiff : Jiff scalars
  pub trim : Bytes → Bytes
