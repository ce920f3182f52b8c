-- ===== src/Pgtypes/Datetime.antt =====
-- crates/pgtypes/src/datetime.rs: the arithmetic of dates, times and intervals, over the crate
-- `jiff`. An arithmetic overflow and an `expect` that fails are panics, as in a build with overflow
-- checks; so is a span out of range, which the constructors of `jiff` refuse.

pub mod Intervals
pub mod Times
use Prim.Native.Nat.{Ordering}
use crabgresql.Prelude.{
  ℕ, zero, suc, ◌+◌, ◌-◌, ◌*◌, ◌/◌, ◌%◌, Bool, true, false, not, ◌||◌, List, [], ◌∷◌, ◌++◌, Option,
  some, none, Result, ok, err, ok_or, ◌>>=◌, if◌then◌else◌,
}
use crabgresql.Prelude.Int.{
  ℤ, pos, negsuc, pos_part, neg_part, ◌+ℤ◌, ◌-ℤ◌, ◌*ℤ◌, i32_half, i64_half, ltb_ℤ, rem_euclid, wrap,
}
use crabgresql.Prelude.Int.Checked
use crabgresql.Prelude.Int.Checked.{checked, checked_add, checked_neg, quot, rem}
use crabgresql.Bytes.{Bytes, as_bytes}
use crabgresql.Bytes.Decimal.{to_string}
use crabgresql.Pgtypes.TypeError.{
  TypeError, Fault, error, panics, overflow, division_by_zero, datetime_field_overflow,
}
use crabgresql.Pgtypes.Datum.{Scalars, Interval}
use crabgresql.Pgtypes.Float
use crabgresql.Pgtypes.Float.{is_finite, cmp_ℤ, place, FloatOps}
use crabgresql.Pgtypes.Crates.{Crates, Jiff}

-- `USECS_PER_DAY`.
abbrev pub usecs_per_day : ℕ
usecs_per_day = 86_400_000_000

abbrev overflows : Fault
overflows = error overflow

unfoldable pub add_interval : Interval → Interval → Result Fault Interval
add_interval a b = do
  months ← ok_or (checked_add i32_half a.months b.months) overflows
  days ← ok_or (checked_add i32_half a.days b.days) overflows
  micros ← ok_or (checked_add i64_half a.micros b.micros) overflows
  ok (record { months = months; days = days; micros = micros })

unfoldable pub neg_interval : Interval → Result Fault Interval
neg_interval a = do
  months ← ok_or (checked_neg i32_half a.months) overflows
  days ← ok_or (checked_neg i32_half a.days) overflows
  micros ← ok_or (checked_neg i64_half a.micros) overflows
  ok (record { months = months; days = days; micros = micros })

unfoldable pub sub_interval : Interval → Interval → Result Fault Interval
sub_interval a b = do neg ← neg_interval b; add_interval a neg

-- A month is 30 days, a day 24 hours.
unfoldable pub canonical_micros : Interval → ℤ
canonical_micros iv = (iv.months *ℤ pos 30 +ℤ iv.days) *ℤ pos usecs_per_day +ℤ iv.micros

unfoldable pub interval_cmp : Interval → Interval → Ordering
interval_cmp a b = cmp_ℤ (canonical_micros a) (canonical_micros b)

-- Microseconds as whole days and the rest.
unfoldable pub days_and_micros : ℤ → Interval
days_and_micros total = record {
  months = pos 0;
  days = wrap i32_half (quot total (pos usecs_per_day));
  micros = rem total (pos usecs_per_day);
}

-- `f64` arithmetic. `i32::try_from` is the range check.
module _ (F : FloatOps) where
  -- `micros_f.abs() >= 2^63`.
  too_large : ℕ → Bool
  too_large x = not (ltb_ℤ (place (F.abs x)) (place (F.of_int (pos 9_223_372_036_854_775_808))))

  unfoldable pub mul_interval : Interval → ℕ → Result Fault Interval
  unfolding too_large
  mul_interval a factor =
      let months_f = F.mul (F.of_int a.months) factor in
      let days_f =
        F.add (F.mul (F.of_int a.days) factor) (F.mul (F.fract months_f) (F.of_int (pos 30))) in
      let micros_f =
        F.add (F.mul (F.of_int a.micros) factor)
          (F.mul (F.fract days_f) (F.of_int (pos usecs_per_day))) in
      if not (is_finite factor) then err overflows else (do
        months ← ok_or (checked i32_half (F.to_i64 (F.trunc months_f))) overflows
        days ← ok_or (checked i32_half (F.to_i64 (F.trunc days_f))) overflows
        if not (is_finite micros_f) || too_large micros_f
            then err overflows
            else ok (record { months = months; days = days; micros = F.to_i64 (F.round micros_f) }))

  unfoldable pub div_interval : Interval → ℕ → Result Fault Interval
  div_interval a divisor =
      if Float.is_zero divisor
      then err (error division_by_zero)
      else mul_interval a (F.div (F.of_int (pos 1)) divisor)

-- `to_string` of an `i64`.
unfoldable pub int_text : ℤ → Bytes
int_text (pos n) = to_string n
int_text (negsuc n) = b'-' ∷ to_string (suc n)

module _ (C : Crates) where
  unfoldable pub date_plus_days : C.scalars.Date → ℤ → Result Fault C.scalars.Date
  date_plus_days d days = do
    span ← ok_or (C.jiff.days days) panics
    ok_or (C.jiff.date_checked_add d span) (error (datetime_field_overflow (int_text days)))

  unfoldable pub date_diff_days : C.scalars.Date → C.scalars.Date → ℤ
  date_diff_days a b = C.jiff.since_days a b

  unfoldable pub date_to_midnight : C.scalars.Date → C.scalars.DateTime
  date_to_midnight d = C.jiff.to_datetime d C.jiff.midnight

  abbrev span_overflow : Fault
  span_overflow = error (datetime_field_overflow (as_bytes "interval arithmetic"))

  -- One field of the interval: nothing where it is 0.
  unfoldable pub add_field :
      {A : Type 0}
      → (ℤ → Option C.jiff.Span)
      → (A → C.jiff.Span → Option A)
      → ℤ
      → A
      → Result Fault A
  add_field span_of checked_add' n at =
      if Checked.is_zero n
      then ok at
      else (do span ← ok_or (span_of n) panics; ok_or (checked_add' at span) span_overflow)

  unfoldable pub timestamp_plus_interval :
      C.scalars.DateTime → Interval → Result Fault C.scalars.DateTime
  timestamp_plus_interval ts iv = do
    after_months ← add_field C.jiff.months C.jiff.datetime_checked_add iv.months ts
    after_days ← add_field C.jiff.days C.jiff.datetime_checked_add iv.days after_months
    add_field C.jiff.microseconds C.jiff.datetime_checked_add iv.micros after_days

  unfoldable pub date_plus_interval : C.scalars.Date → Interval → Result Fault C.scalars.DateTime
  date_plus_interval d iv = timestamp_plus_interval (date_to_midnight d) iv

  unfoldable pub timestamp_diff : C.scalars.DateTime → C.scalars.DateTime → Interval
  timestamp_diff a b = days_and_micros (C.jiff.since_microseconds a b)

  -- The microseconds of the day at a time.
  unfoldable pub micros_of_day : C.scalars.Time → ℕ
  micros_of_day t =
      C.jiff.hour t * 3_600_000_000
      + C.jiff.minute t * 60_000_000
      + C.jiff.second t * 1_000_000
      + C.jiff.subsec_nanosecond t / 1_000

  -- The time at a number of microseconds of the day.
  unfoldable pub time_at : ℕ → Option C.scalars.Time
  time_at micros =
      let rest = micros % 3_600_000_000 in
      let below = rest % 60_000_000 in
      C.jiff.time_new (micros / 3_600_000_000) (rest / 60_000_000) (below / 1_000_000)
        (below % 1_000_000 * 1_000)

  -- Only the microseconds of the interval count. The sum of two `i64` wraps, as in the default release
  -- profile; with overflow checks it panics.
  unfoldable pub time_plus_interval : C.scalars.Time → Interval → Result Fault C.scalars.Time
  time_plus_interval t iv = do
    let shifted = wrap i64_half (pos (micros_of_day t) +ℤ iv.micros)
    ok_or (time_at (rem_euclid shifted usecs_per_day)) panics

  unfoldable pub combine_date_time : C.scalars.Date → C.scalars.Time → C.scalars.DateTime
  combine_date_time d t = C.jiff.to_datetime d t

  -- Months, then days, on the wall clock of the zone.
  unfoldable pub shift_calendar : Interval → C.jiff.Zoned → Result Fault C.jiff.Zoned
  shift_calendar iv zoned = do
    months ← ok_or (C.jiff.months iv.months) panics
    shifted ← ok_or (C.jiff.zoned_checked_add zoned months) span_overflow
    days ← ok_or (C.jiff.days iv.days) panics
    ok_or (C.jiff.zoned_checked_add shifted days) span_overflow

  -- The microseconds move the instant.
  unfoldable pub timestamptz_plus_interval :
      C.scalars.Timestamp → Interval → C.jiff.TimeZone → Result Fault C.scalars.Timestamp
  timestamptz_plus_interval ts iv tz = do
    let zoned = C.jiff.to_zoned ts tz
    after_cal ←
        if not (Checked.is_zero iv.months) || not (Checked.is_zero iv.days)
        then shift_calendar iv zoned
        else ok zoned
    after_micros ← add_field C.jiff.microseconds C.jiff.zoned_checked_add iv.micros after_cal
    ok (C.jiff.timestamp_of after_micros)

  unfoldable pub timestamptz_diff :
      C.scalars.Timestamp → C.scalars.Timestamp → Result Fault Interval
  timestamptz_diff a b = do
    total ← ok_or (checked i64_half (C.jiff.as_microsecond a -ℤ C.jiff.as_microsecond b)) panics
    ok (days_and_micros total)
