-- ===== src/Pgtypes/Datetime/Times.antt =====
-- A time of day and an interval.
use crabgresql.Prelude.{ℕ, ◌*◌, ◌/◌, ◌%◌, ◌≡◌, ◌<◌, refl, some, ok, arith}
use crabgresql.Prelude.Int.{ℤ, pos, negsuc, ◌+ℤ◌, i64_half, rem_euclid, wrap, of_word, Fits}
use crabgresql.Pgtypes.Datum.{Interval}
use crabgresql.Pgtypes.Crates.{Crates}
use crabgresql.Pgtypes.Datetime.{usecs_per_day, micros_of_day, time_at, time_plus_interval}

-- What `jiff` documents of `Time`: its parts are in range, and `Time::new` takes parts in range and
-- returns the time that has them.
pub record ClockLaws (C : Crates) : Type 0 where
  pub hour-lt : (t : C.scalars.Time) → C.jiff.hour t < 24
  pub minute-lt : (t : C.scalars.Time) → C.jiff.minute t < 60
  pub second-lt : (t : C.scalars.Time) → C.jiff.second t < 60
  pub subsec-lt : (t : C.scalars.Time) → C.jiff.subsec_nanosecond t < 1_000_000_000
  pub time_new-parts :
      (h m s n : ℕ)
      → h < 24
      → m < 60
      → s < 60
      → n < 1_000_000_000
      → (t : C.scalars.Time) × (C.jiff.time_new h m s n ≡ some t)
        × (C.jiff.hour t ≡ h)
        × (C.jiff.minute t ≡ m)
        × (C.jiff.second t ≡ s)
        × (C.jiff.subsec_nanosecond t ≡ n)

-- Wrapping keeps what fits.
wrap-Fits : (n : ℤ) → Fits i64_half n → wrap i64_half n ≡ n
unfolding wrap of_word rem_euclid
wrap-Fits (pos n) f = ground arith
wrap-Fits (negsuc n) f = ground arith

rem_euclid-lt : (n : ℤ) (d : ℕ) → 0 < d → rem_euclid n d < d
unfolding rem_euclid
rem_euclid-lt (pos n) d h = grind arith
rem_euclid-lt (negsuc n) d h = grind arith

module _ (C : Crates) (laws : ClockLaws C) where
  micros_of_day-lt : (t : C.scalars.Time) → micros_of_day C t < usecs_per_day
  unfolding micros_of_day
  micros_of_day-lt t =
      omega (arith, laws.hour-lt t, laws.minute-lt t, laws.second-lt t, laws.subsec-lt t)

  time_at-micros_of_day :
      (n : ℕ)
      → n < usecs_per_day
      → (t : C.scalars.Time) × (time_at C n ≡ some t) × (micros_of_day C t ≡ n)
  unfolding time_at micros_of_day
  time_at-micros_of_day n h =
      let rest = n % 3_600_000_000 in
      let below = rest % 60_000_000 in
      let (t, made, hour, minute, second, subsec) =
        laws.time_new-parts (n / 3_600_000_000) (rest / 60_000_000) (below / 1_000_000)
          (below % 1_000_000 * 1_000) (omega arith) (omega arith) (omega arith) (omega arith) in
      (t, made, rw (hour, minute, second, subsec) (omega arith))

  -- With the documented behaviour of `Time`: a time of day plus an interval is the time at the sum of
  -- the microseconds since midnight and those of the interval, modulo 24 hours, whatever the months
  -- and days of the interval, where that sum fits an `i64`.
  pub time_plus_interval-Wraps :
      (t : C.scalars.Time) (iv : Interval)
      → Fits i64_half (pos (micros_of_day C t) +ℤ iv.micros)
      → (t' : C.scalars.Time) × (time_plus_interval C t iv ≡ ok t')
        × (micros_of_day C t' ≡ rem_euclid (pos (micros_of_day C t) +ℤ iv.micros) usecs_per_day)
  unfolding time_plus_interval
  time_plus_interval-Wraps t iv fit =
      let sum = pos (micros_of_day C t) +ℤ iv.micros in
      let (t', made, micros) =
        time_at-micros_of_day (rem_euclid sum usecs_per_day)
          (rem_euclid-lt sum usecs_per_day (omega arith)) in
      (t', rw (wrap-Fits sum fit, made) refl, micros)
