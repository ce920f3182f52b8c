-- ===== src/Tests/Values.antt =====
-- Values and expressions at work, on small stand-ins for the crates: a decimal is an integer, a date,
-- an instant or a span is a number of its units, a time of day is its parts.
use Prim.Native.Nat.{compare}
use crabgresql.Prelude.{
  ltb, ℕ, ◌+◌, ◌*◌, ◌%◌, ◌≡◌, ◌^◌, refl, true, not, List, [], ◌∷◌, none, some, ok, err, arith, ◌==◌,
  ◌>>=◌, map, if◌then◌else◌, min, max,
}
use crabgresql.Prelude.Int.{ℤ, pos, negsuc, pos_part, ◌+ℤ◌, ◌-ℤ◌, ◌*ℤ◌, i64_half, rem_euclid, Fits}
use crabgresql.Prelude.Int.Checked
use crabgresql.Prelude.Int.Checked.{checked_add, quot}
use crabgresql.Bytes.{Bytes}
use crabgresql.Pgtypes.TypeError.{error, division_by_zero, overflow}
use crabgresql.Pgtypes.Float.{FloatOps, cmp_ℤ}
use crabgresql.Pgtypes.ColumnType
use crabgresql.Pgtypes.Datum.{Scalars, bool, int4, int8, Interval, null}
use crabgresql.Pgtypes.Crates.{BigDecimals, Jiff, Crates}
use crabgresql.Pgtypes.Datetime.{usecs_per_day, micros_of_day, time_plus_interval}
use crabgresql.Pgtypes.Datetime.Times.{ClockLaws, time_plus_interval-Wraps}
use crabgresql.Pgtypes.Ops.Operators.{add, sub, mul, div, rem}
use crabgresql.Pgtypes.Ops.Operators.Integers.{
  narrow, wide, int, half, join, in_range, arithmetic-Exact, division-Exact,
}
use crabgresql.Pgtypes.Ops.Operators.Division.{div-rem-Inverse}
use crabgresql.Pgtypes.Ops.Literals.{int_literal, int_literal-to_string}
use crabgresql.Bytes.Decimal.{to_string}
use crabgresql.Pgtypes.Ops.Compare.{float_cmp}
use crabgresql.Pgtypes.Ops.Compare.Order.{rank, float_cmp-rank}
use crabgresql.Pgtypes.Ops.Logic.{as_bool, and, or}
use crabgresql.Pgtypes.Ops.Logic.Kleene.{truth_of, lift, truth-and}
use crabgresql.Executor.Error.{undefined_column, ambiguous_column, missing_from_entry}
use crabgresql.Executor.Like.{fold, like_match}
use crabgresql.Executor.Like.Meaning.{Likes, EndsBadly, Answers, tokens}
use crabgresql.Executor.Like.Search.{like_match-Answers}
use crabgresql.Executor.Scope.{Scope, any_qualified, resolve}
use crabgresql.Executor.Scope.Resolved.{count, index, resolve-Unique}

abbrev Clock : Type 0
Clock = ℕ × ℕ × ℕ × ℕ

abbrev small_scalars : Scalars
small_scalars = record { BigDecimal = ℤ; Date = ℤ; Time = Clock; DateTime = ℤ; Timestamp = ℤ }

-- The bits of a float taken for a number.
abbrev small_floats : FloatOps
small_floats = record {
  add = λ x y. x + y;
  sub = λ x y. x;
  mul = λ x y. x * y;
  div = λ x y. x;
  trunc = λ x. x;
  fract = λ x. 0;
  round = λ x. x;
  abs = λ x. x;
  of_int = pos_part;
  to_i64 = pos;
}

abbrev small_decimals : BigDecimals small_scalars
small_decimals = record {
  add = ◌+ℤ◌;
  sub = ◌-ℤ◌;
  mul = ◌*ℤ◌;
  div = quot;
  rem = Checked.rem;
  cmp = cmp_ℤ;
  fractional_digit_count = λ d. pos 0;
  with_scale = λ d scale. d;
  with_scale_round = λ d scale. d;
  as_bigint_and_exponent = λ d. (d, pos 0);
  to_f64 = λ d. some (pos_part d);
  of_int = λ d. d;
  from_str = λ s. none;
}

abbrev small_jiff : Jiff small_scalars
small_jiff = record {
  Span = ℤ;
  TimeZone = Unit;
  Zoned = ℤ;
  months = λ n. some n;
  days = λ n. some n;
  microseconds = λ n. some n;
  date_checked_add = λ d n. some (d +ℤ n);
  datetime_checked_add = λ d n. some (d +ℤ n);
  zoned_checked_add = λ d n. some (d +ℤ n);
  since_days = λ a b. a -ℤ b;
  since_microseconds = λ a b. a -ℤ b;
  to_datetime = λ d t. d;
  midnight = (0, 0, 0, 0);
  hour = λ t. t.0 % 24;
  minute = λ t. t.1 % 60;
  second = λ t. t.2 % 60;
  subsec_nanosecond = λ t. t.3 % 1_000_000_000;
  time_new = λ h m s n. some (h, m, s, n);
  to_zoned = λ t zone. t;
  timestamp_of = λ t. t;
  as_microsecond = λ t. t;
  date_cmp = cmp_ℤ;
  time_cmp = λ a b. compare a.0 b.0;
  datetime_cmp = cmp_ℤ;
  timestamp_cmp = cmp_ℤ;
}

abbrev pub small : Crates
small = record {
  scalars = small_scalars;
  floats = small_floats;
  decimals = small_decimals;
  jiff = small_jiff;
  trim = λ s. s;
}

small_clock : ClockLaws small
small_clock = record {
  hour-lt = λ t. omega arith;
  minute-lt = λ t. omega arith;
  second-lt = λ t. omega arith;
  subsec-lt = λ t. omega arith;
  time_new-parts =
      λ h m s n a b c d. ((h, m, s, n), refl, omega arith, omega arith, omega arith, omega arith);
}

-- 23:00 plus two hours.
abbrev two_hours : Interval
two_hours = record { months = pos 1; days = pos 2; micros = pos 7_200_000_000 }

sum-Fits : Fits i64_half (pos (micros_of_day small (23, 0, 0, 0)) +ℤ two_hours.micros)
unfolding micros_of_day ◌+ℤ◌
sum-Fits = omega arith

time_plus_interval-Wraps_example :
    (t' : Clock) × (time_plus_interval small (23, 0, 0, 0) two_hours ≡ ok t')
    × (micros_of_day small t'
        ≡ rem_euclid (pos (micros_of_day small (23, 0, 0, 0)) +ℤ two_hours.micros) usecs_per_day)
time_plus_interval-Wraps_example =
    time_plus_interval-Wraps small small_clock (23, 0, 0, 0) two_hours sum-Fits

abbrev most : ℤ
most = pos 2_147_483_647

arithmetic-Exact_example :
    (add small (int small narrow most) (int small wide (pos 1))
      ≡ in_range small (join narrow wide) (most +ℤ pos 1))
    × (sub small (int small narrow most) (int small wide (pos 1))
        ≡ in_range small (join narrow wide) (most -ℤ pos 1))
    × (mul small (int small narrow most) (int small wide (pos 1))
        ≡ in_range small (join narrow wide) (most *ℤ pos 1))
arithmetic-Exact_example = arithmetic-Exact small narrow wide most (pos 1)

division-Exact_example :
    (div small (int small narrow most) (int small narrow (negsuc 0)) ≡ (
      if Checked.is_zero (negsuc 0)
      then err (error division_by_zero)
      else in_range small (join narrow narrow) (quot most (negsuc 0))))
    × (rem small (int small narrow most) (int small narrow (negsuc 0)) ≡ (
        if Checked.is_zero (negsuc 0)
        then err (error division_by_zero)
        else ok (int small (join narrow narrow) (Checked.rem most (negsuc 0)))))
division-Exact_example = division-Exact small narrow narrow most (negsuc 0)

minus_seven-Fits : Fits (half (join narrow narrow)) (negsuc 6)
unfolding half join
minus_seven-Fits = omega arith

quotient : div small (int small narrow (negsuc 6)) (int small narrow (pos 2)) ≡ ok (int4 (negsuc 2))
unfolding int in_range join half Checked.is_zero Checked.fits quot
quotient = (division-Exact small narrow narrow (negsuc 6) (pos 2)).0

remainder :
    rem small (int small narrow (negsuc 6)) (int small narrow (pos 2)) ≡ ok (int4 (negsuc 0))
unfolding int join Checked.is_zero Checked.rem
remainder = (division-Exact small narrow narrow (negsuc 6) (pos 2)).1

div-rem-Inverse_example :
    (mul small (int small narrow (pos 2)) (int4 (negsuc 2)) >>= λ p. add small p (int4 (negsuc 0)))
    ≡ ok (int small (join narrow narrow) (negsuc 6))
div-rem-Inverse_example =
    div-rem-Inverse small narrow narrow (negsuc 6) (pos 2) minus_seven-Fits quotient remainder

-- The bits of a NaN and of -0.0.
float_cmp-rank_example :
    float_cmp (2047 * 2 ^ 52 + 1) (2 ^ 63) ≡ ok (compare (rank (2047 * 2 ^ 52 + 1)) (rank (2 ^ 63)))
float_cmp-rank_example = float_cmp-rank (2047 * 2 ^ 52 + 1) (2 ^ 63) (omega arith) (omega arith)

truth-and_example :
    (truth_of small (and small null (bool true))
      ≡ lift min (as_bool small null) (as_bool small (bool true)))
    × (truth_of small (or small null (bool true))
        ≡ lift max (as_bool small null) (as_bool small (bool true)))
truth-and_example = truth-and small null (bool true)

-- `Ab_` against `a%\_`, for ILIKE.
abbrev subject_text : List ℕ
subject_text = 65 ∷ 98 ∷ 95 ∷ []

abbrev like_pattern : List ℕ
like_pattern = 97 ∷ 37 ∷ 92 ∷ 95 ∷ []

like_match-Answers_example :
    Answers
      (Likes true (tokens like_pattern) (map (fold true) subject_text))
      (EndsBadly (tokens like_pattern))
      (like_match subject_text like_pattern true)
like_match-Answers_example = like_match-Answers subject_text like_pattern true

-- The columns t.a, t.b and u.a.
abbrev joined : Scope
joined =
    record { qualifier = some (116 ∷ []); name = 97 ∷ []; ty = ColumnType.int4 }
    ∷ record { qualifier = some (116 ∷ []); name = 98 ∷ []; ty = ColumnType.text }
    ∷ record { qualifier = some (117 ∷ []); name = 97 ∷ []; ty = ColumnType.int8 }
    ∷ []

abbrev a_column : Bytes
a_column = 97 ∷ []

resolve-Unique_example :
    (resolve joined none a_column ≡ (
      if count none a_column joined == 0
      then err (undefined_column a_column)
      else if count none a_column joined == 1
      then ok (index none a_column joined)
      else err (ambiguous_column a_column)))
    × ((q : Bytes)
        → resolve joined (some q) a_column ≡ (
            if not (any_qualified q joined)
            then err (missing_from_entry q)
            else if count (some q) a_column joined == 0
            then err (undefined_column a_column)
            else if count (some q) a_column joined == 1
            then ok (index (some q) a_column joined)
            else err (ambiguous_column a_column)))
resolve-Unique_example = resolve-Unique joined a_column

-- 3 000 000 000, beyond an `int4`.
int_literal-to_string_example : int_literal small (to_string 3_000_000_000) ≡ (
    if ltb 3_000_000_000 (2 ^ 31)
    then ok (int4 (pos 3_000_000_000))
    else if ltb 3_000_000_000 (2 ^ 63)
    then ok (int8 (pos 3_000_000_000))
    else err (error overflow))
int_literal-to_string_example = int_literal-to_string small 3_000_000_000
