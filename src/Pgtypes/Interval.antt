-- ===== src/Pgtypes/Interval.antt =====
-- The binary form of intervals in crates/pgtypes/src/datetime.rs.
use crabgresql.Prelude.{
  ℕ, ◌≡◌, ◌++◌, Result, ok, err, arith, length, take, drop, ◌==◌, if◌then◌else◌, [], append_assoc,
  take-append, drop-append, length-append, append-nil,
}
use crabgresql.Prelude.Int.{
  ℤ, Fits, to_word, of_word, i32_half, i64_half, to_word-lt, of_word-to_word,
}
use crabgresql.Bytes.{Bytes}
use crabgresql.Bytes.BigEndian.{be_bytes, be_value, length-be_bytes, be_value-be_bytes}
use crabgresql.Pgtypes.Datum.{Interval}

-- `to_be_bytes` of an `i32` and of an `i64`, and `from_be_bytes`.
abbrev pub i32_bytes : ℤ → Bytes
i32_bytes n = be_bytes 4 (to_word i32_half n)

abbrev pub i64_bytes : ℤ → Bytes
i64_bytes n = be_bytes 8 (to_word i64_half n)

unfoldable pub i32_value : Bytes → ℤ
i32_value bs = of_word i32_half (be_value bs)

unfoldable pub i64_value : Bytes → ℤ
i64_value bs = of_word i64_half (be_value bs)

unfoldable pub interval_to_binary : Interval → Bytes
interval_to_binary iv = i64_bytes iv.micros ++ (i32_bytes iv.days ++ i32_bytes iv.months)

-- The error carries the bytes that are not 16.
unfoldable pub interval_from_binary : Bytes → Result Bytes Interval
interval_from_binary b =
    if length b == 16
    then ok (record {
      months = i32_value (take 4 (drop 12 b));
      days = i32_value (take 4 (drop 8 b));
      micros = i64_value (take 8 b);
    })
    else err b

-- The fields are in range of their Rust types.
pub record IsInterval (iv : Interval) : Type 0 where
  pub months : Fits i32_half iv.months
  pub days : Fits i32_half iv.days
  pub micros : Fits i64_half iv.micros

pub i32_value-i32_bytes : (n : ℤ) → Fits i32_half n → i32_value (i32_bytes n) ≡ n
unfolding i32_value
i32_value-i32_bytes n h =
    rw (be_value-be_bytes 4 (to_word i32_half n) (to_word-lt i32_half n h))
      (of_word-to_word i32_half n h)

pub i64_value-i64_bytes : (n : ℤ) → Fits i64_half n → i64_value (i64_bytes n) ≡ n
unfolding i64_value
i64_value-i64_bytes n h =
    rw (be_value-be_bytes 8 (to_word i64_half n) (to_word-lt i64_half n h))
      (of_word-to_word i64_half n h)

pub length-interval_to_binary : (iv : Interval) → length (interval_to_binary iv) ≡ 16
unfolding interval_to_binary
length-interval_to_binary iv = omega (
  arith,
  length-append (i64_bytes iv.micros) (i32_bytes iv.days ++ i32_bytes iv.months),
  length-append (i32_bytes iv.days) (i32_bytes iv.months),
  length-be_bytes 8 (to_word i64_half iv.micros),
  length-be_bytes 4 (to_word i32_half iv.days),
  length-be_bytes 4 (to_word i32_half iv.months),
)

take_all : {n : ℕ} (bs : Bytes) → length bs ≡ n → take n bs ≡ bs
take_all bs h = rw append-nil at (take-append bs [] h)

-- The three slices of 16 bytes.
slices :
    (a b c : Bytes)
    → length a ≡ 8
    → length b ≡ 4
    → length c ≡ 4
    → (take 8 (a ++ (b ++ c)) ≡ a)
      × (take 4 (drop 8 (a ++ (b ++ c))) ≡ b)
      × (take 4 (drop 12 (a ++ (b ++ c))) ≡ c)
slices a b c la lb lc = (
  take-append a (b ++ c) la,
  rw (drop-append a (b ++ c) la) (take-append b c lb),
  rw (← append_assoc a b c, drop-append {n = 12} (a ++ b) c (omega (arith, length-append a b)))
      (take_all c lc),
)

-- An interval whose fields fit `i32`, `i32` and `i64` decodes to itself from its binary form.
pub interval_from_binary-interval_to_binary :
    (iv : Interval) → IsInterval iv → interval_from_binary (interval_to_binary iv) ≡ ok iv
unfolding interval_from_binary interval_to_binary
interval_from_binary-interval_to_binary iv h = ground (
  arith,
  slices (i64_bytes iv.micros) (i32_bytes iv.days) (i32_bytes iv.months)
      (length-be_bytes 8 (to_word i64_half iv.micros))
      (length-be_bytes 4 (to_word i32_half iv.days))
      (length-be_bytes 4 (to_word i32_half iv.months)),
  length-interval_to_binary iv,
  i64_value-i64_bytes iv.micros h.micros,
  i32_value-i32_bytes iv.days h.days,
  i32_value-i32_bytes iv.months h.months,
)
