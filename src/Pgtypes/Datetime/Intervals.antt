-- ===== src/Pgtypes/Datetime/Intervals.antt =====
-- The sum, the negation and the difference of intervals.
use crabgresql.Prelude.{
  ℕ, ◌≡◌, ◌∙◌, refl, ap, true, some, ok, ok_or, ok_or-eq-ok, arith, >>=-eq-ok, ok-inj,
}
use crabgresql.Prelude.Int.{ℤ, pos, negsuc, ◌+ℤ◌, ◌-ℤ◌, Fits, i32_half, i64_half}
use crabgresql.Prelude.Int.Checked.{fits, checked, checked_add, checked_neg, checked-Fits}
use crabgresql.Pgtypes.Datum.{Interval}
use crabgresql.Pgtypes.Interval.{IsInterval}
use crabgresql.Pgtypes.Datetime.{overflows, add_interval, neg_interval, sub_interval}

fits-Fits : (half : ℕ) (n : ℤ) → Fits half n → fits half n ≡ true
unfolding fits
fits-Fits half (pos n) h = ground arith
fits-Fits half (negsuc n) h = ground arith

+ℤ-cancel : (a b : ℤ) → (a +ℤ b) +ℤ (pos 0 -ℤ b) ≡ a
unfolding ◌+ℤ◌ ◌-ℤ◌
+ℤ-cancel (pos a) (pos b) = ground arith
+ℤ-cancel (pos a) (negsuc b) = ground arith
+ℤ-cancel (negsuc a) (pos b) = ground arith
+ℤ-cancel (negsuc a) (negsuc b) = ground arith

+ℤ_comm : (a b : ℤ) → a +ℤ b ≡ b +ℤ a
unfolding ◌+ℤ◌
+ℤ_comm (pos a) (pos b) = ground arith
+ℤ_comm (pos a) (negsuc b) = ground arith
+ℤ_comm (negsuc a) (pos b) = ground arith
+ℤ_comm (negsuc a) (negsuc b) = ground arith

-- One field: a sum that fits, less what was added.
checked_add-checked_neg :
    (half : ℕ) (a b : ℤ) {c n : ℤ}
    → Fits half a
    → checked_add half a b ≡ some c
    → checked_neg half b ≡ some n
    → checked_add half c n ≡ some a
unfolding checked_add checked_neg checked
checked_add-checked_neg half a b {c} {n} fit h g =
    let same : a +ℤ b ≡ c = (checked-Fits half (a +ℤ b) h).0 in
    let less : pos 0 -ℤ b ≡ n = (checked-Fits half (pos 0 -ℤ b) g).0 in
    rw (← same, ← less, +ℤ-cancel a b, fits-Fits half a fit) refl

checked_add-Fits : (half : ℕ) (a b : ℤ) {c : ℤ} → checked_add half a b ≡ some c → Fits half c
unfolding checked_add
checked_add-Fits half a b h = (checked-Fits half (a +ℤ b) h).1

-- The three fields of a sum, and of a negation, are those of `i32`, `i32` and `i64`.
add_interval-fields :
    (a b : Interval) {c : Interval}
    → add_interval a b ≡ ok c
    → (checked_add i32_half a.months b.months ≡ some c.months)
      × (checked_add i32_half a.days b.days ≡ some c.days)
      × (checked_add i64_half a.micros b.micros ≡ some c.micros)
unfolding add_interval
add_interval-fields a b {c} h =
    let (months, h1, g1) =
      >>=-eq-ok (ok_or (checked_add i32_half a.months b.months) overflows) _ h in
    let (days, h2, g2) = >>=-eq-ok (ok_or (checked_add i32_half a.days b.days) overflows) _ g1 in
    let (micros, h3, g3) =
      >>=-eq-ok (ok_or (checked_add i64_half a.micros b.micros) overflows) _ g2 in
    let same : record { months = months; days = days; micros = micros } ≡ c = ok-inj g3 in
    (
      ok_or-eq-ok (checked_add i32_half a.months b.months) overflows h1
          ∙ ap (λ z. some z.months) same,
      ok_or-eq-ok (checked_add i32_half a.days b.days) overflows h2 ∙ ap (λ z. some z.days) same,
      ok_or-eq-ok (checked_add i64_half a.micros b.micros) overflows h3
          ∙ ap (λ z. some z.micros) same,
    )

neg_interval-fields :
    (a : Interval) {c : Interval}
    → neg_interval a ≡ ok c
    → (checked_neg i32_half a.months ≡ some c.months)
      × (checked_neg i32_half a.days ≡ some c.days)
      × (checked_neg i64_half a.micros ≡ some c.micros)
unfolding neg_interval
neg_interval-fields a {c} h =
    let (months, h1, g1) = >>=-eq-ok (ok_or (checked_neg i32_half a.months) overflows) _ h in
    let (days, h2, g2) = >>=-eq-ok (ok_or (checked_neg i32_half a.days) overflows) _ g1 in
    let (micros, h3, g3) = >>=-eq-ok (ok_or (checked_neg i64_half a.micros) overflows) _ g2 in
    let same : record { months = months; days = days; micros = micros } ≡ c = ok-inj g3 in
    (
      ok_or-eq-ok (checked_neg i32_half a.months) overflows h1 ∙ ap (λ z. some z.months) same,
      ok_or-eq-ok (checked_neg i32_half a.days) overflows h2 ∙ ap (λ z. some z.days) same,
      ok_or-eq-ok (checked_neg i64_half a.micros) overflows h3 ∙ ap (λ z. some z.micros) same,
    )

-- The sum of intervals, where it is in range, is in range field by field.
pub add_interval-IsInterval :
    (a b : Interval) {c : Interval} → add_interval a b ≡ ok c → IsInterval c
add_interval-IsInterval a b h =
    let (m, d, u) = add_interval-fields a b h in
    record {
      months = checked_add-Fits i32_half a.months b.months m;
      days = checked_add-Fits i32_half a.days b.days d;
      micros = checked_add-Fits i64_half a.micros b.micros u;
    }

-- Where the sum of two intervals in range and the negation of the second exist, the difference of
-- the sum and the second is the first.
pub sub_interval-add_interval :
    (a b : Interval) {c n : Interval}
    → IsInterval a
    → add_interval a b ≡ ok c
    → neg_interval b ≡ ok n
    → sub_interval c b ≡ ok a
unfolding sub_interval add_interval
sub_interval-add_interval a b {c} {n} is h g =
    let (m, d, u) = add_interval-fields a b h in
    let (m', d', u') = neg_interval-fields b g in
    rw
      (
        g,
        checked_add-checked_neg i32_half a.months b.months is.months m m',
        checked_add-checked_neg i32_half a.days b.days is.days d d',
        checked_add-checked_neg i64_half a.micros b.micros is.micros u u',
      )
      refl
