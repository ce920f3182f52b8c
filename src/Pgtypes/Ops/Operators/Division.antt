-- ===== src/Pgtypes/Ops/Operators/Division.antt =====
-- Division and remainder of integers.
use crabgresql.Prelude.{
  ℕ, zero, suc, ◌-◌, ◌*◌, ◌/◌, ◌≤◌, ◌≡◌, ◌≢◌, ◌∙◌, refl, sym, ap, true, false, Result, ok, err,
  arith, Bool-cases, ok-inj, ◌>>=◌, ◌↔◌, inl, inr,
}
use crabgresql.Prelude.Int.{ℤ, pos, negsuc, ◌*ℤ◌, Fits}
use crabgresql.Prelude.Int.Checked
use crabgresql.Prelude.Int.Checked.{
  fits, checked, checked_add, checked_sub, checked_mul, checked_div, quot, quot-rem, fits_lem,
}
use crabgresql.Pgtypes.TypeError.{Fault, error, overflow}
use crabgresql.Pgtypes.Crates.{Crates}
use crabgresql.Pgtypes.Ops.{Value}
use crabgresql.Pgtypes.Ops.Operators.Integers.{
  Width, narrow, wide, half, join, int, in_range, arithmetic-Exact, division-Exact,
}
use crabgresql.Pgtypes.Ops.Operators.{add, mul, div, rem}

-- What `in_range` returns.
module _ (C : Crates) (w : Width) (n : ℤ) where
  in_range-fits : fits (half w) n ≡ true → in_range C w n ≡ ok (int C w n)
  unfolding in_range
  in_range-fits e = rw e refl

  in_range-overflow : fits (half w) n ≡ false → in_range C w n ≡ err (error overflow)
  unfolding in_range
  in_range-overflow e = rw e refl

  in_range-ok : fits (half w) n ≡ true → in_range C w n ≢ err (error overflow)
  in_range-ok e h = absurd (cc (in_range-fits e))

  in_range-value : {v : Value C} → in_range C w n ≡ ok v → int C w n ≡ v
  in_range-value {v} h = elim (Bool-cases (fits (half w) n)) [
    | inl e ↦ ok-inj (sym (in_range-fits e) ∙ h)
    | inr e ↦ absurd (cc (in_range-overflow e))
  ]

err-ok : {A : Type 0} {e : Fault} {a : A} → ◌≡◌ {A = Result Fault A} (err e) (ok a) → ⊥
err-ok h = absurd cc

div_le : (n b : ℕ) → n / suc b ≤ n
div_le n b = grind arith

div_halves : (n b : ℕ) → 2 * (n / suc (suc b)) ≤ n
div_halves n b = grind arith

-- A quotient is out of range only for the least number divided by -1.
quot-Fits :
    (half : ℕ) (x y : ℤ)
    → Fits half x
    → Checked.is_zero y ≡ false
    → fits half (quot x y) ≡ false
    → (x ≡ negsuc (half - 1)) × (y ≡ negsuc 0)
unfolding quot fits Checked.is_zero
quot-Fits half x (pos zero) fit nz h = absurd cc
quot-Fits half (pos a) (pos (suc b)) fit nz h = absurd (ground (arith, div_le a b, h, fit))
quot-Fits half (pos a) (negsuc b) fit nz h = absurd (ground (arith, div_le a b, h, fit))
quot-Fits half (negsuc a) (pos (suc b)) fit nz h = absurd (ground (arith, div_le (suc a) b, h, fit))
quot-Fits half (negsuc a) (negsuc zero) fit nz h = (ground (arith, h, fit), refl)
quot-Fits half (negsuc a) (negsuc (suc b)) fit nz h =
    absurd (ground (arith, div_halves (suc a) b, h, fit))

mul_div_le : (n b : ℕ) → suc b * (n / suc b) ≤ n
mul_div_le n b = grind arith

-- The quotient times the divisor is no further from zero than the dividend.
quot-mul-fits :
    (half : ℕ) (x y : ℤ)
    → Fits half x
    → Checked.is_zero y ≡ false
    → fits half (y *ℤ quot x y) ≡ true
unfolding quot fits Checked.is_zero ◌*ℤ◌
quot-mul-fits half x (pos zero) fit nz = absurd cc
quot-mul-fits half (pos a) (pos (suc b)) fit nz = ground (arith, mul_div_le a b, fit)
quot-mul-fits half (pos a) (negsuc b) fit nz = ground (arith, mul_div_le a b, fit)
quot-mul-fits half (negsuc a) (pos (suc b)) fit nz = ground (arith, mul_div_le (suc a) b, fit)
quot-mul-fits half (negsuc a) (negsuc b) fit nz = ground (arith, mul_div_le (suc a) b, fit)

fits-Fits : (half : ℕ) (n : ℤ) → Fits half n → fits half n ≡ true
unfolding fits
fits-Fits half (pos n) h = ground arith
fits-Fits half (negsuc n) h = ground arith

join-right : (v w : Width) → join w (join v w) ≡ join v w
unfolding join
join-right narrow narrow = refl
join-right narrow wide = refl
join-right wide narrow = refl
join-right wide wide = refl

join_self : (v : Width) → join v v ≡ v
unfolding join
join_self narrow = refl
join_self wide = refl

quot_least : (w : Width) → fits (half w) (quot (negsuc (half w - 1)) (negsuc 0)) ≡ false
unfolding half quot fits
quot_least narrow = refl
quot_least wide = refl

module _ (C : Crates) where
  -- A division of two integers by something other than zero overflows exactly where the least
  -- number of the result's width is divided by -1.
  pub div-overflow_iff :
      (v w : Width) (x y : ℤ)
      → Fits (half (join v w)) x
      → Checked.is_zero y ≡ false
      → (div C (int C v x) (int C w y) ≡ err (error overflow))
        ↔ ((x ≡ negsuc (half (join v w) - 1)) × (y ≡ negsuc 0))
  div-overflow_iff v w x y fit nz =
      let result = rw nz at (division-Exact C v w x y).0 in
      (
        λ h. elim (Bool-cases (fits (half (join v w)) (quot x y))) [
          | inl e ↦ absurd (in_range-ok C (join v w) (quot x y) e (sym result ∙ h))
          | inr e ↦ quot-Fits (half (join v w)) x y fit nz e
        ],
        λ (least, minus_one).
            result
            ∙ in_range-overflow C (join v w) (quot x y)
                (rw (least, minus_one) (quot_least (join v w))),
      )

  -- Where the division of two integers returns a value, that value times the divisor, plus the
  -- remainder, is the dividend, in the wider of the widths and without an overflow on the way.
  pub div-rem-Inverse :
      (v w : Width) (x y : ℤ) {q r : Value C}
      → Fits (half (join v w)) x
      → div C (int C v x) (int C w y) ≡ ok q
      → rem C (int C v x) (int C w y) ≡ ok r
      → (mul C (int C w y) q >>= λ p. add C p r) ≡ ok (int C (join v w) x)
  div-rem-Inverse v w x y {q} {r} fit hq hr =
      let j = join v w in
      elim (Bool-cases (Checked.is_zero y)) [
        | inl z ↦ absurd (err-ok (sym (rw z at (division-Exact C v w x y).0) ∙ hq))
        | inr nz ↦
            let quotient : int C j (quot x y) ≡ q =
              in_range-value C j (quot x y) (sym (rw nz at (division-Exact C v w x y).0) ∙ hq) in
            let rest : int C j (Checked.rem x y) ≡ r =
              ok-inj (sym (rw nz at (division-Exact C v w x y).1) ∙ hr) in
            let product : mul C (int C w y) q ≡ ok (int C j (y *ℤ quot x y)) = rw (← quotient) (
              (arithmetic-Exact C w j y (quot x y)).2
              ∙ in_range-fits C (join w j) (y *ℤ quot x y)
                  (rw (join-right v w) (quot-mul-fits (half j) x y fit nz))
              ∙ ap (λ u. ok (int C u (y *ℤ quot x y))) (join-right v w)) in
            rw (product, ← rest)
              ((arithmetic-Exact C j j (y *ℤ quot x y) (Checked.rem x y)).0
                ∙ rw (join_self j, quot-rem x y nz)
                    (in_range-fits C j x (fits-Fits (half j) x fit)))
      ]
