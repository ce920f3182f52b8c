-- ===== src/Pgtypes/Ops/Logic/Kleene.antt =====
-- `and`, `or` and `not` as the connectives of a chain of three truth values.
use crabgresql.Prelude.{
  ℕ, ◌≡◌, refl, Bool, true, false, Option, some, none, Result, ok, err, ◌>>=◌, min, max,
}
use crabgresql.Pgtypes.TypeError.{Fault}
use crabgresql.Pgtypes.Crates.{Crates}
use crabgresql.Pgtypes.Ops.{Value}
use crabgresql.Pgtypes.Ops.Logic.{as_bool, and3, or3, not3, and, or, not}

-- false, NULL and true, in this order.
unfoldable pub truth : Option Bool → ℕ
truth (some false) = 0
truth none = 1
truth (some true) = 2

-- What an operator returns for two truth values.
abbrev pub lift :
    (ℕ → ℕ → ℕ) → Result Fault (Option Bool) → Result Fault (Option Bool) → Result Fault ℕ
lift op x y = x >>= λ u. y >>= λ v. ok (op (truth u) (truth v))

module _ (C : Crates) where
  abbrev Truths : Type 0
  Truths = Result Fault (Option Bool)

  -- The truth value of a result.
  abbrev pub truth_of : Result Fault (Value C) → Result Fault ℕ
  truth_of r = r >>= λ v. as_bool C v >>= λ x. ok (truth x)

  de_morgan :
      (r s : Truths)
      → (((r >>= λ x. s >>= λ y. ok (and3 C x y)) >>= λ v. as_bool C v >>= λ x. ok (not3 C x)) ≡ (
          (r >>= λ x. ok (not3 C x)) >>= λ v. (s >>= λ y. ok (not3 C y)) >>= λ w.
          as_bool C v >>= λ x. as_bool C w >>= λ y. ok (or3 C x y)))
        × (((r >>= λ x. s >>= λ y. ok (or3 C x y)) >>= λ v. as_bool C v >>= λ x. ok (not3 C x)) ≡ (
            (r >>= λ x. ok (not3 C x)) >>= λ v. (s >>= λ y. ok (not3 C y)) >>= λ w.
            as_bool C v >>= λ x. as_bool C w >>= λ y. ok (and3 C x y)))
  unfolding as_bool and3 or3 not3
  de_morgan (err e) s = (refl, refl)
  de_morgan (ok x) (err e) = (refl, refl)
  de_morgan (ok none) (ok none) = (refl, refl)
  de_morgan (ok none) (ok (some false)) = (refl, refl)
  de_morgan (ok none) (ok (some true)) = (refl, refl)
  de_morgan (ok (some false)) (ok none) = (refl, refl)
  de_morgan (ok (some false)) (ok (some false)) = (refl, refl)
  de_morgan (ok (some false)) (ok (some true)) = (refl, refl)
  de_morgan (ok (some true)) (ok none) = (refl, refl)
  de_morgan (ok (some true)) (ok (some false)) = (refl, refl)
  de_morgan (ok (some true)) (ok (some true)) = (refl, refl)

  -- De Morgan's laws hold for all values, those included on which the operators fail: the negation
  -- of a conjunction is the disjunction of the negations, and the other way round.
  pub not-and :
      (a b : Value C)
      → ((and C a b >>= not C) ≡ (not C a >>= λ x. not C b >>= λ y. or C x y))
        × ((or C a b >>= not C) ≡ (not C a >>= λ x. not C b >>= λ y. and C x y))
  unfolding and or not
  not-and a b = de_morgan (as_bool C a) (as_bool C b)

  kleene :
      (r s : Truths)
      → (truth_of (r >>= λ x. s >>= λ y. ok (and3 C x y)) ≡ lift min r s)
        × (truth_of (r >>= λ x. s >>= λ y. ok (or3 C x y)) ≡ lift max r s)
  unfolding as_bool and3 or3 truth
  kleene (err e) s = (refl, refl)
  kleene (ok x) (err e) = (refl, refl)
  kleene (ok none) (ok none) = (refl, refl)
  kleene (ok none) (ok (some false)) = (refl, refl)
  kleene (ok none) (ok (some true)) = (refl, refl)
  kleene (ok (some false)) (ok none) = (refl, refl)
  kleene (ok (some false)) (ok (some false)) = (refl, refl)
  kleene (ok (some false)) (ok (some true)) = (refl, refl)
  kleene (ok (some true)) (ok none) = (refl, refl)
  kleene (ok (some true)) (ok (some false)) = (refl, refl)
  kleene (ok (some true)) (ok (some true)) = (refl, refl)

  -- With false below NULL below true, a conjunction is the lesser and a disjunction the greater of
  -- its operands, and each fails with the error of the first operand that is no truth value.
  pub truth-and :
      (a b : Value C)
      → (truth_of (and C a b) ≡ lift min (as_bool C a) (as_bool C b))
        × (truth_of (or C a b) ≡ lift max (as_bool C a) (as_bool C b))
  unfolding and or
  truth-and a b = kleene (as_bool C a) (as_bool C b)
