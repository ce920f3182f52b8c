-- ===== src/Prelude/Results.antt =====
-- Rust's `Result`, with `?` as the bind of a `do` block.
use mathlib.Core.Logic.{inl, inr, ◌⊎◌}
use mathlib.Core.Option.{some, none, Option}
use mathlib.Core.Path.{refl, ◌≡◌}

pub data Result {ℓ κ} (E : Type ℓ) (A : Type κ) : Type (ℓ ⊔ κ) where
  ok : A → Result E A
  err : E → Result E A

module _ {ℓ κ} {E : Type ℓ} {A : Type κ} where
  -- To split on a computed result and keep the equation.
  pub Result-cases : (r : Result E A) → ((a : A) × (r ≡ ok a)) ⊎ ((e : E) × (r ≡ err e))
  Result-cases (err e) = inr (e, refl)
  Result-cases (ok a) = inl (a, refl)

  -- `Option::ok_or`.
  abbrev pub ok_or : Option A → E → Result E A
  ok_or (some found) missing = ok found
  ok_or none missing = err missing

module _ {ℓ κ μ} {E : Type ℓ} {A : Type κ} {B : Type μ} where
  infixl 5 ◌>>=◌
  abbrev pub ◌>>=◌ : Result E A → (A → Result E B) → Result E B
  err e >>= next = err e
  ok a >>= next = next a

  -- A bind that succeeds, taken apart.
  pub >>=-eq-ok :
      (m : Result E A) (next : A → Result E B) {b : B}
      → (m >>= next) ≡ ok b
      → (a : A) × (m ≡ ok a) × (next a ≡ ok b)
  >>=-eq-ok (err e) next h = absurd cc
  >>=-eq-ok (ok a) next h = (a, refl, h)

pub ok-inj {ℓ κ} : {E : Type ℓ} {A : Type κ} {a b : A} → ◌≡◌ {A = Result E A} (ok a) (ok b) → a ≡ b
ok-inj h = cc

pub ok_or-eq-ok {ℓ κ} :
    {E : Type ℓ} {A : Type κ} (o : Option A) (e : E) {a : A}
    → ◌≡◌ {A = Result E A} (ok_or o e) (ok a)
    → o ≡ some a
ok_or-eq-ok none e h = absurd cc
ok_or-eq-ok (some a) e h = cc
