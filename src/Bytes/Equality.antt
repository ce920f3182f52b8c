-- ===== src/Bytes/Equality.antt =====
-- Equality and prefix tests of byte strings decide equations.
use crabgresql.Prelude.{◌≡◌, refl, ap₂, ◌↔◌, true, [], ◌∷◌, ◌++◌, arith, ==_iff, &&-true, ◌==◌}
use crabgresql.Bytes.{Bytes, bytes_eq, starts_with}

pub bytes_eq_refl : (xs : Bytes) → bytes_eq xs xs ≡ true
unfolding bytes_eq
bytes_eq_refl [] = refl
bytes_eq_refl (x ∷ xs) = ground (arith, bytes_eq_refl xs)

pub bytes_eq→eq : (xs ys : Bytes) → bytes_eq xs ys ≡ true → xs ≡ ys
unfolding bytes_eq
bytes_eq→eq [] [] h = refl
bytes_eq→eq [] (y ∷ ys) h = cc
bytes_eq→eq (x ∷ xs) [] h = cc
bytes_eq→eq (x ∷ xs) (y ∷ ys) h =
    let (e, t) = &&-true (x == y) (bytes_eq xs ys) h in
    ap₂ ◌∷◌ ((==_iff x y).0 e) (bytes_eq→eq xs ys t)

pub bytes_eq_iff : (xs ys : Bytes) → (bytes_eq xs ys ≡ true) ↔ (xs ≡ ys)
bytes_eq_iff xs ys = (bytes_eq→eq xs ys, λ e. rw (← e) (bytes_eq_refl xs))

pub starts_with-append : (xs ys : Bytes) → starts_with xs (xs ++ ys) ≡ true
unfolding starts_with
starts_with-append [] ys = refl
starts_with-append (x ∷ xs) ys = ground (arith, starts_with-append xs ys)

-- A slice that starts with `xs` is `xs` and a rest.
pub starts_with→append :
    (xs zs : Bytes) → starts_with xs zs ≡ true → (rest : Bytes) × (zs ≡ xs ++ rest)
unfolding starts_with
starts_with→append [] zs h = (zs, refl)
starts_with→append (x ∷ xs) [] h = cc
starts_with→append (x ∷ xs) (z ∷ zs) h =
    let (e, t) = &&-true (x == z) (starts_with xs zs) h in
    let (rest, q) = starts_with→append xs zs t in (rest, cc ((==_iff x z).0 e, q))
