-- ===== src/Bytes/Order.antt =====
-- The order of byte strings is a strict total order, and the strings with one prefix form an
-- interval of it.
use crabgresql.Prelude.{◌≡◌, refl, true, false, [], ◌∷◌, ◌++◌, arith}
use crabgresql.Bytes.{Bytes, starts_with, lex_lt}

pub lex_lt_irrefl : (xs : Bytes) → lex_lt xs xs ≡ false
unfolding lex_lt
lex_lt_irrefl [] = refl
lex_lt_irrefl (x ∷ xs) = ground (arith, lex_lt_irrefl xs)

pub lex_lt_trans :
    (xs ys zs : Bytes) → lex_lt xs ys ≡ true → lex_lt ys zs ≡ true → lex_lt xs zs ≡ true
unfolding lex_lt
lex_lt_trans [] [] [] p q = cc
lex_lt_trans [] [] (z ∷ zs) p q = refl
lex_lt_trans [] (y ∷ ys) [] p q = cc
lex_lt_trans [] (y ∷ ys) (z ∷ zs) p q = refl
lex_lt_trans (x ∷ xs) [] zs p q = cc
lex_lt_trans (x ∷ xs) (y ∷ ys) [] p q = cc
lex_lt_trans (x ∷ xs) (y ∷ ys) (z ∷ zs) p q = ground (arith, lex_lt_trans xs ys zs)

pub lex_lt_asym : (xs ys : Bytes) → lex_lt xs ys ≡ true → lex_lt ys xs ≡ false
unfolding lex_lt
lex_lt_asym [] [] p = refl
lex_lt_asym [] (y ∷ ys) p = refl
lex_lt_asym (x ∷ xs) [] p = cc
lex_lt_asym (x ∷ xs) (y ∷ ys) p = ground (arith, lex_lt_asym xs ys)

pub lex_lt_connex : (xs ys : Bytes) → lex_lt xs ys ≡ false → lex_lt ys xs ≡ false → xs ≡ ys
unfolding lex_lt
lex_lt_connex [] [] p q = refl
lex_lt_connex [] (y ∷ ys) p q = cc
lex_lt_connex (x ∷ xs) [] p q = cc
lex_lt_connex (x ∷ xs) (y ∷ ys) p q = ground (arith, lex_lt_connex xs ys)

-- A common prefix does not matter.
pub lex_lt-append : (ps xs ys : Bytes) → lex_lt (ps ++ xs) (ps ++ ys) ≡ lex_lt xs ys
unfolding lex_lt
lex_lt-append [] xs ys = refl
lex_lt-append (p ∷ ps) xs ys = ground (arith, lex_lt-append ps xs ys)

-- Nothing that starts with `ps` lies below `ps`.
pub starts_with→ge : (ps xs : Bytes) → starts_with ps xs ≡ true → lex_lt xs ps ≡ false
unfolding lex_lt starts_with
starts_with→ge [] [] h = refl
starts_with→ge [] (x ∷ xs) h = refl
starts_with→ge (p ∷ ps) [] h = cc
starts_with→ge (p ∷ ps) (x ∷ xs) h = ground (arith, starts_with→ge ps xs)

-- From `ps` on, a string without the prefix lies above all that have it.
pub starts_with_convex :
    (ps xs ys : Bytes)
    → lex_lt xs ps ≡ false
    → starts_with ps xs ≡ false
    → lex_lt xs ys ≡ true
    → starts_with ps ys ≡ false
unfolding lex_lt starts_with
starts_with_convex [] xs ys a b c = cc
starts_with_convex (p ∷ ps) [] ys a b c = cc
starts_with_convex (p ∷ ps) (x ∷ xs) [] a b c = cc
starts_with_convex (p ∷ ps) (x ∷ xs) (y ∷ ys) a b c = ground (arith, starts_with_convex ps xs ys)
