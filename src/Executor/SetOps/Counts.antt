-- ===== src/Executor/SetOps/Counts.antt =====
-- How often a row stands in the lists that the operators build.
use crabgresql.Prelude.{
  ℕ, zero, suc, ◌+◌, ◌≡◌, refl, ◌∙◌, Bool, true, List, [], ◌∷◌, ◌++◌, replicate, some, ◌==◌,
  if◌then◌else◌, arith,
}
use crabgresql.Prelude.HashMap.{lookup, insert}
use crabgresql.Executor.SetOps.{seen_in, or_zero, counts_from, counts, emit_from}

-- What Rust's `Eq` asks of an equality: rows that are equal are equal to the same rows.
pub record IsEq {Row : Type 0} (eq : Row → Row → Bool) : Type 0 where
  pub same : (r : Row) → eq r r ≡ true
  pub alike : (r s : Row) → eq r s ≡ true → (q : Row) → eq q r ≡ eq q s
  pub turn : (r s : Row) → eq r s ≡ eq s r

module _ {Row : Type 0} (eq : Row → Row → Bool) (h : IsEq eq) where
  -- The multiplicity of a row, among the rows equal to it.
  unfoldable pub count_in : Row → List Row → ℕ
  count_in r [] = 0
  count_in r (s ∷ rows) = if eq r s then suc (count_in r rows) else count_in r rows

  pub count_in-append :
      (r : Row) (xs ys : List Row) → count_in r (xs ++ ys) ≡ count_in r xs + count_in r ys
  unfolding count_in
  count_in-append r [] ys = omega arith
  count_in-append r (x ∷ xs) ys = ground (arith, count_in-append r xs ys)

  count_in-replicate : (r s : Row) (n : ℕ) → count_in r (replicate n s) ≡ (if eq r s then n else 0)
  unfolding count_in
  count_in-replicate r s zero = ground arith
  count_in-replicate r s (suc n) = ground (arith, count_in-replicate r s n)

  left_alike : (r s q : Row) → eq r s ≡ true → eq r q ≡ eq s q
  left_alike r s q e = h.turn r q ∙ h.alike r s e q ∙ h.turn q s

  pub count_in_alike :
      (r s : Row) (rows : List Row) → eq r s ≡ true → count_in r rows ≡ count_in s rows
  unfolding count_in
  count_in_alike r s [] e = refl
  count_in_alike r s (q ∷ rows) e =
      rw (count_in, left_alike r s q e, count_in_alike r s rows e) refl

  pub seen_in_alike :
      (r s : Row) (rows : List Row) → eq r s ≡ true → seen_in eq r rows ≡ seen_in eq s rows
  unfolding seen_in
  seen_in_alike r s [] e = refl
  seen_in_alike r s (q ∷ rows) e = rw (seen_in, left_alike r s q e, seen_in_alike r s rows e) refl

  lookup_inserted :
      (r s : Row) (n : ℕ) (m : List (Row × ℕ))
      → lookup eq r (insert eq s n m) ≡ (if eq r s then some n else lookup eq r m)
  unfolding lookup insert
  lookup_inserted r s n [] = refl
  lookup_inserted r s n ((q, k) ∷ m) =
      let middle : eq s q ≡ true → eq r s ≡ eq r q = λ e. h.alike s q e r in
      ground (arith, middle, left_alike r s q, lookup_inserted r s n m)

  pub lookup_alike :
      (r s : Row) (m : List (Row × ℕ)) → eq r s ≡ true → lookup eq r m ≡ lookup eq s m
  unfolding lookup
  lookup_alike r s [] e = refl
  lookup_alike r s ((q, k) ∷ m) e = rw (lookup, left_alike r s q e, lookup_alike r s m e) refl

  lookup-counts_from :
      (r : Row) (m : List (Row × ℕ)) (rows : List Row)
      → or_zero eq (lookup eq r (counts_from eq m rows))
        ≡ or_zero eq (lookup eq r m) + count_in r rows
  unfolding counts_from count_in
  lookup-counts_from r m [] = omega arith
  lookup-counts_from r m (s ∷ rows) = ground (
    arith,
    lookup-counts_from r (insert eq s (or_zero eq (lookup eq s m) + 1) m) rows,
    lookup_inserted r s (or_zero eq (lookup eq s m) + 1) m,
    lookup_alike r s m,
  )

  -- The map of counts has every row's multiplicity.
  pub lookup-counts :
      (r : Row) (rows : List Row) → or_zero eq (lookup eq r (counts eq rows)) ≡ count_in r rows
  unfolding counts lookup
  lookup-counts r rows = ground (arith, lookup-counts_from r [] rows)

  -- The multiplicity of each distinct row, which equal rows share, is what the loop emits.
  pub count_in-emit_from :
      (mult : Row → ℕ) (r : Row) (seen rows : List Row)
      → ((s : Row) → eq r s ≡ true → mult r ≡ mult s)
      → count_in r (emit_from eq mult seen rows)
        ≡ (if seen_in eq r seen then 0 else if count_in r rows == 0 then 0 else mult r)
  unfolding emit_from count_in seen_in
  count_in-emit_from mult r seen [] shared = ground arith
  count_in-emit_from mult r seen (s ∷ rows) shared = ground (
    arith,
    count_in-emit_from mult r seen rows shared,
    count_in-emit_from mult r (s ∷ seen) rows shared,
    count_in-append r (replicate (mult s) s) (emit_from eq mult (s ∷ seen) rows),
    count_in-replicate r s (mult s),
    seen_in_alike r s seen,
    shared s,
  )
