-- ===== src/Executor/SetOps/Multiset.antt =====
-- The operators against the multisets that SQL defines.
use crabgresql.Prelude.{
  ℕ, ◌+◌, ◌-◌, min, ◌≡◌, ap, ap₂, Bool, true, false, ◌||◌, List, [], ◌∷◌, ◌++◌, ◌==◌, if◌then◌else◌,
  arith,
}
use crabgresql.Executor.SetOps.{
  SetOp, or_zero, counts, union, intersect_op, except_op, seen_in, dedup_from, dedup_keep_order,
  intersect_mult, except_mult, intersect, except, combine_rows,
}
use crabgresql.Executor.SetOps.Counts.{
  IsEq, seen_in_alike, lookup_alike, count_in, count_in-append, lookup-counts, count_in-emit_from,
}

-- The multiplicity of a row in the result, from those in the two inputs.
unfoldable pub multiplicity : SetOp → Bool → ℕ → ℕ → ℕ
multiplicity union true l r = l + r
multiplicity union false l r = if l + r == 0 then 0 else 1
multiplicity intersect_op true l r = min l r
multiplicity intersect_op false l r = if l == 0 || r == 0 then 0 else 1
multiplicity except_op true l r = l - r
multiplicity except_op false l r = if l == 0 then 0 else if r == 0 then 1 else 0

module _ {Row : Type 0} (eq : Row → Row → Bool) (h : IsEq eq) where
  count_in-dedup_from :
      (r : Row) (seen rows : List Row)
      → count_in eq h r (dedup_from eq seen rows)
        ≡ (if seen_in eq r seen then 0 else if count_in eq h r rows == 0 then 0 else 1)
  unfolding dedup_from count_in seen_in
  count_in-dedup_from r seen [] = ground arith
  count_in-dedup_from r seen (s ∷ rows) = ground (
    arith,
    count_in-dedup_from r seen rows,
    count_in-dedup_from r (s ∷ seen) rows,
    seen_in_alike eq h r s seen,
  )

  -- For an equality of rows that is an equivalence, every row stands in the result as often as SQL defines for the operator, with and without ALL:
  -- the sum, the minimum or the difference of its multiplicities, or once under a condition on them.
  pub count_in-combine_rows :
      (op : SetOp) (all : Bool) (lrows rrows : List Row) (r : Row)
      → count_in eq h r (combine_rows eq op all lrows rrows)
        ≡ multiplicity op all (count_in eq h r lrows) (count_in eq h r rrows)
  unfolding combine_rows multiplicity dedup_keep_order intersect except intersect_mult except_mult
      seen_in
  count_in-combine_rows union true lrows rrows r = count_in-append eq h r lrows rrows
  count_in-combine_rows union false lrows rrows r =
      ground (arith, count_in-dedup_from r [] (lrows ++ rrows), count_in-append eq h r lrows rrows)
  count_in-combine_rows intersect_op all lrows rrows r =
      rw
        (
          count_in-emit_from eq h _ r [] lrows (λ s e.
              ap₂ (intersect_mult eq all)
                (ap (or_zero eq) (lookup_alike eq h r s (counts eq lrows) e))
                (ap (or_zero eq) (lookup_alike eq h r s (counts eq rrows) e))),
          lookup-counts eq h r lrows,
          lookup-counts eq h r rrows,
        )
        (shared all (count_in eq h r lrows) (count_in eq h r rrows))
    where
      shared :
          (all : Bool) (l n : ℕ)
          → (if l == 0 then 0 else if n == 0 then 0 else if all then min l n else 1)
            ≡ multiplicity intersect_op all l n
      shared true l n = ground arith
      shared false l n = ground arith
  count_in-combine_rows except_op all lrows rrows r =
      rw
        (
          count_in-emit_from eq h _ r [] lrows (λ s e.
              ap₂ (except_mult eq all) (ap (or_zero eq) (lookup_alike eq h r s (counts eq lrows) e))
                (ap (or_zero eq) (lookup_alike eq h r s (counts eq rrows) e))),
          lookup-counts eq h r lrows,
          lookup-counts eq h r rrows,
        )
        (left all (count_in eq h r lrows) (count_in eq h r rrows))
    where
      left :
          (all : Bool) (l n : ℕ)
          → (if l == 0 then 0 else if all then l - n else if n == 0 then 1 else 0)
            ≡ multiplicity except_op all l n
      left true l n = ground arith
      left false l n = ground arith
