-- ===== src/Executor/SetOps.antt =====
-- crates/executor/src/setops.rs: UNION, INTERSECT and EXCEPT on the rows of two queries. A row is a
-- type with an equality test, which stands for `Eq` of `Vec<Datum>`; a hash set is the list of its members, a hash
-- map of counts the list of its entries.
pub mod Counts
pub mod Multiset
use crabgresql.Prelude.{
  ℕ, zero, suc, ◌+◌, ◌-◌, min, Bool, true, false, ◌||◌, List, [], ◌∷◌, ◌++◌, replicate, Option,
  none, some, ◌==◌, if◌then◌else◌,
}
use crabgresql.Prelude.HashMap.{lookup, insert}

pub data SetOp : Type 0 where
  union intersect_op except_op : SetOp

module _ {Row : Type 0} (eq : Row → Row → Bool) where
  -- `HashSet::contains`.
  unfoldable pub seen_in : Row → List Row → Bool
  seen_in r [] = false
  seen_in r (s ∷ rows) = eq r s || seen_in r rows

  unfoldable pub dedup_from : List Row → List Row → List Row
  dedup_from seen [] = []
  dedup_from seen (row ∷ rows) =
      if seen_in row seen then dedup_from seen rows else row ∷ dedup_from (row ∷ seen) rows

  unfoldable pub dedup_keep_order : List Row → List Row
  dedup_keep_order rows = dedup_from [] rows

  abbrev pub or_zero : Option ℕ → ℕ
  or_zero none = 0
  or_zero (some n) = n

  -- `*m.entry(r).or_insert(0) += 1` for each row.
  unfoldable pub counts_from : List (Row × ℕ) → List Row → List (Row × ℕ)
  counts_from m [] = m
  counts_from m (r ∷ rows) = counts_from (insert eq r (or_zero (lookup eq r m) + 1) m) rows

  unfoldable pub counts : List Row → List (Row × ℕ)
  counts rows = counts_from [] rows

  -- The multiplicity of a distinct left row in the result.
  unfoldable pub intersect_mult : Bool → ℕ → ℕ → ℕ
  intersect_mult all lcount rcount = if rcount == 0 then 0 else if all then min lcount rcount else 1

  unfoldable pub except_mult : Bool → ℕ → ℕ → ℕ
  except_mult all lcount rcount = if all then lcount - rcount else if rcount == 0 then 1 else 0

  -- The loop over the left rows, given the multiplicity of each distinct one.
  unfoldable pub emit_from : (Row → ℕ) → List Row → List Row → List Row
  emit_from mult seen [] = []
  emit_from mult seen (row ∷ rows) =
      if seen_in row seen
      then emit_from mult seen rows
      else replicate (mult row) row ++ emit_from mult (row ∷ seen) rows

  unfoldable pub intersect : List Row → List Row → Bool → List Row
  intersect lrows rrows all =
      let lc = counts lrows in
      let rc = counts rrows in
      emit_from
        (λ row. intersect_mult all (or_zero (lookup eq row lc)) (or_zero (lookup eq row rc))) []
        lrows

  unfoldable pub except : List Row → List Row → Bool → List Row
  except lrows rrows all =
      let lc = counts lrows in
      let rc = counts rrows in
      emit_from (λ row. except_mult all (or_zero (lookup eq row lc)) (or_zero (lookup eq row rc)))
        [] lrows

  unfoldable pub combine_rows : SetOp → Bool → List Row → List Row → List Row
  combine_rows union true lrows rrows = lrows ++ rrows
  combine_rows union false lrows rrows = dedup_keep_order (lrows ++ rrows)
  combine_rows intersect_op all lrows rrows = intersect lrows rrows all
  combine_rows except_op all lrows rrows = except lrows rrows all
