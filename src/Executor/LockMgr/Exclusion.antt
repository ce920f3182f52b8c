-- ===== src/Executor/LockMgr/Exclusion.antt =====
-- The reachable states of the lock manager.
use crabgresql.Prelude.{
  ℕ, ◌≡◌, refl, subst, inl, inr, List, [], ◌∷◌, some, length, arith, Option-cases,
}
use crabgresql.Prelude.HashMap.{lookup, insert, add, All-insert}
use crabgresql.Executor.LockMgr.{
  Inner, RowId, RowLock, same_row, LockMode, exclusive, Acquire, acquired, conflict, Round,
  acquire_round, after_attempt, release_all, reacquire_exclusive, with_lock, new,
}
use crabgresql.Executor.LockMgr.Cycles.{check_cycle_exact, Verdict}
use crabgresql.Executor.LockMgr.Acyclic.{
  IsAcyclic, after_attempt-IsAcyclic, remove-IsAcyclic, empty-IsAcyclic,
}
use crabgresql.Executor.LockMgr.Locks.{
  IsLock, AreLocks, Succeeds, try_acquire_locked-Succeeds, retain_without-AreLocks, lookup-IsLock,
}

unfoldable pub IsValid : Inner → Type 0
IsValid inner = AreLocks inner.locks × IsAcyclic inner.wait_for

-- No transaction but this one holds the row.
abbrev pub IsUnclaimed : RowId → ℕ → Inner → Type 0
IsUnclaimed row my inner =
    (lock : RowLock) → lookup same_row row inner.locks ≡ some lock → lock.holders ≡ my ∷ []

-- The states that rounds of `acquire`, calls of `release_all` and calls of `reacquire_exclusive` lead to
-- from an empty manager. The last come from the sweep of a new leader, on rows that no live transaction
-- holds: such a row is free, or the sweep has taken it for the same transaction before.
pub data Reachable : Inner → Type 0 where
  start : Reachable new
  round :
      {inner inner' : Inner} {r : Round} (row : RowId) (mode : LockMode) (my notify : ℕ)
      → Reachable inner
      → acquire_round row mode my notify inner ≡ some (r, inner')
      → Reachable inner'
  release : {inner : Inner} (my : ℕ) → Reachable inner → Reachable (release_all my inner).1
  recover :
      {inner : Inner} (row : RowId) (my : ℕ)
      → Reachable inner
      → IsUnclaimed row my inner
      → Reachable (reacquire_exclusive row my inner)

after_attempt-some :
    (my notify : ℕ) (a : Acquire) (inner : Inner)
    → (r : Round) × (inner' : Inner) × (after_attempt my notify (some (a, inner))
        ≡ some (r, inner'))
      × (inner'.locks ≡ inner.locks)
unfolding Verdict
after_attempt-some my notify acquired inner = (_, _, refl, refl)
after_attempt-some my notify (conflict holder) inner =
    elim (check_cycle_exact inner.wait_for my holder) [
      | inl (verdict, reach) ↦ rw verdict (_, _, refl, refl)
      | inr (verdict, free) ↦ rw verdict (_, _, refl, refl)
    ]

-- A round on a valid state ends, without a panic, in a valid state.
round-IsValid :
    (row : RowId) (mode : LockMode) (my notify : ℕ) (inner : Inner)
    → IsValid inner
    → (r : Round) × (inner' : Inner) × (acquire_round row mode my notify inner ≡ some (r, inner'))
      × IsValid inner'
unfolding IsValid acquire_round Succeeds
round-IsValid row mode my notify inner (locks, acyclic) =
    let (a, mid, attempt, mid_locks, mid_edges) =
      try_acquire_locked-Succeeds row mode my inner locks in
    let (r, inner', after, same) = after_attempt-some my notify a mid in
    let mid_acyclic : IsAcyclic mid.wait_for = rw mid_edges acyclic in
    (
      r,
      inner',
      rw attempt after,
      (rw same mid_locks, after_attempt-IsAcyclic my notify a mid mid_acyclic after),
    )

release-IsValid : (my : ℕ) (inner : Inner) → IsValid inner → IsValid (release_all my inner).1
unfolding IsValid release_all
release-IsValid my inner (locks, acyclic) =
    (retain_without-AreLocks my inner.locks locks, remove-IsAcyclic inner.wait_for my acyclic)

-- An exclusive lock of one transaction.
sole : ℕ → RowLock
sole my = record { mode = exclusive; holders = my ∷ [] }

add-sole : (my : ℕ) (hs : List ℕ) → hs ≡ my ∷ [] → add my hs ≡ my ∷ []
add-sole my hs e = rw e (ground arith)

insert-sole :
    (row : RowId) (my : ℕ) (locks : List (RowId × RowLock))
    → AreLocks locks
    → AreLocks (insert same_row row (sole my) locks)
unfolding sole
insert-sole row my locks all =
    All-insert same_row (λ e. IsLock e.1) row (sole my) locks
      ((λ e. absurd cc), (refl, tt), λ e. refl) all

recover-IsValid :
    (row : RowId) (my : ℕ) (inner : Inner)
    → IsValid inner
    → IsUnclaimed row my inner
    → IsValid (reacquire_exclusive row my inner)
unfolding IsValid reacquire_exclusive with_lock sole
recover-IsValid row my inner (locks, acyclic) free =
    elim (Option-cases (lookup same_row row inner.locks)) [
      | inl none_held ↦
          rw (reacquire_exclusive, none_held) (insert-sole row my inner.locks locks, acyclic)
      | inr (lock, held) ↦
          rw (reacquire_exclusive, held, add-sole my lock.holders (free lock held))
            (insert-sole row my inner.locks locks, acyclic)
    ]

pub Reachable-IsValid : {inner : Inner} → Reachable inner → IsValid inner
unfolding IsValid
Reachable-IsValid start = (tt, empty-IsAcyclic)
Reachable-IsValid (round {inner} {inner'} {r} row mode my notify past h) =
    let (r', after, h', valid) = round-IsValid row mode my notify inner (Reachable-IsValid past) in
    let same : after ≡ inner' = cc in subst IsValid same valid
Reachable-IsValid (release {inner} my past) = release-IsValid my inner (Reachable-IsValid past)
Reachable-IsValid (recover {inner} row my past free) =
    recover-IsValid row my inner (Reachable-IsValid past) free

-- In every state that rounds of `acquire`, calls of `release_all`, and calls of `reacquire_exclusive` on
-- rows that no other transaction holds lead to from an empty manager, a row's exclusive lock has one
-- holder, no path of recorded wait-for edges, of which a transaction has one at most, leads back to
-- its start, and every further round ends without a panic. Waits for a co-holder that is not the
-- recorded one are no edges.
pub locks_safe :
    {inner : Inner}
    → Reachable inner
    → ((row : RowId) (lock : RowLock)
        → lookup same_row row inner.locks ≡ some lock
        → lock.mode ≡ exclusive
        → length lock.holders ≡ 1)
      × IsAcyclic inner.wait_for
      × ((row : RowId) (mode : LockMode) (my notify : ℕ)
          → (r : Round) × (inner' : Inner) × (acquire_round row mode my notify inner
              ≡ some (r, inner')))
unfolding IsValid
locks_safe {inner} past =
    let (locks, acyclic) = Reachable-IsValid past in
    (
      (λ row lock held excl. (lookup-IsLock row inner.locks locks held).2 excl),
      acyclic,
      λ row mode my notify.
          let (r, inner', h, valid) = round-IsValid row mode my notify inner (locks, acyclic) in
          (r, inner', h),
    )
