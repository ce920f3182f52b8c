-- ===== src/Tests/Locks.antt =====
-- Row locks and the wait-for graph at concrete inputs.
use crabgresql.Prelude.{ℕ, ◌≡◌, refl, false, [], ◌∷◌, none, some, length}
use crabgresql.Prelude.HashMap.{lookup, has, insert, remove}
use crabgresql.Executor.LockMgr.{
  Inner, RowId, RowLock, same_row, same_xid, LockMode, exclusive, shared, Edges, Round, check_cycle,
  try_acquire_locked, acquire_round, release_all, reacquire_exclusive, with_lock, try_locked,
}
use crabgresql.Executor.LockMgr.Cycles.{Verdict, check_cycle_exact}
use crabgresql.Executor.LockMgr.Acyclic.{IsAcyclic}
use crabgresql.Executor.LockMgr.Exclusion.{Reachable, locks_safe}
use crabgresql.Executor.LockMgr.Exclusion.Reachable.{start, round, recover}
use crabgresql.Executor.LockMgr.Grants.{Answers, try_acquire_locked-Answers, release_all-frees}

-- Transaction 10 holds row (1, 1) exclusively.
abbrev held : Inner
held = record {
  locks = ((1, 1), record { mode = exclusive; holders = 10 ∷ [] }) ∷ [];
  waiters = [];
  wait_for = [];
}

-- 11 waits for 12, which waits for 10.
abbrev chain : Edges
chain = (11, 12) ∷ (12, 10) ∷ []

held-Reachable : Reachable held
unfolding acquire_round try_acquire_locked try_locked reacquire_exclusive with_lock lookup insert
    remove
held-Reachable =
    round (1, 1) exclusive 10 0 (recover (1, 1) 10 start (λ lock found. absurd cc)) refl

locks_safe_example :
    ((row : RowId) (lock : RowLock)
      → lookup same_row row held.locks ≡ some lock
      → lock.mode ≡ exclusive
      → length lock.holders ≡ 1)
    × IsAcyclic held.wait_for
    × ((row : RowId) (mode : LockMode) (my notify : ℕ)
        → (r : Round) × (inner' : Inner) × (acquire_round row mode my notify held
            ≡ some (r, inner')))
locks_safe_example = locks_safe held-Reachable

check_cycle_exact_example : Verdict chain 10 11 (check_cycle chain 11 10)
check_cycle_exact_example = check_cycle_exact chain 10 11

try_acquire_locked-Answers_example :
    Answers (1, 1) shared 11 held (try_acquire_locked (1, 1) shared 11 held)
try_acquire_locked-Answers_example = try_acquire_locked-Answers (1, 1) shared 11 held

release_all-frees_example :
    ((row : RowId) (lock : RowLock)
      → lookup same_row row (release_all 10 held).1.locks ≡ some lock
      → has 10 lock.holders ≡ false)
    × (lookup same_xid 10 (release_all 10 held).1.wait_for ≡ none)
release_all-frees_example = release_all-frees 10 held
