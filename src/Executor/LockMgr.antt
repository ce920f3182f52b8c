-- ===== src/Executor/LockMgr.antt =====
-- crates/executor/src/lockmgr.rs: row locks, the wait-for graph, and its check for cycles. A hash set
-- iterates in the order of its list. `none` from an attempt is a panic of `expect`. A `Notify` is a
-- number that stands for it, drawn by the caller; one round of `acquire`'s loop is one step, since
-- the guard is held throughout it, and waiting is the time between two rounds.
pub mod Cycles
pub mod Acyclic
pub mod Locks
pub mod Exclusion
pub mod Grants
use crabgresql.Prelude.{
  ℕ, zero, suc, Bool, true, false, not, ◌&&◌, List, [], ◌∷◌, ◌++◌, map, filter, Option, none, some,
  ◌==◌, length, head?, if◌then◌else◌,
}
use crabgresql.Prelude.HashMap.{lookup, insert, remove, has, add, discard}

pub data LockMode : Type 0 where
  shared exclusive : LockMode

pub data Acquire : Type 0 where
  acquired : Acquire
  conflict : ℕ → Acquire

pub data CycleCheck : Type 0 where
  no_cycle deadlock : CycleCheck

pub record RowLock : Type 0 where
  pub mode : LockMode
  pub holders : List ℕ

-- A table id and a rowid.
abbrev pub RowId : Type 0
RowId = ℕ × ℕ

abbrev pub same_row : RowId → RowId → Bool
same_row a b = a.0 == b.0 && a.1 == b.1

abbrev pub same_xid : ℕ → ℕ → Bool
same_xid a b = a == b

abbrev pub Edges : Type 0
Edges = List (ℕ × ℕ)

pub record Inner : Type 0 where
  pub locks : List (RowId × RowLock)
  pub waiters : List (ℕ × List ℕ)
  pub wait_for : Edges

abbrev pub new : Inner
new = record { locks = []; waiters = []; wait_for = [] }

-- `mode == LockMode::Exclusive` and `mode == LockMode::Shared`.
abbrev pub is_exclusive : LockMode → Bool
is_exclusive exclusive = true
is_exclusive shared = false

abbrev pub is_shared : LockMode → Bool
is_shared mode = not (is_exclusive mode)

unfoldable pub with_lock : RowId → RowLock → Inner → Inner
with_lock row lock inner = record inner { locks = insert same_row row lock inner.locks }

-- A conflict with the holder that `expect` finds.
abbrev pub conflict_with : Option ℕ → Inner → Option (Acquire × Inner)
conflict_with none inner = none
conflict_with (some holder) inner = some (conflict holder, inner)

-- The arm for a row that is locked.
unfoldable pub try_locked : RowId → RowLock → LockMode → ℕ → Inner → Option (Acquire × Inner)
try_locked row lock mode my_xid inner =
    if has my_xid lock.holders
    then (if is_exclusive mode && is_shared lock.mode
        then (if length lock.holders == 1
            then some (acquired, with_lock row (record lock { mode = exclusive }) inner)
            else conflict_with (head? (discard my_xid lock.holders)) inner)
        else some (acquired, inner))
    else if is_shared mode && is_shared lock.mode
    then some (acquired, with_lock row (record lock { holders = add my_xid lock.holders }) inner)
    else conflict_with (head? lock.holders) inner

unfoldable pub try_acquire_locked : RowId → LockMode → ℕ → Inner → Option (Acquire × Inner)
try_acquire_locked row mode my_xid inner = elim (lookup same_row row inner.locks) [
  | none ↦ some (acquired, with_lock row (record { mode = mode; holders = my_xid ∷ [] }) inner)
  | some lock ↦ try_locked row lock mode my_xid inner
]

-- The loop of `check_cycle`; `none` where the fuel ran out.
unfoldable pub check_cycle_from : ℕ → Edges → ℕ → List ℕ → ℕ → Option CycleCheck
check_cycle_from zero wait_for cur seen my_xid = none
check_cycle_from (suc fuel) wait_for cur seen my_xid =
    if cur == my_xid
    then some deadlock
    else if has cur seen
    then some no_cycle
    else elim (lookup same_xid cur wait_for) [
      | none ↦ some no_cycle
      | some next ↦ check_cycle_from fuel wait_for next (cur ∷ seen) my_xid
    ]

unfoldable pub check_cycle : Edges → ℕ → ℕ → Option CycleCheck
check_cycle wait_for holder my_xid =
    check_cycle_from (suc (length wait_for)) wait_for holder [] my_xid

-- What a round of `acquire` ends in.
pub data Round : Type 0 where
  granted deadlocked : Round
  waits : ℕ → Round

-- `waiters.entry(holder).or_default()`.
abbrev pub or_empty : Option (List ℕ) → List ℕ
or_empty none = []
or_empty (some ns) = ns

abbrev pub stop_waiting : ℕ → Inner → Inner
stop_waiting my_xid inner = record inner { wait_for = remove same_xid my_xid inner.wait_for }

abbrev pub start_waiting : ℕ → ℕ → ℕ → Inner → Inner
start_waiting my_xid holder notify inner = record inner {
  wait_for = insert same_xid my_xid holder inner.wait_for;
  waiters =
      insert same_xid holder (or_empty (lookup same_xid holder inner.waiters) ++ notify ∷ [])
        inner.waiters;
}

-- The arm for a conflict, from the verdict on its edge.
abbrev pub on_conflict : ℕ → ℕ → ℕ → Inner → Option CycleCheck → Option (Round × Inner)
on_conflict my_xid holder notify inner none = none
on_conflict my_xid holder notify inner (some deadlock) =
    some (deadlocked, stop_waiting my_xid inner)
on_conflict my_xid holder notify inner (some no_cycle) =
    some (waits notify, start_waiting my_xid holder notify inner)

-- The round, from the outcome of the attempt.
abbrev pub after_attempt : ℕ → ℕ → Option (Acquire × Inner) → Option (Round × Inner)
after_attempt my_xid notify none = none
after_attempt my_xid notify (some (acquired, inner)) = some (granted, stop_waiting my_xid inner)
after_attempt my_xid notify (some (conflict holder, inner)) =
    on_conflict my_xid holder notify inner (check_cycle inner.wait_for holder my_xid)

unfoldable pub acquire_round : RowId → LockMode → ℕ → ℕ → Inner → Option (Round × Inner)
acquire_round row mode my_xid notify inner =
    after_attempt my_xid notify (try_acquire_locked row mode my_xid inner)

-- `retain` with the closure of `release_all`.
unfoldable pub retain_without : ℕ → List (RowId × RowLock) → List (RowId × RowLock)
retain_without my_xid [] = []
retain_without my_xid ((row, lock) ∷ locks) = elim (discard my_xid lock.holders) [
  | [] ↦ retain_without my_xid locks
  | h ∷ hs ↦ (row, record lock { holders = h ∷ hs }) ∷ retain_without my_xid locks
]

-- The woken notifiers come first.
unfoldable pub release_all : ℕ → Inner → List ℕ × Inner
release_all my_xid inner = (
  or_empty (lookup same_xid my_xid inner.waiters),
  record {
    locks = retain_without my_xid inner.locks;
    waiters = remove same_xid my_xid inner.waiters;
    wait_for = remove same_xid my_xid inner.wait_for;
  },
)

-- `entry(row).or_insert_with(...)`, then the mode and the holder.
unfoldable pub reacquire_exclusive : RowId → ℕ → Inner → Inner
reacquire_exclusive row my_xid inner = elim (lookup same_row row inner.locks) [
  | none ↦ with_lock row (record { mode = exclusive; holders = my_xid ∷ [] }) inner
  | some lock ↦ with_lock row (record { mode = exclusive; holders = add my_xid lock.holders }) inner
]
