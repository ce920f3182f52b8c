-- ===== src/Executor/LockMgr/Grants.antt =====
-- What an attempt tells its caller, and what a release leaves.
use crabgresql.Prelude.{
  ℕ, ◌≡◌, ◌≢◌, refl, inl, inr, true, false, ◌&&◌, List, [], ◌∷◌, Option, none, some, All, arith,
  ◌==◌, length, head?, Bool-cases, Option-cases, ==_iff,
}
use crabgresql.Prelude.HashMap.{
  lookup, lookup-insert, has, discard, has-discard, All-lookup, lookup-remove,
}
use crabgresql.Executor.LockMgr.{
  Inner, RowId, RowLock, same_row, same_xid, LockMode, shared, exclusive, is_exclusive, is_shared,
  Acquire, acquired, conflict, conflict_with, with_lock, try_locked, try_acquire_locked,
  retain_without, release_all,
}
use crabgresql.Executor.LockMgr.Locks.{same_row_iff}

-- The row's lock lists the transaction, and it is exclusive where that was asked for.
unfoldable pub Holds : RowId → LockMode → ℕ → Inner → Type 0
Holds row mode my inner =
    (lock : RowLock) × (lookup same_row row inner.locks ≡ some lock)
    × (has my lock.holders ≡ true)
    × (mode ≡ exclusive → lock.mode ≡ exclusive)

-- What an attempt may answer.
unfoldable pub Answers : RowId → LockMode → ℕ → Inner → Option (Acquire × Inner) → Type 0
Answers row mode my inner none = Unit
Answers row mode my inner (some (acquired, after)) = Holds row mode my after
Answers row mode my inner (some (conflict holder, after)) =
    (after ≡ inner) × (holder ≢ my) × Holds row shared holder inner

set-Answers :
    (row : RowId) (lock : RowLock) (mode : LockMode) (my : ℕ) (inner : Inner)
    → has my lock.holders ≡ true
    → (mode ≡ exclusive → lock.mode ≡ exclusive)
    → Answers row mode my inner (some (acquired, with_lock row lock inner))
unfolding Answers Holds with_lock
set-Answers row lock mode my inner mine mode_ok = (
  lock,
  ground (arith, lookup-insert same_row same_row_iff row row lock inner.locks),
  mine,
  mode_ok,
)

has-head : (hs : List ℕ) {h : ℕ} → head? hs ≡ some h → has h hs ≡ true
has-head [] e = absurd cc
has-head (x ∷ xs) {h} e = let same : h ≡ x = cc in ground (arith, same)

conflict-Answers :
    (row : RowId) (lock : RowLock) (mode : LockMode) (my : ℕ) (inner : Inner) (o : Option ℕ)
    → lookup same_row row inner.locks ≡ some lock
    → ((h : ℕ) → o ≡ some h → (has h lock.holders ≡ true) × (h ≢ my))
    → Answers row mode my inner (conflict_with o inner)
unfolding Answers Holds
conflict-Answers row lock mode my inner none held found = tt
conflict-Answers row lock mode my inner (some h) held found =
    let (holds, apart) = found h refl in (refl, apart, (lock, held, holds, λ e. absurd cc))

try_locked-Answers :
    (row : RowId) (lock : RowLock) (mode : LockMode) (my : ℕ) (inner : Inner)
    → lookup same_row row inner.locks ≡ some lock
    → Answers row mode my inner (try_locked row lock mode my inner)
unfolding try_locked Answers Holds
try_locked-Answers row lock mode my inner held = elim (Bool-cases (has my lock.holders)) [
  | inl mine ↦ elim (Bool-cases (is_exclusive mode && is_shared lock.mode)) [
    | inl upgrade ↦ elim (Bool-cases (length lock.holders == 1)) [
      | inl sole ↦ rw mine (rw upgrade (rw sole (set-Answers row _ mode my inner mine λ e. refl)))
      | inr crowd ↦ rw mine (
          rw upgrade (
            rw crowd (
              conflict-Answers row lock mode my inner _ held
                λ h e. others h (has-head (discard my lock.holders) e))))
    ]
    | inr keep ↦ rw mine (rw keep (lock, held, mine, λ e. already e keep))
  ]
  | inr foreign ↦ elim (Bool-cases (is_shared mode && is_shared lock.mode)) [
    | inl share ↦ rw foreign (
        rw share
          (set-Answers row _ mode my inner (ground arith) λ e. absurd (ground (arith, share, e))))
    | inr clash ↦ rw foreign (
        rw clash (
          conflict-Answers row lock mode my inner _ held
            λ h e. (has-head lock.holders e, apart h (has-head lock.holders e) foreign)))
  ]
]
  where
    others :
        (h : ℕ) → has h (discard my lock.holders) ≡ true → (has h lock.holders ≡ true) × (h ≢ my)
    others h e = (
      ground (arith, has-discard h my lock.holders),
      λ same. ground (arith, has-discard h my lock.holders),
    )

    apart : (h : ℕ) → has h lock.holders ≡ true → has my lock.holders ≡ false → h ≢ my
    apart h e f same = ground (arith, e, f, same)

    is_it : (m : LockMode) → is_shared m ≡ false → m ≡ exclusive
    is_it shared h = absurd cc
    is_it exclusive h = refl

    already :
        mode ≡ exclusive
        → (is_exclusive mode && is_shared lock.mode) ≡ false
        → lock.mode ≡ exclusive
    already e k = is_it lock.mode (ground (arith, e, k))

-- An attempt that acquires leaves the transaction among the row's holders, in exclusive mode if it
-- asked for that; one that conflicts changes nothing and names another transaction that holds the row.
pub try_acquire_locked-Answers :
    (row : RowId) (mode : LockMode) (my : ℕ) (inner : Inner)
    → Answers row mode my inner (try_acquire_locked row mode my inner)
unfolding try_acquire_locked Answers Holds
try_acquire_locked-Answers row mode my inner =
    elim (Option-cases (lookup same_row row inner.locks)) [
      | inl free ↦
          rw (try_acquire_locked, free) (set-Answers row _ mode my inner (ground arith) λ e. e)
      | inr (lock, held) ↦
          rw (try_acquire_locked, held) (try_locked-Answers row lock mode my inner held)
    ]

has-head-discard : (my : ℕ) (hs : List ℕ) → has my (discard my hs) ≡ false
has-head-discard my hs = ground (arith, has-discard my my hs)

without :
    (my : ℕ) (locks : List (RowId × RowLock))
    → All (λ e. has my e.1.holders ≡ false) (retain_without my locks)
unfolding retain_without
without my [] = tt
without my ((row, lock) ∷ locks) =
    keep (discard my lock.holders) (has-head-discard my lock.holders) (without my locks)
  where
    keep :
        (hs : List ℕ)
        → has my hs ≡ false
        → All (λ e. has my e.1.holders ≡ false) (retain_without my locks)
        → All
            (λ e. has my e.1.holders ≡ false)
            (elim hs [
              | [] ↦ retain_without my locks
              | h ∷ hs ↦
                  (row, record { mode = lock.mode; holders = h ∷ hs }) ∷ retain_without my locks
            ])
    keep [] d rest = rest
    keep (h ∷ hs) d rest = (d, rest)

-- After its release a transaction is among no row's holders and has no edge in the wait-for
-- graph.
pub release_all-frees :
    (my : ℕ) (inner : Inner)
    → ((row : RowId) (lock : RowLock)
        → lookup same_row row (release_all my inner).1.locks ≡ some lock
        → has my lock.holders ≡ false)
      × (lookup same_xid my (release_all my inner).1.wait_for ≡ none)
unfolding release_all
release_all-frees my inner = (
  (λ row lock h.
      All-lookup same_row (λ e. has my e.1.holders ≡ false) same_row_iff row
        (retain_without my inner.locks) (without my inner.locks) h),
  ground (arith, lookup-remove same_xid ==_iff my my inner.wait_for),
)
