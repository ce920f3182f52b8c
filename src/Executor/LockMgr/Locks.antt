-- ===== src/Executor/LockMgr/Locks.antt =====
-- The well-formedness of row locks under attempts and releases.
use crabgresql.Prelude.{
  ℕ, ◌≡◌, ◌≢◌, ◌≤◌, refl, inl, inr, true, false, ◌&&◌, List, [], ◌∷◌, Option, some, All, arith,
  ◌==◌, length, head?, Bool-cases, Option-cases, ◌↔◌,
}
use crabgresql.Prelude.HashMap.{
  lookup, has, discard, Distinct, All-lookup, All-insert, discard-Distinct,
}
use crabgresql.Executor.LockMgr.{
  Inner, RowId, RowLock, same_row, LockMode, exclusive, is_exclusive, is_shared, Acquire, acquired,
  conflict, conflict_with, with_lock, try_locked, try_acquire_locked, retain_without,
}

abbrev pub IsLock : RowLock → Type 0
IsLock lock =
    (lock.holders ≢ []) × Distinct lock.holders × (lock.mode ≡ exclusive → length lock.holders ≡ 1)

abbrev pub AreLocks : List (RowId × RowLock) → Type 0
AreLocks = All (λ e. IsLock e.1)

pub same_row_iff : (a b : RowId) → (same_row a b ≡ true) ↔ (a ≡ b)
same_row_iff (t, r) (u, s) = ground arith

pub lookup-IsLock :
    (row : RowId) (locks : List (RowId × RowLock)) {lock : RowLock}
    → AreLocks locks
    → lookup same_row row locks ≡ some lock
    → IsLock lock
lookup-IsLock row locks all h = All-lookup same_row (λ e. IsLock e.1) same_row_iff row locks all h

-- A holder besides `my` exists where a lock has more than one.
other_holder :
    (my : ℕ) (hs : List ℕ)
    → Distinct hs
    → hs ≢ []
    → (length hs == 1) ≡ false
    → (h : ℕ) × (head? (discard my hs) ≡ some h)
other_holder my [] d n l = absurd (n refl)
other_holder my (x ∷ []) d n l = absurd (ground arith)
other_holder my (x ∷ y ∷ zs) d n l = elim (Bool-cases (my == x)) [
  | inl same ↦ (y, ground (arith, same, d.0))
  | inr apart ↦ (x, ground (arith, apart))
]

-- An attempt on a valid table of locks does not panic, and leaves a valid one.
unfoldable pub Succeeds : Inner → Option (Acquire × Inner) → Type 0
Succeeds before r =
    (a : Acquire) × (inner : Inner) × (r ≡ some (a, inner))
    × AreLocks inner.locks
    × (inner.wait_for ≡ before.wait_for)

set_lock :
    (row : RowId) (lock : RowLock) (inner : Inner)
    → AreLocks inner.locks
    → IsLock lock
    → Succeeds inner (some (acquired, with_lock row lock inner))
unfolding Succeeds with_lock
set_lock row lock inner all good = (
  acquired,
  with_lock row lock inner,
  refl,
  All-insert same_row (λ e. IsLock e.1) row lock inner.locks good all,
  refl,
)

first_holder : (hs : List ℕ) → hs ≢ [] → (h : ℕ) × (head? hs ≡ some h)
first_holder [] n = absurd (n refl)
first_holder (h ∷ hs) n = (h, refl)

conflicts :
    (o : Option ℕ) (inner : Inner) {h : ℕ}
    → o ≡ some h
    → AreLocks inner.locks
    → Succeeds inner (conflict_with o inner)
unfolding Succeeds
conflicts o inner {h} e all = rw e (conflict h, inner, refl, all, refl)

try_locked-Succeeds :
    (row : RowId) (lock : RowLock) (mode : LockMode) (my : ℕ) (inner : Inner)
    → AreLocks inner.locks
    → IsLock lock
    → Succeeds inner (try_locked row lock mode my inner)
unfolding try_locked Succeeds
try_locked-Succeeds row lock mode my inner all (some_holder, distinct, single) =
    elim (Bool-cases (has my lock.holders)) [
      | inl mine ↦ elim (Bool-cases (is_exclusive mode && is_shared lock.mode)) [
        | inl upgrade ↦ elim (Bool-cases (length lock.holders == 1)) [
          | inl sole ↦ rw mine (
              rw upgrade
                (rw sole (set_lock row _ inner all (some_holder, distinct, λ e. ground arith))))
          | inr crowd ↦
              let (h, other) = other_holder my lock.holders distinct some_holder crowd in
              rw mine (rw upgrade (rw crowd (conflicts _ inner other all)))
        ]
        | inr keep ↦ rw mine (rw keep (acquired, inner, refl, all, refl))
      ]
      | inr foreign ↦ elim (Bool-cases (is_shared mode && is_shared lock.mode)) [
        | inl share ↦ rw foreign (
            rw share (
              set_lock row _ inner all
                ((λ e. absurd cc), (foreign, distinct), λ e. absurd (ground (arith, share, e)))))
        | inr clash ↦
            let (h, first) = first_holder lock.holders some_holder in
            rw foreign (rw clash (conflicts _ inner first all))
      ]
    ]

pub try_acquire_locked-Succeeds :
    (row : RowId) (mode : LockMode) (my : ℕ) (inner : Inner)
    → AreLocks inner.locks
    → Succeeds inner (try_acquire_locked row mode my inner)
unfolding try_acquire_locked
try_acquire_locked-Succeeds row mode my inner all =
    elim (Option-cases (lookup same_row row inner.locks)) [
      | inl free ↦
          rw (try_acquire_locked, free)
            (set_lock row _ inner all ((λ e. absurd cc), (refl, tt), λ e. refl))
      | inr (lock, held) ↦
          rw (try_acquire_locked, held)
            (try_locked-Succeeds row lock mode my inner all
              (lookup-IsLock row inner.locks all held))
    ]

length-discard : (x : ℕ) (hs : List ℕ) → length (discard x hs) ≤ length hs
length-discard x [] = omega arith
length-discard x (h ∷ hs) = ground (arith, length-discard x hs)

-- Releasing keeps the locks valid: those without holders go.
pub retain_without-AreLocks :
    (my : ℕ) (locks : List (RowId × RowLock)) → AreLocks locks → AreLocks (retain_without my locks)
unfolding retain_without
retain_without-AreLocks my [] all = tt
retain_without-AreLocks my ((row, lock) ∷ locks) (good, all) =
    keep (discard my lock.holders) (discard-Distinct my lock.holders good.1)
      (length-discard my lock.holders) (retain_without-AreLocks my locks all)
  where
    keep :
        (hs : List ℕ)
        → Distinct hs
        → length hs ≤ length lock.holders
        → AreLocks (retain_without my locks)
        → AreLocks (elim hs [
          | [] ↦ retain_without my locks
          | h ∷ hs ↦ (row, record { mode = lock.mode; holders = h ∷ hs }) ∷ retain_without my locks
        ])
    keep [] d l rest = rest
    keep (h ∷ hs) d l rest = (((λ e. absurd cc), d, λ e. ground (arith, good.2 e)), rest)
