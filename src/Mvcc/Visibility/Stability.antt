-- ===== src/Mvcc/Visibility/Stability.antt =====
-- Repeatable reads: a snapshot under later states of the log.
use crabgresql.Prelude.{ℕ, ◌≡◌, refl, false, Option, Result, Bool-cases, inl, inr}
use crabgresql.Kv.Error.{KvError}
use crabgresql.Mvcc.Clog.{XidStatus}
use crabgresql.Mvcc.Visibility.{
  Snapshot, is_running, committed_visible, not_deleted, satisfies_mvcc,
}

module _ (snapshot : Snapshot) (own : Option ℕ) (before after : ℕ → Result KvError XidStatus) where
  pub committed_visible_stable :
      ((xid : ℕ) → is_running snapshot xid ≡ false → before xid ≡ after xid)
      → (xid : ℕ)
      → committed_visible xid snapshot own before ≡ committed_visible xid snapshot own after
  unfolding committed_visible
  committed_visible_stable same xid = elim (Bool-cases (is_running snapshot xid)) [
    | inl runs ↦ rw runs refl
    | inr done ↦ rw (same xid done) refl
  ]

  -- Two states of the log that agree on every transaction that was not running at the snapshot
  -- give the same verdict, an error included, on every version.
  pub satisfies_mvcc_stable :
      ((xid : ℕ) → is_running snapshot xid ≡ false → before xid ≡ after xid)
      → (xmin xmax : ℕ)
      → satisfies_mvcc xmin xmax snapshot own before ≡ satisfies_mvcc xmin xmax snapshot own after
  unfolding satisfies_mvcc not_deleted
  satisfies_mvcc_stable same xmin xmax =
      rw (committed_visible_stable same xmin, committed_visible_stable same xmax) refl
