-- ===== src/Executor/Status/Atomic.antt =====
-- The visibility of transactions over several ranges.
use crabgresql.Prelude.{
  ℕ, ◌≡◌, refl, false, not, Option, Result, ok, arith, Bool-cases, inl, inr, ◌↔◌, ◌>>=◌,
}
use crabgresql.Kv.Error.{KvError}
use crabgresql.Kv.Store.{Kv}
use crabgresql.Mvcc.Clog
use crabgresql.Mvcc.Clog.{XidStatus, in_progress, prepared, committed, aborted}
use crabgresql.Mvcc.Visibility.{Snapshot, is_running}
use crabgresql.Executor.Status.{snapshot_can_see, resolve, global_status}

-- The executor's own test of a snapshot is the negation of the visibility test's.
pub snapshot_can_see-is_running :
    (snapshot : Snapshot) (xid : ℕ) → snapshot_can_see snapshot xid ≡ not (is_running snapshot xid)
unfolding snapshot_can_see is_running
snapshot_can_see-is_running snapshot xid = ground arith

module _ (kv : Kv) (global : kv.State) (gsnap : Snapshot) where
  global_status-prepared :
      (local_kv : Kv) (local : local_kv.State) (xid g : ℕ)
      → Clog.get local_kv local xid ≡ ok (prepared g)
      → global_status local_kv kv local global gsnap xid ≡ resolve kv global gsnap (prepared g)
  unfolding global_status
  global_status-prepared local_kv local xid g h = rw h refl

-- A marker resolves to a commit exactly where the reader's global snapshot has the transaction
-- settled and range 0's log has its commit.
pub global_status_committed_iff :
    (local_kv kv : Kv) (local : local_kv.State) (global : kv.State) (gsnap : Snapshot) (xid g : ℕ)
    → Clog.get local_kv local xid ≡ ok (prepared g)
    → (global_status local_kv kv local global gsnap xid ≡ ok committed)
      ↔ ((is_running gsnap g ≡ false) × (Clog.get kv global g ≡ ok committed))
unfolding resolve is_running
global_status_committed_iff local_kv kv local global gsnap xid g h =
    rw (global_status-prepared kv global gsnap local_kv local xid g h)
      (elim (Bool-cases (is_running gsnap g)) [
        | inl runs ↦ ((λ e. absurd (ground arith)), λ (a, b). absurd (ground arith))
        | inr done ↦ ((λ e. (done, ground arith)), λ (a, b). ground arith)
      ])

-- The outcome of a global transaction for a reader: range 0's log has its commit, and the reader's
-- global snapshot has it settled.
abbrev pub IsDecided : (kv : Kv) → kv.State → Snapshot → ℕ → Type 0
IsDecided kv global gsnap g = (is_running gsnap g ≡ false) × (Clog.get kv global g ≡ ok committed)

module _ (local_kv kv : Kv) (local : local_kv.State) (global : kv.State) (gsnap snap : Snapshot)
    (own : Option ℕ) (xid g : ℕ) where
  -- The status that the visibility test of the range asks.
  abbrev status_of : ℕ → Result KvError XidStatus
  status_of = global_status local_kv kv local global gsnap
