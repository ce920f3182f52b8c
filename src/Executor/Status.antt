-- ===== src/Executor/Status.antt =====
-- crates/executor/src/exec.rs: the status of a transaction whose decision another range may hold, and
-- the choice of a row's visible version. The `debug_assert!` at the end of `find_visible_one`, that at
-- most one version is live, is not modelled.
pub mod Atomic
pub mod Live
use crabgresql.Prelude.{
  ℕ, Bool, true, false, not, ◌&&◌, ◌||◌, List, [], ◌∷◌, Option, none, some, Result, ok, ◌>>=◌, ltb,
  leb, if◌then◌else◌,
}
use crabgresql.Kv.Error.{KvError}
use crabgresql.Kv.Store.{Kv}
use crabgresql.Mvcc.Clog
use crabgresql.Mvcc.Clog.{XidStatus, in_progress, prepared, committed, aborted}
use crabgresql.Mvcc.Visibility.{Snapshot, contains, satisfies_mvcc}

unfoldable pub snapshot_can_see : Snapshot → ℕ → Bool
snapshot_can_see snapshot xid = ltb xid snapshot.xmax && not (contains snapshot.xip xid)

-- The marker's global transaction is resolved by range 0's log, `global`.
unfoldable pub resolve : (kv : Kv) → kv.State → Snapshot → XidStatus → Result KvError XidStatus
resolve kv global gsnap in_progress = ok in_progress
resolve kv global gsnap committed = ok committed
resolve kv global gsnap aborted = ok aborted
resolve kv global gsnap (prepared g) =
    if leb gsnap.xmax g || contains gsnap.xip g then ok in_progress else Clog.get kv global g

unfoldable pub global_status :
    (local_kv kv : Kv) → local_kv.State → kv.State → Snapshot → ℕ → Result KvError XidStatus
global_status local_kv kv local global gsnap xid = do
  st ← Clog.get local_kv local xid
  resolve kv global gsnap st

module _ {Row : Type 0} where
  -- `visible.is_none_or(|(cur, _)| xmin > cur)`.
  unfoldable pub keep_greatest : ℕ → Row → Option (ℕ × Row) → Option (ℕ × Row)
  keep_greatest xmin row none = some (xmin, row)
  keep_greatest xmin row (some (cur, old)) =
      if ltb cur xmin then some (xmin, row) else some (cur, old)

  -- The loop over the versions, from what was found so far.
  unfoldable pub find_visible_from :
      Snapshot
      → Option ℕ
      → (ℕ → Result KvError XidStatus)
      → List (ℕ × ℕ × Row)
      → Option (ℕ × Row)
      → Result KvError (Option (ℕ × Row))
  find_visible_from snap own status [] visible = ok visible
  find_visible_from snap own status ((xmin, xmax, row) ∷ versions) visible = do
    live ← satisfies_mvcc xmin xmax snap own status
    find_visible_from snap own status versions
        (if live then keep_greatest xmin row visible else visible)

  unfoldable pub find_visible_one :
      Snapshot
      → Option ℕ
      → (ℕ → Result KvError XidStatus)
      → List (ℕ × ℕ × Row)
      → Result KvError (Option (ℕ × Row))
  find_visible_one snap own status versions = find_visible_from snap own status versions none
