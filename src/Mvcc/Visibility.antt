-- ===== src/Mvcc/Visibility.antt =====
-- crates/mvcc/src/visibility.rs: which tuple versions a snapshot sees. `binary_search` on the sorted
-- `xip` is membership. The `debug_assert` on its order is not modelled.
pub mod Verdict
pub mod Stability
use crabgresql.Prelude.{
  ℕ, Bool, true, false, not, ◌||◌, List, [], ◌∷◌, Option, none, some, Result, ok, ◌>>=◌, leb, ◌==◌,
  if◌then◌else◌,
}
use crabgresql.Kv.Error.{KvError}
use crabgresql.Mvcc.Clog.{XidStatus, committed}

abbrev pub invalid_xid : ℕ
invalid_xid = 0

pub record Snapshot : Type 0 where
  pub xmin : ℕ
  pub xmax : ℕ
  pub xip : List ℕ

abbrev pub contains : List ℕ → ℕ → Bool
contains [] x = false
contains (y ∷ ys) x = x == y || contains ys x

unfoldable pub is_running : Snapshot → ℕ → Bool
is_running snapshot xid = leb snapshot.xmax xid || contains snapshot.xip xid

abbrev pub is_own : Option ℕ → ℕ → Bool
is_own none xid = false
is_own (some own) xid = xid == own

abbrev pub is_committed : XidStatus → Bool
is_committed XidStatus.committed = true
is_committed XidStatus.in_progress = false
is_committed XidStatus.aborted = false
is_committed (XidStatus.prepared g) = false

unfoldable pub committed_visible :
    ℕ → Snapshot → Option ℕ → (ℕ → Result KvError XidStatus) → Result KvError Bool
committed_visible xid snapshot own status =
    if is_own own xid
    then ok true
    else if is_running snapshot xid
    then ok false
    else do st ← status xid; ok (is_committed st)

-- The deleter's part of the test, once the creator is visible.
unfoldable pub not_deleted :
    ℕ → Snapshot → Option ℕ → (ℕ → Result KvError XidStatus) → Result KvError Bool
not_deleted xmax snapshot own status =
    if xmax == invalid_xid
    then ok true
    else do deleted ← committed_visible xmax snapshot own status; ok (not deleted)

unfoldable pub satisfies_mvcc :
    ℕ → ℕ → Snapshot → Option ℕ → (ℕ → Result KvError XidStatus) → Result KvError Bool
satisfies_mvcc xmin xmax snapshot own status = do
  created ← committed_visible xmin snapshot own status
  (if created then not_deleted xmax snapshot own status else ok false)
