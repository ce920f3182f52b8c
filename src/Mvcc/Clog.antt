-- ===== src/Mvcc/Clog.antt =====
-- crates/mvcc/src/clog.rs: the commit-status log, a status under a key for each transaction id.
pub mod Statuses
pub mod Writes
use crabgresql.Prelude.{
  ℕ, zero, suc, Bool, true, false, ◌||◌, List, [], ◌∷◌, Option, some, none, Result, ok, err, ◌>>=◌,
  ltb, ◌==◌, length, take, drop, if◌then◌else◌,
}
use crabgresql.Bytes.{Bytes}
use crabgresql.Bytes.BigEndian.{be_bytes, be_value}
use crabgresql.Kv.Error.{KvError, corrupt_row}
use crabgresql.Kv.Key.{clog_key}
use crabgresql.Kv.Store.{WriteOp, put, Kv}

pub data XidStatus : Type 0 where
  in_progress committed aborted : XidStatus
  prepared : ℕ → XidStatus

abbrev pub s_in_progress : ℕ
s_in_progress = 0

abbrev pub s_committed : ℕ
s_committed = 1

abbrev pub s_aborted : ℕ
s_aborted = 2

abbrev pub s_prepared : ℕ
s_prepared = 3

-- `value.get(1..9)` as a global xid, from the bytes behind the status byte.
prepared_of : Bytes → Result KvError XidStatus
prepared_of rest =
    if ltb (length rest) 8
    then err (corrupt_row "prepared clog missing global xid" [])
    else ok (prepared (be_value (take 8 rest)))

unfoldable pub decode : Bytes → Result KvError XidStatus
unfolding prepared_of
decode [] = ok in_progress
decode (s ∷ rest) =
    if s == s_in_progress
    then ok in_progress
    else if s == s_committed
    then ok committed
    else if s == s_aborted
    then ok aborted
    else if s == s_prepared
    then prepared_of rest
    else err (corrupt_row "bad clog status byte" [])

-- `unwrap_or_default`.
abbrev pub or_empty : Option Bytes → Bytes
or_empty none = []
or_empty (some v) = v

unfoldable pub get : (kv : Kv) → kv.State → ℕ → Result KvError XidStatus
get kv s xid = do v ← kv.get s (clog_key xid); decode (or_empty v)

unfoldable pub status_bytes : XidStatus → Bytes
status_bytes in_progress = s_in_progress ∷ []
status_bytes committed = s_committed ∷ []
status_bytes aborted = s_aborted ∷ []
status_bytes (prepared g) = s_prepared ∷ be_bytes 8 g

unfoldable pub put_op : ℕ → XidStatus → WriteOp
put_op xid status = put (clog_key xid) (status_bytes status)

unfoldable pub is_terminal : Bytes → Bool
is_terminal [] = false
is_terminal (s ∷ rest) = s == s_committed || s == s_aborted
