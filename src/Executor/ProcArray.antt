-- ===== src/Executor/ProcArray.antt =====
-- crates/executor/src/procarray.rs: the registry of running transactions. Its mutex makes each method
-- one step; the store that `Arc<dyn Kv>` shares is passed through. `BTreeSet<u64>` is the list of its members in order.
pub mod Snapshots
pub mod Restart
use crabgresql.Prelude.{
  ℕ, zero, suc, ◌+◌, ◌%◌, ◌^◌, Bool, true, false, List, [], ◌∷◌, Option, none, some, Result, ok,
  err, ◌>>=◌, max, ltb, ◌==◌, length, take, if◌then◌else◌, filter, not,
}
use crabgresql.Bytes.{Bytes}
use crabgresql.Bytes.BigEndian.{be_bytes, be_value}
use crabgresql.Kv.Error.{KvError, corrupt_row}
use crabgresql.Kv.Key.{next_xid_key}
use crabgresql.Kv.Store.{WriteOp, put, Kv}
use crabgresql.Mvcc.Visibility.{Snapshot}

pub data PersistMode : Type 0 where
  durable replicated : PersistMode

-- `BTreeSet::insert` and `remove`.
unfoldable pub set_insert : ℕ → List ℕ → List ℕ
set_insert x [] = x ∷ []
set_insert x (y ∷ ys) =
    if ltb x y then x ∷ y ∷ ys else if x == y then y ∷ ys else y ∷ set_insert x ys

unfoldable pub set_remove : ℕ → List ℕ → List ℕ
set_remove x [] = []
set_remove x (y ∷ ys) = if x == y then ys else y ∷ set_remove x ys

pub record Inner : Type 0 where
  pub next_xid : ℕ
  pub running : List ℕ

-- The counter's value in the store, `start` where it is missing.
unfoldable pub counter_or : ℕ → Option Bytes → Result KvError ℕ
counter_or start none = ok start
counter_or start (some b) =
    if ltb (length b) 8 then err (corrupt_row "not u64" []) else ok (be_value (take 8 b))

-- `xip.first().copied().unwrap_or(xmax)`.
abbrev pub first_or : ℕ → List ℕ → ℕ
first_or d [] = d
first_or d (x ∷ xs) = x

unfoldable pub snapshot : Inner → Snapshot
snapshot g = record { xmin = first_or g.next_xid g.running; xmax = g.next_xid; xip = g.running }

unfoldable pub finish : ℕ → Inner → Inner
finish xid g = record g { running = set_remove xid g.running }

unfoldable pub next_xid_op : Inner → WriteOp
next_xid_op g = put next_xid_key (be_bytes 8 g.next_xid)

-- `xid + 1` of a `u64`: it wraps, as in the default release profile; with overflow checks it panics.
unfoldable pub next_after : ℕ → ℕ
next_after xid = (xid + 1) % 2 ^ 64

-- The registration of the next id.
unfoldable pub register : Inner → ℕ × Inner
register g = (
  g.next_xid,
  record { next_xid = next_after g.next_xid; running = set_insert g.next_xid g.running },
)

module _ (kv : Kv) where
  unfoldable pub open_store : kv.State → Result KvError Inner
  open_store s = do
    v ← kv.get s next_xid_key
    next ← counter_or 1 v
    ok (record { next_xid = max next 1; running = [] })

  -- `begin_write`, with the store after it.
  unfoldable pub begin_write :
      PersistMode → kv.State → Inner → Result KvError (ℕ × Inner × kv.State)
  begin_write durable s g = do
    s' ← kv.write_batch s (put next_xid_key (be_bytes 8 (next_after g.next_xid)) ∷ [])
    ok ((register g).0, (register g).1, s')
  begin_write replicated s g = ok ((register g).0, (register g).1, s)

  unfoldable pub reseed_from_applied : kv.State → Inner → Result KvError Inner
  reseed_from_applied s g = do
    v ← kv.get s next_xid_key
    applied ← counter_or 1 v
    ok (record g { next_xid = max g.next_xid (max applied 1) })
