-- ===== src/Executor/Gtm.antt =====
-- crates/executor/src/gtm.rs: range 0's registry of global transactions, with ids from 2 ^ 63 on. Its
-- mutex makes each method one step.
pub mod Base
use crabgresql.Prelude.{ℕ, ◌+◌, ◌^◌, List, [], ◌∷◌, Option, Result, ok, ◌>>=◌, max}
use crabgresql.Bytes.BigEndian.{be_bytes}
use crabgresql.Kv.Error.{KvError}
use crabgresql.Kv.Key.{meta_next_global_xid_key}
use crabgresql.Kv.Store.{WriteOp, put, Kv}
use crabgresql.Mvcc.Visibility.{Snapshot}
use crabgresql.Executor.ProcArray.{set_insert, set_remove, counter_or, first_or, next_after}

abbrev pub global_xid_base : ℕ
global_xid_base = 2 ^ 63

pub record Inner : Type 0 where
  pub next_global : ℕ
  pub running : List ℕ

unfoldable pub begin_global : Inner → ℕ × Inner
begin_global g = (
  g.next_global,
  record { next_global = next_after g.next_global; running = set_insert g.next_global g.running },
)

unfoldable pub next_global_xid_op : Inner → WriteOp
next_global_xid_op g = put meta_next_global_xid_key (be_bytes 8 g.next_global)

unfoldable pub global_snapshot : Inner → Snapshot
global_snapshot g = record {
  xmin = first_or g.next_global g.running;
  xmax = g.next_global;
  xip = g.running;
}

unfoldable pub finish_global : ℕ → Inner → Inner
finish_global xid g = record g { running = set_remove xid g.running }

module _ (kv : Kv) where
  unfoldable pub read_next_global : kv.State → Result KvError ℕ
  read_next_global s = do
    v ← kv.get s meta_next_global_xid_key
    next ← counter_or global_xid_base v
    ok (max next global_xid_base)

  unfoldable pub open_store : kv.State → Result KvError Inner
  unfolding read_next_global
  open_store s = do next ← read_next_global s; ok (record { next_global = next; running = [] })

  unfoldable pub reseed_from_applied : kv.State → Inner → Result KvError Inner
  reseed_from_applied s g = do
    v ← kv.get s meta_next_global_xid_key
    applied ← counter_or global_xid_base v
    ok (record g { next_global = max g.next_global (max applied global_xid_base) })
