-- ===== src/Executor/Seq.antt =====
-- crates/executor/src/seq.rs and `read_seq_kv` of exec.rs: the allocation of rowids. The mutex makes
-- each method one step; `next + count` wraps at 64 bits, as in the default release profile.
pub mod Disjoint
use crabgresql.Prelude.{
  ℕ, ◌+◌, ◌%◌, ◌^◌, ◌==◌, Bool, List, [], ◌∷◌, Option, none, some, Result, ok, ◌>>=◌,
}
use crabgresql.Prelude.HashMap.{lookup, insert}
use crabgresql.Bytes.BigEndian.{be_bytes}
use crabgresql.Kv.Error.{KvError}
use crabgresql.Kv.Key.{seq_key}
use crabgresql.Kv.Store.{WriteOp, put, Kv}
use crabgresql.Executor.ProcArray.{PersistMode, durable, replicated, counter_or}

-- The cached next rowid of each table.
abbrev pub Cache : Type 0
Cache = List (ℕ × ℕ)

abbrev pub same_table : ℕ → ℕ → Bool
same_table a b = a == b

unfoldable pub seq_op : ℕ → ℕ → WriteOp
seq_op table next = put (seq_key table) (be_bytes 8 next)

abbrev pub empty : Cache
empty = []

unfoldable pub reseed_from_applied : Cache → Cache
reseed_from_applied cache = []

module _ (kv : Kv) where
  unfoldable pub read_seq_kv : kv.State → ℕ → Result KvError ℕ
  read_seq_kv s table = do v ← kv.get s (seq_key table); counter_or 1 v

  -- The cached value, or the one in the store.
  unfoldable pub cached_or : kv.State → ℕ → Option ℕ → Result KvError ℕ
  cached_or s table (some n) = ok n
  cached_or s table none = read_seq_kv s table

  -- What the mode does with the operation.
  unfoldable pub persist :
      PersistMode → WriteOp → kv.State → Result KvError (Option WriteOp × kv.State)
  persist durable op s = do s' ← kv.write_batch s (op ∷ []); ok (none, s')
  persist replicated op s = ok (some op, s)

  unfoldable pub alloc :
      PersistMode
      → kv.State
      → Cache
      → ℕ
      → ℕ
      → Result KvError (ℕ × Option WriteOp × Cache × kv.State)
  alloc mode s cache table count = do
    next ← cached_or s table (lookup same_table table cache)
    let new_next = (next + count) % 2 ^ 64
    (folded, s') ← persist mode (seq_op table new_next) s
    ok (next, folded, insert same_table table new_next cache, s')
