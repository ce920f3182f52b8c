-- ===== src/Kv/Store.antt =====
-- crates/kv/src/store.rs: the trait `Kv` as a record of operations and of the law that clients rely
-- on. A method that mutates the store returns the new one; an `Err` promises nothing.
use crabgresql.Prelude.{◌≡◌, List, [], ◌∷◌, Option, some, none, Result, ok, if◌then◌else◌}
use crabgresql.Bytes.{Bytes, bytes_eq}
use crabgresql.Kv.Error.{KvError}
use crabgresql.Kv.Map.{Entries}

pub data WriteOp : Type 0 where
  put : Bytes → Bytes → WriteOp
  delete : Bytes → WriteOp

-- The value of key `k` after an operation, from the value before it.
abbrev pub after_op : Bytes → WriteOp → Option Bytes → Option Bytes
after_op k (put j v) old = if bytes_eq k j then some v else old
after_op k (delete j) old = if bytes_eq k j then none else old

-- The value of key `k` after a batch.
unfoldable pub after_batch : Bytes → List WriteOp → Option Bytes → Option Bytes
after_batch k [] old = old
after_batch k (op ∷ ops) old = after_batch k ops (after_op k op old)

-- The trait, and what a batch that returns `Ok` has done.
pub record Kv : Type 1 where
  pub State : Type 0
  pub get : State → Bytes → Result KvError (Option Bytes)
  pub put : State → Bytes → Bytes → Result KvError State
  pub delete : State → Bytes → Result KvError State
  pub scan_prefix : State → Bytes → Result KvError Entries
  pub scan_range : State → Bytes → Bytes → Result KvError Entries
  pub write_batch : State → List WriteOp → Result KvError State
  pub get-write_batch :
      (s : State) (ops : List WriteOp) {s' : State} (k : Bytes) {old new : Option Bytes}
      → write_batch s ops ≡ ok s'
      → get s k ≡ ok old
      → get s' k ≡ ok new
      → new ≡ after_batch k ops old
