-- ===== src/Cluster/StateMachine.antt =====
-- crates/cluster/src/store.rs: the application of replicated operations to the store in memory.
-- Counters take the maximum, decisions of the commit log are written once. `none` is the panic of
-- `u64_be` on a counter value of fewer than 8 bytes.
pub mod Keys
pub mod Ops
pub mod Logs
use crabgresql.Prelude.{
  ℕ, Bool, true, false, not, ◌&&◌, ◌||◌, List, [], ◌∷◌, Option, none, some, ◌-◌, max, ltb, leb,
  ◌==◌, length, take, if◌then◌else◌,
}
use crabgresql.Bytes.{Bytes, bytes_eq}
use crabgresql.Bytes.BigEndian.{be_bytes, be_value}
use crabgresql.Kv.Key.{next_xid_key, seq_key, clog_prefix}
use crabgresql.Kv.Map
use crabgresql.Kv.Map.{Entries}
use crabgresql.Kv.Store.{WriteOp}
use crabgresql.Mvcc.Clog.{is_terminal}

-- `key[..plen] == prefix[..plen]` without the 4 bytes of the table id.
unfoldable pub is_seq_key : Bytes → Bool
is_seq_key key =
    let prefix = seq_key 0 in
    let plen = length prefix - 4 in
    length key == length prefix && bytes_eq (take plen key) (take plen prefix)

unfoldable pub is_counter_key : Bytes → Bool
is_counter_key key = bytes_eq key next_xid_key || is_seq_key key

unfoldable pub is_clog_key : Bytes → Bool
is_clog_key key =
    leb (length clog_prefix) (length key) && bytes_eq (take (length clog_prefix) key) clog_prefix

-- `read_from_prefix`, which wants 8 bytes at least.
unfoldable pub u64_be : Bytes → Option ℕ
u64_be b = if ltb (length b) 8 then none else some (be_value (take 8 b))

-- `.map(|b| u64_be(&b)).unwrap_or(0)`.
unfoldable pub existing_counter : Option Bytes → Option ℕ
existing_counter none = some 0
existing_counter (some b) = u64_be b

-- `is_some_and(|b| is_terminal(&b))`.
unfoldable pub keeps : Option Bytes → Bool
keeps none = false
keeps (some b) = is_terminal b

-- The merge of a counter.
unfoldable pub put_counter : Bytes → Option ℕ → Option ℕ → Entries → Option Entries
put_counter key none existing kv = none
put_counter key (some incoming) none kv = none
put_counter key (some incoming) (some existing) kv =
    some (Map.insert key (be_bytes 8 (max existing incoming)) kv)

unfoldable pub apply_op : WriteOp → Entries → Option Entries
apply_op (WriteOp.put key value) kv =
    if is_counter_key key
    then put_counter key (u64_be value) (existing_counter (Map.get key kv)) kv
    else if is_clog_key key
    then some (if keeps (Map.get key kv) then kv else Map.insert key value kv)
    else some (Map.insert key value kv)
apply_op (WriteOp.delete key) kv = some (Map.remove key kv)

-- `for op in ops`.
unfoldable pub apply_ops : List WriteOp → Entries → Option Entries
apply_ops [] kv = some kv
apply_ops (op ∷ ops) kv = elim (apply_op op kv) [ none ↦ none | some kv' ↦ apply_ops ops kv' ]

-- An entry of the log; a membership change is openraft's.
pub data Payload (Membership : Type 0) : Type 0 where
  blank : Payload Membership
  normal : List WriteOp → Payload Membership
  membership : Membership → Payload Membership

pub record Entry (LogId Membership : Type 0) : Type 0 where
  pub log_id : LogId
  pub payload : Payload Membership

pub record Machine (LogId Membership : Type 0) : Type 0 where
  pub kv : Entries
  pub last_applied : Option LogId
  pub last_membership : Option (LogId × Membership)

module _ {LogId Membership : Type 0} where
  unfoldable pub apply_payload :
      LogId → Payload Membership → Machine LogId Membership → Option (Machine LogId Membership)
  apply_payload log_id blank m = some m
  apply_payload log_id (normal ops) m = elim (apply_ops ops m.kv) [
    | none ↦ none
    | some kv' ↦ some (record m { kv = kv' })
  ]
  apply_payload log_id (membership mem) m = some (record m { last_membership = some (log_id, mem) })

  unfoldable pub apply_entry :
      Entry LogId Membership → Machine LogId Membership → Option (Machine LogId Membership)
  apply_entry entry m =
      apply_payload entry.log_id entry.payload (record m { last_applied = some entry.log_id })

  unfoldable pub apply :
      List (Entry LogId Membership) → Machine LogId Membership → Option (Machine LogId Membership)
  apply [] m = some m
  apply (entry ∷ entries) m = elim (apply_entry entry m) [
    | none ↦ none
    | some m' ↦ apply entries m'
  ]
