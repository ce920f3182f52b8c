-- ===== src/Cluster/StateMachine/Ops.antt =====
-- What an operation of the log does to the values under the keys.
use crabgresql.Prelude.{
  ℕ, ◌≡◌, sym, subst, inl, inr, Option, none, some, max, arith, take, Bool-cases, if◌then◌else◌,
}
use crabgresql.Bytes.{Bytes, bytes_eq}
use crabgresql.Bytes.Equality.{bytes_eq_iff}
use crabgresql.Bytes.BigEndian.{be_bytes, be_value}
use crabgresql.Kv.Map
use crabgresql.Kv.Map.{Entries}
use crabgresql.Kv.Map.Lookup.{get-insert, get-remove}
use crabgresql.Kv.Store.{WriteOp, put, delete}
use crabgresql.Cluster.StateMachine.{
  is_counter_key, is_clog_key, u64_be, existing_counter, keeps, put_counter, apply_op,
}

-- The number under a key, 0 where there is none.
unfoldable pub count : Option Bytes → ℕ
count none = 0
count (some b) = be_value (take 8 b)

-- The value under a key after a put of `v`, from the value before it.
unfoldable pub merge : Bytes → Bytes → Option Bytes → Option Bytes
merge k v old =
    if is_counter_key k
    then some (be_bytes 8 (max (count old) (count (some v))))
    else if is_clog_key k
    then (if keeps old then old else some v)
    else some v

-- The same for any operation, on any key.
unfoldable pub after_op : Bytes → WriteOp → Option Bytes → Option Bytes
after_op k (put j v) old = if bytes_eq k j then merge k v old else old
after_op k (delete j) old = if bytes_eq k j then none else old

get-put_counter :
    (j k w : Bytes) (old : Option Bytes) (m : Entries) {m' : Entries}
    → put_counter j (u64_be w) (existing_counter old) m ≡ some m'
    → Map.get k m'
      ≡ (if bytes_eq k j then some (be_bytes 8 (max (count old) (count (some w)))) else Map.get k m)
unfolding put_counter u64_be existing_counter count
get-put_counter j k w none m h =
    ground (arith, get-insert k j (be_bytes 8 (max 0 (be_value (take 8 w)))) m)
get-put_counter j k w (some b) m h =
    ground (arith, get-insert k j (be_bytes 8 (max (be_value (take 8 b)) (be_value (take 8 w)))) m)

get-apply_put :
    (j w : Bytes) (m : Entries) {m' : Entries} (k : Bytes)
    → apply_op (put j w) m ≡ some m'
    → Map.get k m' ≡ (if bytes_eq k j then merge j w (Map.get j m) else Map.get k m)
unfolding apply_op merge
get-apply_put j w m {m'} k h = elim (Bool-cases (is_counter_key j)) [
  | inl counter ↦ rw counter (get-put_counter j k w (Map.get j m) m (ground (arith, counter, h)))
  | inr plain ↦ elim (Bool-cases (is_clog_key j)) [
    | inl clog ↦ elim (Bool-cases (keeps (Map.get j m))) [
      | inl kept ↦ ground (arith, bytes_eq_iff k j)
      | inr open_yet ↦ ground (arith, get-insert k j w m)
    ]
    | inr other ↦ ground (arith, get-insert k j w m)
  ]
]

-- After an operation that does not panic each key's value is that of `after_op` on its own value
-- before: the larger number under a counter, the standing decision of the log, or the put value.
pub get-apply_op :
    (op : WriteOp) (m : Entries) {m' : Entries} (k : Bytes)
    → apply_op op m ≡ some m'
    → Map.get k m' ≡ after_op k op (Map.get k m)
unfolding apply_op after_op
get-apply_op (delete j) m {m'} k h =
    let same : Map.remove j m ≡ m' = cc in rw (← same) (get-remove k j m)
get-apply_op (put j w) m {m'} k h = elim (Bool-cases (bytes_eq k j)) [
  | inl here ↦
      let key : k ≡ j = (bytes_eq_iff k j).0 here in
      rw (after_op, here)
        (subst (λ z. Map.get k m' ≡ merge z w (Map.get z m)) (sym key)
          (ground (arith, get-apply_put j w m k h)))
  | inr other ↦ ground (arith, get-apply_put j w m k h)
]
