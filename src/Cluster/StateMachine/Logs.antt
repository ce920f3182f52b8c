-- ===== src/Cluster/StateMachine/Logs.antt =====
-- Sequences of operations: counters, decisions, and the global counter.
use crabgresql.Prelude.{
  ℕ, ◌≡◌, ◌<◌, ◌^◌, refl, ◌∙◌, inl, inr, true, false, List, [], ◌∷◌, Option, some, max, All, arith,
  take, Bool-cases, Option-cases, if◌then◌else◌,
}
use crabgresql.Bytes.{Bytes, bytes_eq}
use crabgresql.Bytes.BigEndian.{be_bytes, be_value-be_bytes}
use crabgresql.Kv.Key.{clog_key}
use crabgresql.Kv.Map
use crabgresql.Kv.Map.{Entries}
use crabgresql.Kv.Store.{WriteOp, put, delete}
use crabgresql.Mvcc.Clog.{is_terminal}
use crabgresql.Cluster.StateMachine.{is_counter_key, keeps, apply_op, apply_ops}
use crabgresql.Cluster.StateMachine.Keys.{is_clog_key-clog_key, is_counter_key-clog_key}
use crabgresql.Cluster.StateMachine.Ops.{count, merge, after_op, get-apply_op}

-- The operation does not delete the key.
unfoldable pub Spares : Bytes → WriteOp → Type 0
Spares k (put j v) = Unit
Spares k (delete j) = bytes_eq k j ≡ false

-- A value put under a counter is 64 bits wide.
unfoldable pub IsCount : Option Bytes → Type 0
IsCount v = count v < 2 ^ 64

unfoldable pub Fits : Bytes → WriteOp → Type 0
Fits k (put j v) = bytes_eq k j ≡ true → IsCount (some v)
Fits k (delete j) = Unit

-- The largest number that the operations put under the key.
unfoldable pub greatest : Bytes → List WriteOp → ℕ
greatest k [] = 0
greatest k (put j v ∷ ops) =
    if bytes_eq k j then max (count (some v)) (greatest k ops) else greatest k ops
greatest k (delete j ∷ ops) = greatest k ops

take-be_bytes : (n : ℕ) → take 8 (be_bytes 8 n) ≡ be_bytes 8 n
unfolding be_bytes
take-be_bytes n = refl

pub count-be_bytes : (n : ℕ) → n < 2 ^ 64 → count (some (be_bytes 8 n)) ≡ n
unfolding count
count-be_bytes n h = rw (take-be_bytes n) (be_value-be_bytes 8 n (omega arith))

pub apply_ops-cons :
    (op : WriteOp) (ops : List WriteOp) (m : Entries) {m' : Entries}
    → apply_ops (op ∷ ops) m ≡ some m'
    → (mid : Entries) × (apply_op op m ≡ some mid) × (apply_ops ops mid ≡ some m')
unfolding apply_ops
apply_ops-cons op ops m {m'} h = elim (Option-cases (apply_op op m)) [
  | inl panics ↦ absurd (ground (arith, panics, h))
  | inr (mid, step) ↦ (mid, step, ground (arith, step, h))
]

-- A counter after a put.
count-merge :
    (k v : Bytes) (old : Option Bytes)
    → is_counter_key k ≡ true
    → IsCount old
    → IsCount (some v)
    → count (merge k v old) ≡ max (count old) (count (some v))
unfolding merge IsCount
count-merge k v old counter ho hv = rw counter (count-be_bytes _ (omega arith))

count-after_op :
    (op : WriteOp) (ops : List WriteOp) (k : Bytes) (old : Option Bytes)
    → is_counter_key k ≡ true
    → IsCount old
    → Spares k op
    → Fits k op
    → max (count (after_op k op old)) (greatest k ops) ≡ max (count old) (greatest k (op ∷ ops))
unfolding after_op greatest Spares Fits
count-after_op (delete j) ops k old counter ho spared fit = rw (after_op, spared) refl
count-after_op (put j v) ops k old counter ho spared fit = elim (Bool-cases (bytes_eq k j)) [
  | inl here ↦
      rw (after_op, greatest, here) (ground (arith, count-merge k v old counter ho (fit here)))
  | inr other ↦ rw (after_op, greatest, other) refl
]

IsCount-after_op :
    (op : WriteOp) (k : Bytes) (old : Option Bytes)
    → is_counter_key k ≡ true
    → IsCount old
    → Spares k op
    → Fits k op
    → IsCount (after_op k op old)
unfolding after_op Spares Fits IsCount
IsCount-after_op (delete j) k old counter ho spared fit = rw (after_op, spared) ho
IsCount-after_op (put j v) k old counter ho spared fit = elim (Bool-cases (bytes_eq k j)) [
  | inl here ↦
      rw (after_op, here) (ground (arith, count-merge k v old counter ho (fit here), fit here))
  | inr other ↦ rw (after_op, other) ho
]

-- After any operations that do not delete a counter's key, that put only 64-bit numbers there
-- and that do not panic, the counter, of 64 bits before, is the largest of what it was and of
-- what they put there.
pub count-apply_ops :
    (ops : List WriteOp) (m : Entries) {m' : Entries} (k : Bytes)
    → is_counter_key k ≡ true
    → IsCount (Map.get k m)
    → All (Spares k) ops
    → All (Fits k) ops
    → apply_ops ops m ≡ some m'
    → count (Map.get k m') ≡ max (count (Map.get k m)) (greatest k ops)
unfolding apply_ops greatest Spares Fits IsCount after_op
count-apply_ops [] m {m'} k counter old spares fits h =
    let same : m ≡ m' = cc in rw (← same) (omega arith)
count-apply_ops (op ∷ ops) m {m'} k counter old spares fits h =
    let (mid, step, rest) = apply_ops-cons op ops m h in
    let now : Map.get k mid ≡ after_op k op (Map.get k m) = get-apply_op op m k step in
    count-apply_ops ops mid k counter
      (rw now (IsCount-after_op op k (Map.get k m) counter old spares.0 fits.0)) spares.1 fits.1
      rest
    ∙ rw now (count-after_op op ops k (Map.get k m) counter old spares.0 fits.0)

decided-after_op :
    (op : WriteOp) (xid : ℕ) (old : Option Bytes) {v : Bytes}
    → old ≡ some v
    → is_terminal v ≡ true
    → Spares (clog_key xid) op
    → after_op (clog_key xid) op old ≡ some v
unfolding after_op merge keeps Spares
decided-after_op (delete j) xid old held final spared = rw (after_op, spared) held
decided-after_op (put j w) xid old {v} held final spared =
    ground (arith, held, is_clog_key-clog_key xid, is_counter_key-clog_key xid)

-- A commit or an abort that the commit log holds is what it holds after any further operations that
-- do not delete it and do not panic, whatever they put under its key.
pub decision-apply_ops :
    (ops : List WriteOp) (m : Entries) {m' : Entries} (xid : ℕ) {v : Bytes}
    → Map.get (clog_key xid) m ≡ some v
    → is_terminal v ≡ true
    → All (Spares (clog_key xid)) ops
    → apply_ops ops m ≡ some m'
    → Map.get (clog_key xid) m' ≡ some v
unfolding apply_ops
decision-apply_ops [] m {m'} xid held final spares h = let same : m ≡ m' = cc in rw (← same) held
decision-apply_ops (op ∷ ops) m {m'} xid held final spares h =
    let (mid, step, rest) = apply_ops-cons op ops m h in
    decision-apply_ops ops mid xid
      (get-apply_op op m (clog_key xid) step
        ∙ decided-after_op op xid (Map.get (clog_key xid) m) held final spares.0)
      final spares.1 rest
