-- ===== src/Cluster/Durable/Stages.antt =====
-- What one staged operation does to the batch and to what is pending, key by key.
use crabgresql.Prelude.{
  ℕ, ◌≡◌, ◌<◌, ◌^◌, ◌∙◌, refl, ap, inl, inr, Bool, true, false, List, [], ◌∷◌, ◌++◌, Option, none,
  some, ok, arith, Option-cases,
}
use crabgresql.Prelude.HashMap.{lookup}
use crabgresql.Bytes.{Bytes, bytes_eq}
use crabgresql.Bytes.BigEndian.{be_bytes, be_value-be_bytes}
use crabgresql.Kv.Store
use crabgresql.Kv.Store.{WriteOp, put, delete, after_batch}
use crabgresql.Cluster.StateMachine.{is_counter_key, is_clog_key, u64_be, existing_counter, keeps}
use crabgresql.Cluster.StateMachine.Ops.{count}
use crabgresql.Cluster.StateMachine.Logs.{IsCount}
use crabgresql.Cluster.Durable.{
  rows, raft, Batch, ops_in, Database, Staged, stage, io_or, u64_or_panic, number_of, terminal_of,
  current_count, already_terminal,
}

pub after_batch-append :
    (k : Bytes) (ops : List WriteOp) (op : WriteOp) (old : Option Bytes)
    → after_batch k (ops ++ op ∷ []) old ≡ Store.after_op k op (after_batch k ops old)
unfolding after_batch
after_batch-append k [] op old = refl
after_batch-append k (o ∷ ops) op old = after_batch-append k ops op (Store.after_op k o old)

ops_in-append :
    (batch : Batch) (op : WriteOp)
    → ops_in rows (batch ++ (rows, op) ∷ []) ≡ ops_in rows batch ++ op ∷ []
unfolding ops_in
ops_in-append [] op = refl
ops_in-append ((rows, o) ∷ batch) op = cc (ops_in-append batch op)
ops_in-append ((raft, o) ∷ batch) op = ops_in-append batch op

-- What is pending for a key, of value `old` on the disk and `now` after the operations so far.
unfoldable pub Counted : Option ℕ → Option Bytes → Option Bytes → Type 0
Counted none old now = now ≡ old
Counted (some c) old now = (now ≡ some (be_bytes 8 c)) × (c < 2 ^ 64)

unfoldable pub Decided : Option Bool → Option Bytes → Option Bytes → Type 0
Decided none old now = now ≡ old
Decided (some t) old now = keeps now ≡ t

pub record Tracks (k : Bytes) (st : Staged) (old now : Option Bytes) : Type 0 where
  pub value : after_batch k (ops_in rows st.batch) old ≡ now
  pub counter : is_counter_key k ≡ true → Counted (lookup bytes_eq k st.counters) old now
  pub decision :
      is_counter_key k ≡ false
      → is_clog_key k ≡ true
      → Decided (lookup bytes_eq k st.decided) old now

-- Every operation but a removal of a counter or of a decision, and the put of a counter that is no
-- number of 64 bits.
unfoldable pub Orderly : WriteOp → Type 0
Orderly (put j v) = is_counter_key j ≡ true → IsCount (some v)
Orderly (delete j) = (is_counter_key j ≡ false) × (is_clog_key j ≡ false)

pub stage-value :
    (k : Bytes) (op : WriteOp) (st : Staged) (old : Option Bytes) {now : Option Bytes}
    → after_batch k (ops_in rows st.batch) old ≡ now
    → after_batch k (ops_in rows (stage op st).batch) old ≡ Store.after_op k op now
unfolding stage
stage-value k op st old {now} h =
    rw (ops_in-append st.batch op, after_batch-append k (ops_in rows st.batch) op old, h) refl

pub u64_be-count : (b : Bytes) {c : ℕ} → u64_be b ≡ some c → count (some b) ≡ c
unfolding u64_be count
u64_be-count b h = ground (arith, h)

pub u64_or_panic-some : (b : Bytes) {c : ℕ} → u64_or_panic b ≡ ok c → u64_be b ≡ some c
unfolding u64_or_panic
u64_or_panic-some b h = elim (Option-cases (u64_be b)) [
  | inl e ↦ absurd (ground (arith, e, h))
  | inr (n, e) ↦ ground (arith, e, h)
]

number_of-existing : (v : Option Bytes) {c : ℕ} → number_of v ≡ ok c → existing_counter v ≡ some c
unfolding number_of existing_counter
number_of-existing none h = ground (arith, h)
number_of-existing (some b) h = u64_or_panic-some b h

pub existing-count : (v : Option Bytes) {c : ℕ} → existing_counter v ≡ some c → count v ≡ c
unfolding existing_counter count
existing-count none h = ground (arith, h)
existing-count (some b) h = u64_be-count b h

existing-be_bytes : (c : ℕ) → c < 2 ^ 64 → existing_counter (some (be_bytes 8 c)) ≡ some c
unfolding existing_counter u64_be be_bytes
existing-be_bytes c h = ap some (be_value-be_bytes 8 c (omega arith))

terminal_of-keeps : (v : Option Bytes) → terminal_of v ≡ keeps v
unfolding terminal_of keeps
terminal_of-keeps none = refl
terminal_of-keeps (some b) = refl

module _ (db : Database) (s : db.State) where
  -- The pending count, or that of the disk, is the number that stands under the key.
  pub current_count-existing :
      (k : Bytes) (st : Staged) {old now : Option Bytes} {c : ℕ}
      → Tracks k st old now
      → is_counter_key k ≡ true
      → db.get s rows k ≡ ok old
      → current_count db s k st ≡ ok c
      → existing_counter now ≡ some c
  unfolding current_count Counted io_or
  current_count-existing k st {old} {now} {c} t counter held h =
      elim (Option-cases (lookup bytes_eq k st.counters)) [
        | inl e ↦
            let same : now ≡ old = rw e at (t.counter counter) in
            rw same (number_of-existing old (rw (current_count, e, held) at h))
        | inr (n, e) ↦
            let (value, small) = rw e at (t.counter counter) in
            let eq : n ≡ c = ground (arith, e, h) in rw (value, ← eq) (existing-be_bytes n small)
      ]

  pub already_terminal-keeps :
      (k : Bytes) (st : Staged) {old now : Option Bytes} {b : Bool}
      → Tracks k st old now
      → is_counter_key k ≡ false
      → is_clog_key k ≡ true
      → db.get s rows k ≡ ok old
      → already_terminal db s k st ≡ ok b
      → keeps now ≡ b
  unfolding already_terminal Decided io_or
  already_terminal-keeps k st {old} {now} {b} t plain clog held h =
      elim (Option-cases (lookup bytes_eq k st.decided)) [
        | inl e ↦
            let same : now ≡ old = rw e at (t.decision plain clog) in
            rw (same, ← terminal_of-keeps) (ground (arith, e, held, h))
        | inr (f, e) ↦ (rw e at (t.decision plain clog)) ∙ ground (arith, e, h)
      ]
