-- ===== src/Cluster/Durable.antt =====
-- crates/cluster/src/durable.rs: `apply` of the durable state machine. The operations of the log are
-- staged in one batch, with what is pending in it kept beside, and the batch is committed at once.
-- The database of the crate fjall is a parameter: its reads, its commits and its fsync.

pub mod Stages
pub mod Applies
pub mod Refines
pub mod Keys
use crabgresql.Prelude.{
  ℕ, ◌≡◌, Bool, true, false, not, List, [], ◌∷◌, ◌++◌, Option, some, none, max, Result, ok, err,
  ◌>>=◌, if◌then◌else◌,
}
use crabgresql.Prelude.HashMap.{lookup, insert}
use crabgresql.Bytes.{Bytes, bytes_eq}
use crabgresql.Bytes.BigEndian.{be_bytes}
use crabgresql.Kv.Error.{KvError}
use crabgresql.Kv.Store.{WriteOp, put, delete, after_batch}
use crabgresql.Mvcc.Clog.{is_terminal}
use crabgresql.Cluster.StateMachine.{
  is_counter_key, is_clog_key, u64_be, Payload, blank, normal, membership, Entry,
}

-- The keyspaces `self.data` and `self.raft`.
pub data Keyspace : Type 0 where
  rows : Keyspace
  raft : Keyspace

abbrev pub Batch : Type 0
Batch = List (Keyspace × WriteOp)

-- The operations of a batch on one keyspace.
unfoldable pub ops_in : Keyspace → Batch → List WriteOp
ops_in space [] = []
ops_in rows ((rows, op) ∷ batch) = op ∷ ops_in rows batch
ops_in rows ((raft, op) ∷ batch) = ops_in rows batch
ops_in raft ((rows, op) ∷ batch) = ops_in raft batch
ops_in raft ((raft, op) ∷ batch) = op ∷ ops_in raft batch

-- The database: a commit applies its batch to all keyspaces, in the order of its operations; a
-- panic of `u64_be` and a failed read or write are the failures of `apply`.
pub data Failure : Type 0 where
  panics : Failure
  storage : KvError → Failure

pub record Database : Type 1 where
  pub State : Type 0
  pub get : State → Keyspace → Bytes → Result KvError (Option Bytes)
  pub commit : State → Batch → Result KvError State
  pub persist : State → Result {0, 0} KvError Unit
  pub get-commit :
      (s : State) (batch : Batch) {s' : State} (space : Keyspace) (k : Bytes)
      {old new : Option Bytes}
      → commit s batch ≡ ok s'
      → get s space k ≡ ok old
      → get s' space k ≡ ok new
      → new ≡ after_batch k (ops_in space batch) old

-- The locals of `apply`: the batch, and what is pending in it.
pub record Staged : Type 0 where
  pub counters : List (Bytes × ℕ)
  pub decided : List (Bytes × Bool)
  pub batch : Batch

-- `map_err` to a storage error.
unfoldable pub io_or {ℓ} : {A : Type ℓ} → Result KvError A → Result Failure A
io_or (ok a) = ok a
io_or (err e) = err (storage e)

unfoldable pub u64_or_panic : Bytes → Result Failure ℕ
u64_or_panic b = elim (u64_be b) [ some n ↦ ok n | none ↦ err panics ]

-- `.map(|b| u64_be(&b)).unwrap_or(0)`.
unfoldable pub number_of : Option Bytes → Result Failure ℕ
number_of none = ok 0
number_of (some b) = u64_or_panic b

-- `is_some_and(|b| is_terminal(&b))`.
unfoldable pub terminal_of : Option Bytes → Bool
terminal_of none = false
terminal_of (some b) = is_terminal b

-- `batch.insert` or `batch.remove` on the keyspace of the rows.
unfoldable pub stage : WriteOp → Staged → Staged
stage op st = record st { batch = st.batch ++ (rows, op) ∷ [] }

module _ (db : Database) where
  -- The counter: what is pending, else what the disk holds.
  unfoldable pub current_count : db.State → Bytes → Staged → Result Failure ℕ
  current_count s key st = elim (lookup bytes_eq key st.counters) [
    | some c ↦ ok c
    | none ↦ do held ← io_or (db.get s rows key); number_of held
  ]

  unfoldable pub already_terminal : db.State → Bytes → Staged → Result Failure Bool
  already_terminal s key st = elim (lookup bytes_eq key st.decided) [
    | some t ↦ ok t
    | none ↦ do held ← io_or (db.get s rows key); ok (terminal_of held)
  ]

  unfoldable pub stage_counter : db.State → Bytes → Bytes → Staged → Result Failure Staged
  stage_counter s key value st = do
    incoming ← u64_or_panic value
    cur ← current_count s key st
    let merged = max cur incoming
    ok (
        stage (put key (be_bytes 8 merged))
          (record st { counters = insert bytes_eq key merged st.counters }))

  unfoldable pub stage_decision : db.State → Bytes → Bytes → Staged → Result Failure Staged
  stage_decision s key value st = do
    final ← already_terminal s key st
    ok (
        if final
        then record st { decided = insert bytes_eq key true st.decided }
        else stage (put key value)
            (record st { decided = insert bytes_eq key (is_terminal value) st.decided }))

  unfoldable pub stage_op : db.State → WriteOp → Staged → Result Failure Staged
  stage_op s (put key value) st =
      if is_counter_key key
      then stage_counter s key value st
      else if is_clog_key key
      then stage_decision s key value st
      else ok (stage (put key value) st)
  stage_op s (delete key) st = ok (stage (delete key) st)

  -- `for op in ops`.
  unfoldable pub stage_ops : db.State → List WriteOp → Staged → Result Failure Staged
  stage_ops s [] st = ok st
  stage_ops s (op ∷ ops) st = do st' ← stage_op s op st; stage_ops s ops st'

abbrev pub nothing_staged : Staged
nothing_staged = record { counters = []; decided = []; batch = [] }

pub record Meta (LogId Membership : Type 0) : Type 0 where
  pub last_applied : Option LogId
  pub last_membership : Option (LogId × Membership)

-- `SM_APPLIED_KEY` and `SM_MEMBERSHIP_KEY`.
abbrev pub sm_applied_key : Bytes
sm_applied_key =
    b's' ∷ b'm' ∷ b'/' ∷ b'l' ∷ b'a' ∷ b's' ∷ b't' ∷ b'_' ∷ b'a' ∷ b'p' ∷ b'p' ∷ b'l' ∷ b'i' ∷ b'e'
    ∷ b'd' ∷ []

abbrev pub sm_membership_key : Bytes
sm_membership_key =
    b's' ∷ b'm' ∷ b'/' ∷ b'l' ∷ b'a' ∷ b's' ∷ b't' ∷ b'_' ∷ b'm' ∷ b'e' ∷ b'm' ∷ b'b' ∷ b'e' ∷ b'r'
    ∷ b's' ∷ b'h' ∷ b'i' ∷ b'p' ∷ []

-- The encodings of the metadata, of serde_json.
pub record Codec (LogId Membership : Type 0) : Type 0 where
  pub applied_to_vec : Option LogId → Result KvError Bytes
  pub membership_to_vec : Option (LogId × Membership) → Result KvError Bytes

module _ {LogId Membership : Type 0} (db : Database) (codec : Codec LogId Membership) where
  -- `match entry.payload`.
  unfoldable pub stage_payload :
      db.State
      → LogId
      → Payload Membership
      → Staged
      → Meta LogId Membership
      → Result Failure (Staged × Meta LogId Membership)
  stage_payload s log_id blank st meta = ok (st, meta)
  stage_payload s log_id (normal ops) st meta = do st' ← stage_ops db s ops st; ok (st', meta)
  stage_payload s log_id (membership mem) st meta =
      ok (st, record meta { last_membership = some (log_id, mem) })

  unfoldable pub stage_entry :
      db.State
      → Entry LogId Membership
      → Staged × Meta LogId Membership
      → Result Failure (Staged × Meta LogId Membership)
  stage_entry s entry (st, meta) =
      stage_payload s entry.log_id entry.payload st
        (record meta { last_applied = some entry.log_id })

  unfoldable pub stage_entries :
      db.State
      → List (Entry LogId Membership)
      → Staged × Meta LogId Membership
      → Result Failure (Staged × Meta LogId Membership)
  stage_entries s [] now = ok now
  stage_entries s (entry ∷ entries) now = do
    next ← stage_entry s entry now
    stage_entries s entries next

  -- The metadata joins the batch; one commit, one fsync; the metadata in memory follows.
  unfoldable pub apply :
      db.State
      → Meta LogId Membership
      → List (Entry LogId Membership)
      → Result Failure (db.State × Meta LogId Membership)
  apply s meta entries = do
    staged ← stage_entries s entries (nothing_staged, meta)
    applied ← io_or (codec.applied_to_vec staged.1.last_applied)
    members ← io_or (codec.membership_to_vec staged.1.last_membership)
    let batch =
        staged.0.batch
        ++ (raft, put sm_applied_key applied) ∷ (raft, put sm_membership_key members) ∷ []
    s' ← io_or (db.commit s batch)
    done ← io_or (db.persist s')
    ok (s', staged.1)
