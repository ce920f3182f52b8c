-- ===== src/Tests/Durable.antt =====
-- The durable state machine on a database of two maps.
use crabgresql.Prelude.{
  ℕ, ◌≡◌, refl, List, [], ◌∷◌, Option, none, some, ok, arith, Result, All, Bool-cases, inl, inr,
}
use crabgresql.Prelude.HashMap.{lookup, insert}
use crabgresql.Bytes.{Bytes, bytes_eq, lex_lt}
use crabgresql.Bytes.BigEndian.{be_bytes, be_value}
use crabgresql.Kv.Error.{KvError}
use crabgresql.Kv.Key.{next_xid_key, seq_key, clog_key, clog_prefix}
use crabgresql.Kv.Map
use crabgresql.Kv.Map.{Entries}
use crabgresql.Kv.Store.{put, after_batch}
use crabgresql.Kv.MemKv
use crabgresql.Kv.MemKv.{apply_all}
use crabgresql.Kv.MemKv.Laws.{get-apply_all}
use crabgresql.Mvcc.Clog.{is_terminal}
use crabgresql.Cluster.StateMachine
use crabgresql.Cluster.StateMachine.{
  Entry, Machine, normal, is_counter_key, is_seq_key, is_clog_key, u64_be,
}
use crabgresql.Cluster.StateMachine.Ops.{count}
use crabgresql.Cluster.StateMachine.Logs.{IsCount}
use crabgresql.Cluster.Durable.{
  Keyspace, rows, raft, Batch, ops_in, Database, Meta, Codec, io_or, u64_or_panic, number_of,
  terminal_of, stage, current_count, already_terminal, stage_counter, stage_decision, stage_op,
  stage_ops, stage_payload, stage_entry, stage_entries, apply, sm_applied_key, sm_membership_key,
}
use crabgresql.Cluster.Durable.Stages.{Orderly}
use crabgresql.Cluster.Durable.Refines.{Holds, HasCounts}
use crabgresql.Cluster.Durable.Applies.{OrderlyPayload, meta_of, apply-Refines}

-- Two maps, one for each keyspace.
abbrev map_of : Entries × Entries → Keyspace → Entries
map_of s rows = s.0
map_of s raft = s.1

abbrev map_commit : Entries × Entries → Batch → Result KvError (Entries × Entries)
map_commit s batch = ok (apply_all (ops_in rows batch) s.0, apply_all (ops_in raft batch) s.1)

get-map_commit :
    (s : Entries × Entries) (batch : Batch) {s' : Entries × Entries} (space : Keyspace) (k : Bytes)
    {old new : Option Bytes}
    → map_commit s batch ≡ ok s'
    → ◌≡◌ {A = Result KvError (Option Bytes)} (ok (Map.get k (map_of s space))) (ok old)
    → ◌≡◌ {A = Result KvError (Option Bytes)} (ok (Map.get k (map_of s' space))) (ok new)
    → new ≡ after_batch k (ops_in space batch) old
get-map_commit s batch rows k e p q = ground (arith, get-apply_all k (ops_in rows batch) s.0)
get-map_commit s batch raft k e p q = ground (arith, get-apply_all k (ops_in raft batch) s.1)

abbrev maps : Database
maps = record {
  State = Entries × Entries;
  get = λ s space k. ok (Map.get k (map_of s space));
  commit = map_commit;
  persist = λ s. ok tt;
  get-commit = get-map_commit;
}

-- A log whose positions and members are numbers; the last applied one is encoded as its byte.
abbrev small_codec : Codec ℕ ℕ
small_codec = record {
  applied_to_vec = λ a. elim a [ none ↦ ok [] | some id ↦ ok (id ∷ []) ];
  membership_to_vec = λ a. ok [];
}

-- The counter stands at 9 and transaction 3 has committed. One entry raises the counter twice and
-- brings a late abort.
abbrev machine : Machine ℕ ℕ
machine = record {
  kv = (next_xid_key, be_bytes 8 9) ∷ (clog_key 3, 1 ∷ []) ∷ [];
  last_applied = some 4;
  last_membership = none;
}

abbrev log : List (Entry ℕ ℕ)
log =
    record {
      log_id = 5;
      payload = normal (
          put next_xid_key (be_bytes 8 12)
          ∷ put next_xid_key (be_bytes 8 11)
          ∷ put (clog_key 3) (2 ∷ [])
          ∷ []);
    }
    ∷ []

abbrev disk : Entries × Entries
disk = (machine.kv, (sm_applied_key, 4 ∷ []) ∷ [])

abbrev disk_after : Entries × Entries
disk_after = (
  (next_xid_key, be_bytes 8 12) ∷ (clog_key 3, 1 ∷ []) ∷ [],
  (sm_applied_key, 5 ∷ []) ∷ (sm_membership_key, []) ∷ [],
)

abbrev meta_after : Meta ℕ ℕ
meta_after = record { last_applied = some 5; last_membership = none }

after_run : apply maps small_codec disk (meta_of machine) log ≡ ok (disk_after, meta_after)
unfolding apply stage_entries stage_entry stage_payload stage_ops stage_op stage_counter
    stage_decision current_count already_terminal u64_or_panic number_of terminal_of stage io_or
    lookup insert is_counter_key is_seq_key is_clog_key u64_be is_terminal next_xid_key seq_key
    clog_key clog_prefix bytes_eq lex_lt be_bytes be_value Map.get Map.insert apply_all MemKv.apply
    ops_in meta_of
after_run = refl

disk-Holds : Holds maps disk machine.kv
unfolding Holds
disk-Holds k = refl

machine-HasCounts : HasCounts machine.kv
unfolding HasCounts IsCount count Map.get be_bytes be_value
machine-HasCounts k counter = elim (Bool-cases (bytes_eq k next_xid_key)) [
  | inl e ↦ rw e (omega arith)
  | inr n ↦ elim (Bool-cases (bytes_eq k (clog_key 3))) [
    | inl e ↦ rw (n, e) (omega arith)
    | inr o ↦ rw (n, o) (omega arith)
  ]
]

log-Orderly : All (λ e. OrderlyPayload e.payload) log
unfolding OrderlyPayload Orderly IsCount count be_bytes be_value
log-Orderly = (((λ c. omega arith), ((λ c. omega arith), ((λ c. omega arith), tt))), tt)

applied-known : maps.get disk raft sm_applied_key ≡ ok (some (4 ∷ []))
unfolding Map.get bytes_eq
applied-known = refl

apply-Refines_example :
    (m' : Machine ℕ ℕ) × (StateMachine.apply log machine ≡ some m')
    × (meta_after ≡ meta_of m')
    × ((k : Bytes) (v : Option Bytes) → maps.get disk_after rows k ≡ ok v → v ≡ Map.get k m'.kv)
    × ((v : Option Bytes)
        → maps.get disk_after raft sm_applied_key ≡ ok v
        → (b : Bytes) × (v ≡ some b) × (small_codec.applied_to_vec m'.last_applied ≡ ok b))
apply-Refines_example =
    apply-Refines maps small_codec disk machine log disk-Holds machine-HasCounts log-Orderly
      applied-known after_run
