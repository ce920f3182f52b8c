-- ===== src/Lib.antt =====
-- crabgresql: a distributed SQL database with PostgreSQL's protocol and semantics. Rows live in an
-- ordered key-value store (crates/kv), one store for each range of tables; transactions see them through
-- multiversion concurrency control (crates/mvcc) and row locks (crates/executor); the stores are
-- replicated by Raft, whose state machine (crates/cluster) applies batches of writes.
--
-- Kv models crates/kv: Kv/Keyenc the functions of keyenc.rs, Kv/Key those of key.rs, Kv/Rowenc encode_row
-- and decode_row of rowenc.rs, Kv/Store the trait Kv of store.rs as an interface with the law of its
-- batches, Kv/MemKv its implementation in memory over Kv/Map, the entries of a BTreeMap. Other stores are
-- any value of the interface. Catalog/Serde models crates/catalog/src/serde.rs. Its decoders and those of
-- Kv/Rowenc are readers of Cursor.
--
-- Pgtypes models the types and values of crates/pgtypes: Pgtypes/ColumnType and Pgtypes/Datum datum.rs,
-- Pgtypes/TypeError error.rs, Pgtypes/Numeric the arithmetic of numeric.rs, Pgtypes/Datetime and
-- Pgtypes/Interval the arithmetic and the binary form of intervals in datetime.rs, and Pgtypes/Ops the
-- operators of ops.rs on two values. Pgtypes/Crates is what they take of bigdecimal and jiff, Pgtypes/Float
-- the bits of an f64. Pgparser/Ast is the tree of expressions of crates/pgparser/src/ast.rs. The executor
-- evaluates it: Executor/Scope models the column references of scope.rs, Executor/Eval eval and what it
-- calls in eval.rs, Executor/Like its like_match, Executor/Types and Executor/Infer the static types that
-- infer_type gives before a row is read.
--
-- Mvcc models crates/mvcc: Mvcc/Clog the commit log, Mvcc/Version the keys and values of tuple versions,
-- Mvcc/Visibility the test of a version against a snapshot. Executor models parts of crates/executor:
-- Executor/Status global_status and find_visible_one of exec.rs, Executor/LockMgr lockmgr.rs,
-- Executor/ProcArray procarray.rs, Executor/Gtm gtm.rs, Executor/Seq seq.rs, Executor/SetOps the
-- combination of rows in setops.rs. Cluster/StateMachine models apply_op and apply of
-- crates/cluster/src/store.rs, Cluster/Durable the apply of durable.rs, which stages what the former does
-- step by step in one batch, Cluster/RangeMap range/map.rs and read_range_map of range/meta.rs.
--
-- A method under a mutex is one step from a state to a state; a round of the lock manager's loop is one
-- step. The recovery of a new leader takes back only rows that no other transaction holds, as lockmgr.rs
-- says of reacquire_exclusive, and a wait is recorded as one edge, to one conflicting holder. An error is a value of Result, a panic is `none`. Machine integers are numbers with their
-- bounds as hypotheses, and a truncation is written out. A sum that the source leaves unchecked wraps, as
-- in the default release profile; with overflow checks it panics there. Debug assertions are left out. Bytes are numbers below 256. Hash maps and sets
-- are lists with an equality test, in the order of their iteration.
--
-- Three loops run on fuel: decode_row on one more than the bytes behind the version, and each column takes
-- one of them at least; check_cycle on one more than the edges of the wait-for graph, and each step sees
-- another edge's waiting transaction; like_match on the product of the lengths, one added to each, as each
-- of the text's characters is tried under a `%` once. The evaluation of an expression is given the room that
-- its depth guard leaves, MAX_EVAL_DEPTH and one more, and fails where the guard does.
--
-- Not modelled: third-party crates (openraft, fjall, tokio, bigdecimal, jiff) and the arithmetic of f64,
-- which are parameters where the modelled code calls them; so are the functions of SQL, its casts and the
-- text form of values where an expression calls them. The lexer and the parser, the wire protocol, the
-- execution of statements, joins and aggregates, the snapshots and logs of Raft, and the transport between
-- nodes are left out.
pub mod Prelude
pub mod Bytes
pub mod Cursor
pub mod Pgparser
pub mod Pgtypes
pub mod Kv
pub mod Catalog
pub mod Mvcc
pub mod Executor
pub mod Cluster
pub mod Tests
