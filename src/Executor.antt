-- ===== src/Executor.antt =====
-- crates/executor: what keeps the transactions apart (the resolution of statuses across ranges, row
-- locks, the registries of running transactions), the set operators, and expressions: the references to
-- columns, the evaluation and the static types.
pub mod Status
pub mod LockMgr
pub mod ProcArray
pub mod Gtm
pub mod Seq
pub mod SetOps
pub mod Like
pub mod Error
pub mod Scope
pub mod Eval
pub mod Types
pub mod Infer
