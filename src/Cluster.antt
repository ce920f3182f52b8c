-- ===== src/Cluster.antt =====
-- crates/cluster: the replicated state machine and the static partition of the tables into ranges.
pub mod StateMachine
pub mod RangeMap
pub mod Durable
