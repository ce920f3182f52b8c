-- ===== src/Mvcc.antt =====
-- crates/mvcc: multiversion concurrency control. The commit-status log, the encoding of tuple
-- versions, and the visibility of versions to a snapshot.
pub mod Clog
pub mod Version
pub mod Visibility
