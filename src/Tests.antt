-- ===== src/Tests.antt =====
-- The theorems at concrete inputs.
mod Transactions
mod Locks
mod Replication
mod Durable
mod Values
mod Expressions
mod Storage
