-- ===== src/Kv.antt =====
-- crates/kv: the storage layer. Keys and their order-preserving encoding, row values, the ordered
-- store.
pub mod Error
pub mod Keyenc
pub mod Key
pub mod Map
pub mod Store
pub mod Rowenc
pub mod MemKv
