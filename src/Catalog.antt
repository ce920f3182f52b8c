-- ===== src/Catalog.antt =====
-- crates/catalog: the stored form of table schemas and of the objects of foreign data.
pub mod Serde
