-- ===== src/Pgtypes.antt =====
-- crates/pgtypes: the SQL column types, values and operators.
pub mod ColumnType
pub mod Datum
pub mod Interval
pub mod TypeError
pub mod Float
pub mod Crates
pub mod Numeric
pub mod Datetime
pub mod Ops
