-- ===== src/Data.antt =====
-- src/data: keys and values in the database library, the write batch, and the two data types.
pub mod LevelDb
pub mod Keys
pub mod Binlog
pub mod Kv
pub mod Queue
pub mod Impl
pub mod Options
