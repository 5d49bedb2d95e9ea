-- ===== src/Storage.antt =====
-- Durable storage: src/ports/repository.rs and src/adapters/sqlite_repository.rs.
pub mod Persisted
pub mod Rows
pub mod Slots
pub mod Allocation
pub mod Port
pub mod Sql
pub mod Sqlite
