-- ===== src/Backends.antt =====
-- src/backends.
pub mod HealthWait
pub mod Postgres
pub mod Supabase
