-- ===== src/Adapters.antt =====
-- src/adapters, apart from the repository.
pub mod DockerBollard
pub mod SystemUsers
pub mod SudoExec
