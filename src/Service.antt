-- ===== src/Service.antt =====
-- src/service: the rules of the four endpoints and the background tasks.
pub mod Deps
pub mod Registry
pub mod Contract
pub mod ClusterService
pub mod TtlReaper
pub mod Teardown
pub mod Reconciliation
pub mod SpawnTask
pub mod LogRotation
