-- ===== src/Domain.antt =====
-- The program's vocabulary (src/domain): identifiers, service kinds, times and the cluster row.
pub mod Time
pub mod Ids
pub mod ServiceKind
pub mod Cluster
