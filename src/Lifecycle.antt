-- ===== src/Lifecycle.antt =====
-- `transition` of src/domain/cluster.rs: the lifecycle state machine.
pub mod Laws
use app_salmon.Base.{Result, ok, err}
use app_salmon.Domain.Cluster.{
  ClusterState, spawning, ready, failed, deleting, ClusterEvent, spawn_succeeded, spawn_failed,
  delete_requested,
}
use app_salmon.Errors.{ClusterError, invalid_transition}

unfoldable pub transition : ClusterState → ClusterEvent → Result ClusterError ClusterState
transition (spawning _) (spawn_succeeded ready_at decommission_at connection) =
    ok (ready ready_at decommission_at connection)
transition (spawning _) (spawn_failed failed_at error_summary) = ok (failed failed_at error_summary)
transition (spawning _) (delete_requested at reason) = ok (deleting at reason)
transition (ready _ _ _) (delete_requested at reason) = ok (deleting at reason)
transition (failed _ _) (delete_requested at reason) = ok (deleting at reason)
transition (deleting since why) (delete_requested _ _) = ok (deleting since why)
transition current event = err (invalid_transition current event)
