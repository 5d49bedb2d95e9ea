-- ===== src/Domain/Cluster.antt =====
-- src/domain/cluster.rs: the cluster row, its lifecycle state, and the events.
use app_salmon.Base.{ℕ, String, Option}
use app_salmon.Domain.Time.{DateTime, TimeDelta}
use app_salmon.Domain.Ids.{ClusterId, ClientId, WorkerUser}
use app_salmon.Domain.ServiceKind.{ServiceSpec, ConnectionInfo}

pub data DeleteReason : Type 0 where
  user_requested ttl_expired spawn_failed admin_forced : DeleteReason

pub data ClusterState : Type 0 where
  spawning : (started_at : DateTime) → ClusterState
  ready : (ready_at decommission_at : DateTime) (connection : ConnectionInfo) → ClusterState
  failed : (failed_at : DateTime) (error_summary : String) → ClusterState
  deleting : (deleting_since : DateTime) (reason : DeleteReason) → ClusterState

pub record Cluster : Type 0 where
  pub id : ClusterId
  pub owner : ClientId
  pub service : ServiceSpec
  pub requested_ttl : TimeDelta
  pub requested_at : DateTime
  pub state : ClusterState
  pub worker : Option WorkerUser
  pub slot : ℕ  -- u32

pub data ClusterEvent : Type 0 where
  spawn_succeeded :
      (ready_at decommission_at : DateTime) (connection : ConnectionInfo) → ClusterEvent
  spawn_failed : (failed_at : DateTime) (error_summary : String) → ClusterEvent
  delete_requested : (at : DateTime) (reason : DeleteReason) → ClusterEvent
