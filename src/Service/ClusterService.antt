-- ===== src/Service/ClusterService.antt =====
-- src/service/cluster_service.rs.
pub mod Laws
use app_salmon.Base.{
  ℕ, Option, none, some, List, Bool, ◌||◌, true, false, Result, ok, err, ok_or, if◌then◌else◌,
}
use app_salmon.Base.Int.{ltb_ℤ}
use app_salmon.Base.Action.{Action, ◌>>=◌, ◌>>◌, pure, lift, on_err}
use app_salmon.Base.Task.{infallible}
use app_salmon.Domain.Time.{TimeDelta, num_seconds, DateTime}
use app_salmon.Domain.Ids.{ClusterId, ClientId}
use app_salmon.Domain.ServiceKind.{ServiceSpec}
use app_salmon.Domain.Cluster.{
  ClusterState, spawning, deleting, Cluster, DeleteReason, delete_requested,
}
use app_salmon.Errors.{ClusterError, ttl_out_of_bounds, quota_exceeded, not_found, repository}
use app_salmon.Lifecycle.{transition}
use app_salmon.Ports.{Clock, SecretGenerator}
use app_salmon.Storage.Port
use app_salmon.Storage.Port.{InsertOutcome, ClusterRepository}

pub record Limits : Type 0 where
  pub min_ttl : TimeDelta
  pub max_ttl : TimeDelta
  pub max_clusters_per_user : ℕ  -- u32

pub data DeleteOutcome : Type 0 where
  cancel_spawn start_teardown already_deleting : DeleteOutcome

pub record ClusterService (W : Type 0) : Type 0 where
  pub repository : ClusterRepository W
  pub clock : Clock W
  pub secrets : SecretGenerator W
  pub limits : Limits

abbrev pub is_deleting : ClusterState → Bool
is_deleting (deleting _ _) = true
is_deleting _ = false

abbrev pub is_spawning : ClusterState → Bool
is_spawning (spawning _) = true
is_spawning _ = false

-- The row that `create` hands to the repository.
abbrev pub requested : ClusterId → ClientId → ServiceSpec → TimeDelta → DateTime → Cluster
requested id owner service requested_ttl now = record {
  id = id;
  owner = owner;
  service = service;
  requested_ttl = requested_ttl;
  requested_at = now;
  state = spawning now;
  worker = none;
  slot = 0;
}

module _ {W : Type 0} (self : ClusterService W) where
  unfoldable pub inserted_cluster : Cluster → InsertOutcome → Result ClusterError Cluster
  inserted_cluster cluster (Port.inserted slot) = ok (record cluster { slot = slot })
  inserted_cluster cluster (Port.quota_exceeded current_count) =
      err (quota_exceeded cluster.owner current_count self.limits.max_clusters_per_user)

  unfoldable pub insert_requested :
      ClientId → ServiceSpec → TimeDelta → Action W ClusterError Cluster
  insert_requested owner service requested_ttl = do
    now ← infallible self.clock.now
    id ← infallible self.secrets.cluster_id
    let cluster = requested id owner service requested_ttl now
    outcome ←
        on_err repository
          (self.repository.try_insert_if_under_quota cluster self.limits.max_clusters_per_user)
    lift (inserted_cluster cluster outcome)

  unfoldable pub create : ClientId → ServiceSpec → TimeDelta → Action W ClusterError Cluster
  create owner service requested_ttl =
      if ltb_ℤ requested_ttl self.limits.min_ttl || ltb_ℤ self.limits.max_ttl requested_ttl
      then lift (
          err (
            ttl_out_of_bounds (num_seconds requested_ttl) (num_seconds self.limits.min_ttl)
              (num_seconds self.limits.max_ttl)))
      else insert_requested owner service requested_ttl

  unfoldable pub info : ClusterId → ClientId → Action W ClusterError Cluster
  info id owner = do
    found ← on_err repository (self.repository.get_owned id owner)
    lift (ok_or (not_found id) found)

  unfoldable pub list : ClientId → Action W ClusterError (List Cluster)
  list owner = on_err repository (self.repository.list_by_owner owner)

  abbrev pub outcome_of : ClusterState → DeleteOutcome
  outcome_of state =
      if is_deleting state
      then already_deleting
      else if is_spawning state
      then cancel_spawn
      else start_teardown

  -- The write of `request_delete`, once the transition is known.
  unfoldable pub mark_deleting :
      ClusterId
      → Cluster
      → Result ClusterError ClusterState
      → Action W ClusterError (Cluster × DeleteOutcome)
  mark_deleting id cluster moved = do
    new_state ← lift moved
    on_err repository (self.repository.update_state id new_state)
    pure (record cluster { state = new_state }, outcome_of cluster.state)

  unfoldable pub request_delete :
      ClusterId → ClientId → DeleteReason → Action W ClusterError (Cluster × DeleteOutcome)
  request_delete id owner reason = do
    cluster ← info id owner
    at ← infallible self.clock.now
    mark_deleting id cluster (transition cluster.state (delete_requested at reason))
