-- ===== src/System/Guarded/Service.antt =====
-- An invariant that the primitive steps keep is kept by src/service/cluster_service.rs and
-- src/service/ttl_reaper.rs.
use app_salmon.System.Guarded.{GuardedTasks, GuardedService}
use app_salmon.Base.{Option, none, some, List, [], ◌∷◌, Bool-cases, ◌||◌, Result, ok, err, inl, inr}
use app_salmon.Base.Int.{ltb_ℤ}
use app_salmon.Base.Action.{on_err}
use app_salmon.Base.Stays.{Stays, continue_stays}
use app_salmon.Domain.Time.{TimeDelta, DateTime}
use app_salmon.Domain.Ids.{ClusterId, ClientId}
use app_salmon.Domain.ServiceKind.{ServiceSpec}
use app_salmon.Domain.Cluster.{Cluster, ClusterState, DeleteReason}
use app_salmon.Errors.{ClusterError, RepositoryError, repository}
use app_salmon.Service.ClusterService.{
  ClusterService, insert_requested, create, info, list, mark_deleting, request_delete, requested,
}
use app_salmon.Service.Deps.{TaskDeps}
use app_salmon.Service.TtlReaper.{reap, sweep, sweep_listed, run_once, due_for_reaping}
use app_salmon.Storage.Persisted.RoundTrip.{IsWhole}

module _ {W : Type 0} {I : W → Type 0} (self : ClusterService W) (g : GuardedService I self) where
  insert_requested_stays :
      (owner : ClientId) (spec : ServiceSpec) (ttl : TimeDelta)
      → IsWhole ttl
      → Stays I (insert_requested self owner spec ttl)
  unfolding insert_requested
  insert_requested_stays owner spec ttl whole w i =
      let (now, w1) = self.clock.now w in
      let (id, w2) = self.secrets.cluster_id w1 in
      let cluster = requested id owner spec ttl now in
      continue_stays I
        (on_err repository
          (self.repository.try_insert_if_under_quota cluster self.limits.max_clusters_per_user) w2)
        _ (g.insert cluster whole w2 (g.cluster_id w1 (g.now w i))) λ o w i. i

  pub create_stays :
      (owner : ClientId) (spec : ServiceSpec) (ttl : TimeDelta)
      → IsWhole ttl
      → Stays I (create self owner spec ttl)
  unfolding create
  create_stays owner spec ttl whole w i =
      elim (Bool-cases (ltb_ℤ ttl self.limits.min_ttl || ltb_ℤ self.limits.max_ttl ttl)) [
        | inl e ↦ rw e i
        | inr e ↦ rw e (insert_requested_stays owner spec ttl whole w i)
      ]

  pub info_stays : (id : ClusterId) (owner : ClientId) → Stays I (info self id owner)
  unfolding info
  info_stays id owner w i =
      continue_stays I (on_err repository (self.repository.get_owned id owner) w) _
        (g.get_owned id owner w i) λ found w i. i

  pub list_stays : (owner : ClientId) → Stays I (list self owner)
  unfolding list
  list_stays owner w i = g.list_by_owner owner w i

  mark_stays :
      (id : ClusterId) (c : Cluster) (r : Result ClusterError ClusterState)
      → Stays I (mark_deleting self id c r)
  unfolding mark_deleting
  mark_stays id c (ok s) w i =
      continue_stays I (on_err repository (self.repository.update_state id s) w) _
        (g.update_state id s w i) λ _ w i. i
  mark_stays id c (err e) w i = i

  pub request_delete_stays :
      (id : ClusterId) (owner : ClientId) (reason : DeleteReason)
      → Stays I (request_delete self id owner reason)
  unfolding request_delete
  request_delete_stays id owner reason w i =
      continue_stays I (info self id owner w) _ (info_stays id owner w i)
        λ c w i. mark_stays id c _ _ (g.now w i)

  reap_stays : (reason : Option DeleteReason) (c : Cluster) → Stays I (reap self reason c)
  unfolding reap
  reap_stays none c w i = i
  reap_stays (some reason) c w i = request_delete_stays c.id c.owner reason w i

  sweep_stays :
      (now : DateTime) (grace : TimeDelta) (cs : List Cluster) → Stays I (sweep self now grace cs)
  unfolding sweep
  sweep_stays now grace [] w i = i
  sweep_stays now grace (c ∷ cs) w i =
      sweep_stays now grace cs _ (reap_stays (due_for_reaping c.state now grace) c w i)

  sweep_listed_stays :
      (now : DateTime) (grace : TimeDelta) (r : Result RepositoryError (List Cluster))
      → Stays I (sweep_listed self now grace r)
  unfolding sweep_listed
  sweep_listed_stays now grace (ok cs) w i = sweep_stays now grace cs w i
  sweep_listed_stays now grace (err e) w i = i

  pub run_once_stays :
      (deps : TaskDeps W) (grace : TimeDelta)
      → GuardedTasks I deps
      → Stays I (run_once self deps grace)
  unfolding run_once
  run_once_stays deps grace d w i = sweep_listed_stays _ grace _ _ (d.list_all _ (d.now w i))
