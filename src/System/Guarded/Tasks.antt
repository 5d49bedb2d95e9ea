-- ===== src/System/Guarded/Tasks.antt =====
-- An invariant that the primitive steps keep is kept by src/service/teardown_task.rs and
-- src/service/reconciliation.rs.
use app_salmon.System.Guarded.{GuardedTasks}
use app_salmon.Base.{
  Option, none, some, List, [], ◌∷◌, Bool, true, false, Result, ok, err, ◌≡◌, refl,
}
use app_salmon.Base.Stays.{Stays}
use app_salmon.Domain.Ids.{WorkerUser}
use app_salmon.Domain.ServiceKind.{ServiceKind}
use app_salmon.Domain.Cluster.{Cluster, ClusterState, spawning, ready, failed, deleting}
use app_salmon.Errors.{ClusterError, RepositoryError}
use app_salmon.Ports.{ClusterBackend}
use app_salmon.Service.Deps.{TaskDeps}
use app_salmon.Service.Reconciliation
use app_salmon.Service.Reconciliation.{
  teardown_marked, note_liveness, check_backend, reconcile_as, reconcile_all, reconcile_listed,
}
use app_salmon.Service.Teardown.{teardown_backend, wipe_directory, teardown}

module _ {W : Type 0} {I : W → Type 0} (deps : TaskDeps W) (g : GuardedTasks I deps) where
  teardown_backend_stays :
      (k : ServiceKind) (c : Cluster) (b : Option (ClusterBackend W))
      → deps.backends k ≡ b
      → Stays I (teardown_backend deps b c)
  unfolding teardown_backend
  teardown_backend_stays k c none e w i = i
  teardown_backend_stays k c (some b) e w i = g.backend_teardown k b e c.id w i

  wipe_directory_stays : (u : Option WorkerUser) (c : Cluster) → Stays I (wipe_directory deps u c)
  unfolding wipe_directory
  wipe_directory_stays none c w i = i
  wipe_directory_stays (some u) c w i = g.run_as u _ w i

  pub teardown_stays : (c : Cluster) → Stays I (teardown deps c)
  unfolding teardown
  teardown_stays c w i =
      g.delete c.id _
        (wipe_directory_stays c.worker c _ (teardown_backend_stays c.service.kind c _ refl w i))

  teardown_marked_stays :
      (c : Cluster) (r : Result RepositoryError (Unit {0})) → Stays I (teardown_marked deps c r)
  unfolding teardown_marked
  teardown_marked_stays c (ok _) w i = teardown_stays c w i
  teardown_marked_stays c (err _) w i = i

  note_liveness_stays :
      (c : Cluster) (r : Result ClusterError Bool) → Stays I (note_liveness deps c r)
  unfolding note_liveness
  note_liveness_stays c (ok true) w i = i
  note_liveness_stays c (ok false) w i = g.update_state c.id _ _ (g.now w i)
  note_liveness_stays c (err _) w i = i

  check_backend_stays :
      (k : ServiceKind) (c : Cluster) (b : Option (ClusterBackend W))
      → deps.backends k ≡ b
      → Stays I (check_backend deps b c)
  unfolding check_backend
  check_backend_stays k c none e w i = i
  check_backend_stays k c (some b) e w i = note_liveness_stays c _ _ (g.is_alive k b e c.id w i)

  reconcile_as_stays : (s : ClusterState) (c : Cluster) → Stays I (reconcile_as deps s c)
  unfolding reconcile_as
  reconcile_as_stays (spawning _) c w i =
      teardown_marked_stays _ _ _ (g.update_state c.id _ _ (g.now w i))
  reconcile_as_stays (ready _ _ _) c w i = check_backend_stays c.service.kind c _ refl w i
  reconcile_as_stays (deleting _ _) c w i = teardown_stays c w i
  reconcile_as_stays (failed _ _) c w i = i

  reconcile_all_stays : (cs : List Cluster) → Stays I (reconcile_all deps cs)
  unfolding reconcile_all
  reconcile_all_stays [] w i = i
  reconcile_all_stays (c ∷ cs) w i = reconcile_all_stays cs _ (reconcile_as_stays c.state c w i)

  reconcile_listed_stays :
      (r : Result RepositoryError (List Cluster)) → Stays I (reconcile_listed deps r)
  unfolding reconcile_listed
  reconcile_listed_stays (ok cs) w i = reconcile_all_stays cs w i
  reconcile_listed_stays (err e) w i = i

  pub reconciliation_stays : Stays I (Reconciliation.run deps)
  unfolding Reconciliation.run
  reconciliation_stays w i = reconcile_listed_stays _ _ (g.list_all w i)
