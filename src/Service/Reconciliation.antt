-- ===== src/Service/Reconciliation.antt =====
-- src/service/reconciliation.rs.
pub mod Laws
use app_salmon.Base.{Option, none, some, List, [], ◌∷◌, Bool, true, false, Result, ok, err}
use app_salmon.Base.Task.{Task, ◌>>=◌, ◌>>◌, done, ignore}
use app_salmon.Domain.Cluster.{
  ClusterState, spawning, ready, failed, deleting, Cluster, admin_forced,
}
use app_salmon.Errors.{RepositoryError, ClusterError}
use app_salmon.Ports.{ClusterBackend}
use app_salmon.Service.Deps.{TaskDeps}
use app_salmon.Service.Teardown.{teardown}

module _ {W : Type 0} (deps : TaskDeps W) where
  -- The row of a stuck spawn is torn down once it is marked, and left for a later pass otherwise.
  unfoldable pub teardown_marked : Cluster → Result RepositoryError (Unit {0}) → Task W (Unit {0})
  teardown_marked deleting_cluster (ok _) = teardown deps deleting_cluster
  teardown_marked deleting_cluster (err _) = done

  unfoldable pub note_liveness : Cluster → Result ClusterError Bool → Task W (Unit {0})
  note_liveness cluster (ok true) = done
  note_liveness cluster (ok false) = do
    failed_at ← deps.clock.now
    ignore (deps.repository.update_state cluster.id (failed failed_at "lost after restart"))
  note_liveness cluster (err _) = done

  unfoldable pub check_backend : Option (ClusterBackend W) → Cluster → Task W (Unit {0})
  check_backend none cluster = done
  check_backend (some backend) cluster = do
    alive ← backend.is_alive cluster.id
    note_liveness cluster alive

  unfoldable pub reconcile_as : ClusterState → Cluster → Task W (Unit {0})
  reconcile_as (spawning _) cluster = do
    now ← deps.clock.now
    marked ← deps.repository.update_state cluster.id (deleting now admin_forced)
    teardown_marked (record cluster { state = deleting now admin_forced }) marked
  reconcile_as (ready _ _ _) cluster = check_backend (deps.backends cluster.service.kind) cluster
  reconcile_as (deleting _ _) cluster = teardown deps cluster
  reconcile_as (failed _ _) cluster = done

  unfoldable pub reconcile_all : List Cluster → Task W (Unit {0})
  reconcile_all [] = done
  reconcile_all (cluster ∷ rest) = do reconcile_as cluster.state cluster; reconcile_all rest

  unfoldable pub reconcile_listed : Result RepositoryError (List Cluster) → Task W (Unit {0})
  reconcile_listed (ok rows) = reconcile_all rows
  reconcile_listed (err _) = done

  unfoldable pub run : Task W (Unit {0})
  run = do rows ← deps.repository.list_all; reconcile_listed rows
