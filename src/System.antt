-- ===== src/System.antt =====
-- The program as a whole: the requests that clients make and the background tasks that run between
-- them, as src/http/handlers.rs, src/service/ttl_reaper.rs and src/main.rs start them.
pub mod Guarded
pub mod Allocated
use app_salmon.Base.{ℕ, Option, List, [], ◌∷◌}
use app_salmon.Base.Task.{Task, ◌>>=◌, ◌>>◌, done, ignore}
use app_salmon.Domain.Time.{TimeDelta}
use app_salmon.Domain.Ids.{ClusterId, ClientId}
use app_salmon.Domain.ServiceKind.{ServiceSpec}
use app_salmon.Domain.Cluster.{Cluster, DeleteReason}
use app_salmon.Service.ClusterService.{ClusterService, create, info, list, request_delete}
use app_salmon.Service.Deps.{TaskDeps}
use app_salmon.Service.Reconciliation
use app_salmon.Service.SpawnTask
use app_salmon.Service.SpawnTask.{Cancellation}
use app_salmon.Service.Teardown.{teardown}
use app_salmon.Service.TtlReaper.{run_once}

pub data Command : Type 0 where
  reconcile : Command
  create_cluster : ClientId → ServiceSpec → TimeDelta → Command
  show_cluster : ClusterId → ClientId → Command
  list_clusters : ClientId → Command
  delete_cluster : ClusterId → ClientId → DeleteReason → Command
  spawn_cluster : Cluster → Option (List ℕ) → Command
  teardown_cluster : Cluster → Command
  reap : (failed_grace_period : TimeDelta) → Command

module _ {W : Type 0} (service : ClusterService W) (deps : TaskDeps W)
    (cancel : Cancellation W) where
  abbrev pub perform : Command → Task W (Unit {0})
  perform reconcile = Reconciliation.run deps
  perform (create_cluster owner spec ttl) = ignore (create service owner spec ttl)
  perform (show_cluster id owner) = ignore (info service id owner)
  perform (list_clusters owner) = ignore (list service owner)
  perform (delete_cluster id owner reason) = ignore (request_delete service id owner reason)
  perform (spawn_cluster cluster tar) = SpawnTask.run deps cancel cluster tar
  perform (teardown_cluster cluster) = teardown deps cluster
  perform (reap grace) = run_once service deps grace >>= λ _. done

  unfoldable pub perform_all : List Command → Task W (Unit {0})
  perform_all [] = done
  perform_all (c ∷ cs) = perform c >> perform_all cs
