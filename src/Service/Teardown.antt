-- ===== src/Service/Teardown.antt =====
-- src/service/teardown_task.rs.
pub mod Laws
use app_salmon.Base.{Option, none, some}
use app_salmon.Base.Task.{Task, ◌>>=◌, ◌>>◌, done, ignore}
use app_salmon.Domain.Ids.{WorkerUser}
use app_salmon.Domain.Cluster.{Cluster}
use app_salmon.Ports.{ClusterBackend, wipe_worker_dir}
use app_salmon.Service.Deps.{TaskDeps}
use app_salmon.Workers.{worker_data_dir}

module _ {W : Type 0} (deps : TaskDeps W) where
  unfoldable pub teardown_backend : Option (ClusterBackend W) → Cluster → Task W (Unit {0})
  teardown_backend none cluster = done
  teardown_backend (some backend) cluster = ignore (backend.teardown cluster.id)

  unfoldable pub wipe_directory : Option WorkerUser → Cluster → Task W (Unit {0})
  wipe_directory none cluster = done
  wipe_directory (some worker) cluster = ignore (
      deps.privileged_exec.run_as worker
        (wipe_worker_dir (worker_data_dir deps.worker_data_dir_base worker cluster.slot)))

  unfoldable pub teardown : Cluster → Task W (Unit {0})
  teardown cluster = do
    teardown_backend (deps.backends cluster.service.kind) cluster
    wipe_directory cluster.worker cluster
    ignore (deps.repository.delete cluster.id)
