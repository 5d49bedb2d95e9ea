-- ===== src/Service/Contract.antt =====
-- What the tasks of src/service rely on: the repository keeps its contract, and the other ports
-- leave its rows alone.
use app_salmon.Base.{ℕ, ◌≡◌, String, some, List}
use app_salmon.Base.Task.{Keeps}
use app_salmon.Domain.Ids.{ClusterId, WorkerUser}
use app_salmon.Domain.ServiceKind.{ServiceKind, ServiceSpec}
use app_salmon.Domain.Cluster.{Cluster}
use app_salmon.Ports.{ClusterBackend, PrivilegedCommand}
use app_salmon.Service.Deps.{TaskDeps}
use app_salmon.Storage.Port.{IsRepository}
use app_salmon.Tar.{Entry}

pub record IsTaskDeps {W : Type 0} (Holds : W → List Cluster → Type 0) (deps : TaskDeps W)
    : Type 0 where
  pub stores : IsRepository Holds deps.repository
  pub clock_keeps : Keeps Holds deps.clock.now
  pub run_as_keeps :
      (u : WorkerUser) (c : PrivilegedCommand) → Keeps Holds (deps.privileged_exec.run_as u c)
  pub spawn_keeps :
      (k : ServiceKind) (b : ClusterBackend W)
      → deps.backends k ≡ some b
      → (id : ClusterId) (u : WorkerUser) (slot : ℕ) (s : ServiceSpec)
      → Keeps Holds (b.spawn id u slot s)
  pub teardown_keeps :
      (k : ServiceKind) (b : ClusterBackend W)
      → deps.backends k ≡ some b
      → (id : ClusterId) → Keeps Holds (b.teardown id)
  pub is_alive_keeps :
      (k : ServiceKind) (b : ClusterBackend W)
      → deps.backends k ≡ some b
      → (id : ClusterId) → Keeps Holds (b.is_alive id)
  pub create_dir_keeps : (p : String) → Keeps Holds (deps.files.create_dir_all p)
  pub permissions_keep : (p : String) (mode : ℕ) → Keeps Holds (deps.files.set_permissions p mode)
  pub remove_dir_keeps : (p : String) → Keeps Holds (deps.files.remove_dir_all p)
  pub blocking_keeps : Keeps Holds deps.files.blocking
  pub unpack_keeps : (e : Entry) (dest : String) → Keeps Holds (deps.archive.unpack_in e dest)
  pub entry_permissions_keep :
      (p : String) (mode : ℕ) → Keeps Holds (deps.archive.set_permissions p mode)
