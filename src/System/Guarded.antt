-- ===== src/System/Guarded.antt =====
-- What it takes for an invariant of the world to survive each primitive step of src/service; the
-- children carry it to the operations.
pub mod Service
pub mod Tasks
pub mod Spawn
use app_salmon.Base.{
  ℕ, String, Option, none, some, List, [], ◌∷◌, map, Bool, Bool-cases, true, false, ◌||◌, Result,
  ok, err, ok_or, map_err, ◌≡◌, refl, Option-cases, Result-cases, inl, inr, if◌then◌else◌,
}
use app_salmon.Base.Int.{ltb_ℤ, ◌+ℤ◌}
use app_salmon.Base.Action.{continue, Action, on_err}
use app_salmon.Base.Task.{Task, ignore}
use app_salmon.Base.Stays.{Stays, continue_stays}
use app_salmon.Domain.Time.{TimeDelta, DateTime}
use app_salmon.Domain.Ids.{ClusterId, ClientId, WorkerUser}
use app_salmon.Domain.ServiceKind.{ServiceSpec, ServiceKind, ConnectionInfo}
use app_salmon.Domain.Cluster.{
  Cluster, ClusterState, DeleteReason, spawning, ready, failed, deleting,
}
use app_salmon.Errors.{ClusterError, RepositoryError, repository, Source}
use app_salmon.Lifecycle.{transition}
use app_salmon.Ports.{PrivilegedCommand, ClusterBackend}
use app_salmon.Service.ClusterService.{
  ClusterService, insert_requested, create, info, list, mark_deleting, request_delete, requested,
}
use app_salmon.Service.Deps.{TaskDeps}
use app_salmon.Service.Reconciliation
use app_salmon.Service.Reconciliation.{
  teardown_marked, note_liveness, check_backend, reconcile_as, reconcile_all, reconcile_listed,
}
use app_salmon.Service.SpawnTask
use app_salmon.Service.SpawnTask.{
  Cancellation, Stop, cancelled, failed_with, adopt_extracted, extract_blocking, adopt_staged,
  adopt_project_tar, unless, awaits, prepare_all, adopt_optional, spawn_as, spawn_with, spawn_on,
  do_spawn, race, write_state, persist_outcome, settle, recheck, conclude,
}
use app_salmon.Service.Teardown.{teardown_backend, wipe_directory, teardown}
use app_salmon.Service.TtlReaper.{reap, sweep, sweep_listed, run_once, due_for_reaping}
use app_salmon.Storage.Persisted.RoundTrip.{IsWhole}
use app_salmon.Tar.{
  Entry, TarValidationError, fix_permissions, unpack_entry, extract_entries, validate_and_extract,
}

-- The steps that the background tasks take.
pub record GuardedTasks {W : Type 0} (I : W → Type 0) (deps : TaskDeps W) : Type 0 where
  pub get_any : (id : ClusterId) → Stays I (deps.repository.get_any id)
  pub list_all : Stays I deps.repository.list_all
  pub update_state :
      (id : ClusterId) (s : ClusterState) → Stays I (deps.repository.update_state id s)
  pub set_worker : (id : ClusterId) (u : WorkerUser) → Stays I (deps.repository.set_worker id u)
  pub delete : (id : ClusterId) → Stays I (deps.repository.delete id)
  pub now : Stays I deps.clock.now
  pub run_as : (u : WorkerUser) (c : PrivilegedCommand) → Stays I (deps.privileged_exec.run_as u c)
  pub spawn :
      (k : ServiceKind) (b : ClusterBackend W)
      → deps.backends k ≡ some b
      → (id : ClusterId) (u : WorkerUser) (slot : ℕ) (s : ServiceSpec)
      → Stays I (b.spawn id u slot s)
  pub backend_teardown :
      (k : ServiceKind) (b : ClusterBackend W)
      → deps.backends k ≡ some b
      → (id : ClusterId) → Stays I (b.teardown id)
  pub is_alive :
      (k : ServiceKind) (b : ClusterBackend W)
      → deps.backends k ≡ some b
      → (id : ClusterId) → Stays I (b.is_alive id)
  pub create_dir_all : (p : String) → Stays I (deps.files.create_dir_all p)
  pub set_permissions : (p : String) (mode : ℕ) → Stays I (deps.files.set_permissions p mode)
  pub remove_dir_all : (p : String) → Stays I (deps.files.remove_dir_all p)
  pub blocking : Stays I deps.files.blocking
  pub unpack_in : (e : Entry) (dest : String) → Stays I (deps.archive.unpack_in e dest)
  pub set_entry_permissions :
      (p : String) (mode : ℕ) → Stays I (deps.archive.set_permissions p mode)

-- The steps that the service takes; the quota of an insert is the configured one.
pub record GuardedService {W : Type 0} (I : W → Type 0) (self : ClusterService W) : Type 0 where
  pub insert :
      (c : Cluster)
      → IsWhole c.requested_ttl
      → Stays I (self.repository.try_insert_if_under_quota c self.limits.max_clusters_per_user)
  pub get_owned : (id : ClusterId) (owner : ClientId) → Stays I (self.repository.get_owned id owner)
  pub list_by_owner : (owner : ClientId) → Stays I (self.repository.list_by_owner owner)
  pub update_state :
      (id : ClusterId) (s : ClusterState) → Stays I (self.repository.update_state id s)
  pub now : Stays I self.clock.now
  pub cluster_id : Stays I self.secrets.cluster_id
