-- ===== src/Service/SpawnTask.antt =====
-- src/service/spawn_task.rs. A spawn that is cancelled stops at one of its `.await`s, so
-- `do_spawn` asks before each of them whether the token has cancelled it there; a step that is
-- dropped half way is the change that this question makes to the world.
pub mod Laws
use app_salmon.Base.{
  ℕ, String, Option, none, some, List, [], ◌∷◌, map, Bool, true, false, Result, ok, err, map_err,
  ok_or,
}
use app_salmon.Base.Int.{◌+ℤ◌}
use app_salmon.Base.Action.{Action, ◌>>=◌, ◌>>◌, pure, lift, on_err}
use app_salmon.Base.Task
use app_salmon.Base.Task.{Task, give, done, ignore, infallible}
use app_salmon.Base.Paths.{join}
use app_salmon.Domain.Ids.{WorkerUser}
use app_salmon.Domain.ServiceKind.{ConnectionInfo}
use app_salmon.Domain.Cluster.{
  ClusterState, deleting, Cluster, ClusterEvent, spawn_succeeded, spawn_failed,
}
use app_salmon.Errors.{
  Source, RepositoryError, ClusterError, DockerError, docker, client_worker, repository, prepare,
  health_check_timeout, container_not_healthy, backend_spawn_failed,
}
use app_salmon.Lifecycle.{transition}
use app_salmon.Ports.{ClusterBackend, prepare_worker_dir, adopt_staged_tree}
use app_salmon.Service.Deps.{TaskDeps}
use app_salmon.Service.Teardown.{teardown}
use app_salmon.Tar.{
  TarValidationError, disallowed_entry_type, entry_too_large, total_too_large, unsafe_entry, read,
  extract, validate_and_extract,
}
use app_salmon.Workers
use app_salmon.Workers.{worker_data_dir}

abbrev project_subdir : String
project_subdir = "project"

unfoldable pub sanitize_tar_error : TarValidationError → String
sanitize_tar_error (disallowed_entry_type _ _ _) =
    "project_tar contains an entry type that isn't allowed (only regular files and directories are)"
sanitize_tar_error (entry_too_large _ _ _ _) = "project_tar exceeds the configured size limit"
sanitize_tar_error (total_too_large _) = "project_tar exceeds the configured size limit"
sanitize_tar_error (unsafe_entry _ _) = "project_tar contains an entry with an unsafe path"
sanitize_tar_error (read _ _) = "project_tar could not be read or extracted"
sanitize_tar_error (extract _ _ _) = "project_tar could not be read or extracted"

unfoldable pub sanitize : ClusterError → String
sanitize (docker (health_check_timeout _ _)) = "container did not become healthy in time"
sanitize (docker (container_not_healthy _ _)) = "container exited unexpectedly during startup"
sanitize (docker _) = "container creation failed"
sanitize (client_worker _) = "worker preparation failed"
sanitize (repository _) = "internal storage error"
sanitize (backend_spawn_failed message) = message
sanitize _ = "spawn failed"

module _ {W : Type 0} (deps : TaskDeps W) where
  -- What the extraction's end means for the adoption, before the staging directory is removed.
  unfoldable pub adopt_extracted :
      WorkerUser
      → String
      → String
      → Result Source (Result TarValidationError (Unit {0}))
      → Action W ClusterError (Unit {0})
  adopt_extracted worker staging dest (ok (ok _)) = do
    output ←
        on_err (λ e. client_worker (prepare e))
          (deps.privileged_exec.run_as worker (adopt_staged_tree staging dest))
    pure tt
  adopt_extracted worker staging dest (ok (err validation_error)) =
      lift (err (backend_spawn_failed (sanitize_tar_error validation_error)))
  adopt_extracted worker staging dest (err _) =
      lift (err (backend_spawn_failed "internal error while extracting project_tar"))

  -- The blocking task that validates and extracts the archive.
  unfoldable pub extract_blocking :
      String → List ℕ → Task W (Result Source (Result TarValidationError (Unit {0})))
  extract_blocking staging tar_bytes =
      deps.files.blocking
      >> infallible (validate_and_extract deps.archive deps.tar_limits staging tar_bytes)

  unfoldable pub adopt_staged :
      WorkerUser → String → String → List ℕ → Action W ClusterError (Unit {0})
  adopt_staged worker staging dest tar_bytes =
      Task.◌>>=◌ (extract_blocking staging tar_bytes) λ extract_result.
        Task.◌>>=◌ (adopt_extracted worker staging dest extract_result)
          λ outcome. Task.◌>>◌ (ignore (deps.files.remove_dir_all staging)) (give outcome)

  abbrev pub permit : String → Action W ClusterError (Unit {0})
  permit ancestor =
      on_err (λ _. backend_spawn_failed "failed to prepare staging directory permissions")
        (deps.files.set_permissions ancestor 493)

  unfoldable pub adopt_project_tar :
      WorkerUser → ℕ → String → List ℕ → Action W ClusterError (Unit {0})
  adopt_project_tar worker slot dest tar_bytes = do
    let staging = worker_data_dir deps.tar_staging_dir_base worker slot
    on_err (λ _. backend_spawn_failed "failed to prepare staging directory")
        (deps.files.create_dir_all staging)
    permit (join deps.tar_staging_dir_base worker.name)
    permit staging
    adopt_staged worker staging dest tar_bytes

-- Why `do_spawn` stopped without a connection.
pub data Stop : Type 0 where
  cancelled : Stop
  failed_with : ClusterError → Stop

-- `CancellationToken`, as `select!` consults it.
pub record Cancellation (W : Type 0) : Type 0 where
  pub interrupted : Task W Bool

module _ {W : Type 0} (deps : TaskDeps W) (cancel : Cancellation W) where
  unfoldable pub unless : {A : Type 0} → Action W ClusterError A → Bool → Action W Stop A
  unless m true = lift (err cancelled)
  unless m false = on_err failed_with m

  -- One `.await` of a function that the token may cancel.
  unfoldable pub awaits : {A : Type 0} → Action W ClusterError A → Action W Stop A
  awaits m = infallible cancel.interrupted >>= unless m

  unfoldable pub prepare_all : WorkerUser → List String → Action W Stop (Unit {0})
  prepare_all worker [] = pure tt
  prepare_all worker (target ∷ rest) = do
    output ← awaits (
        on_err (λ e. client_worker (prepare e))
          (deps.privileged_exec.run_as worker (prepare_worker_dir target)))
    prepare_all worker rest

  unfoldable pub adopt_optional :
      WorkerUser → ℕ → String → Option (List ℕ) → Action W Stop (Unit {0})
  adopt_optional worker slot base none = pure tt
  adopt_optional worker slot base (some tar_bytes) =
      awaits (adopt_project_tar deps worker slot (join base project_subdir) tar_bytes)

  abbrev pub prepare_targets : String → List String → List String
  prepare_targets base [] = base ∷ []
  prepare_targets base (s ∷ ss) = map (join base) (s ∷ ss)

  -- The rest of `do_spawn`, once the cluster has its worker.
  unfoldable pub spawn_as :
      ClusterBackend W → WorkerUser → Cluster → Option (List ℕ) → Action W Stop ConnectionInfo
  spawn_as backend worker cluster project_tar = do
    awaits (on_err repository (deps.repository.set_worker cluster.id worker))
    let base = worker_data_dir deps.worker_data_dir_base worker cluster.slot
    prepare_all worker (prepare_targets base backend.worker_subdirs)
    adopt_optional worker cluster.slot base project_tar
    awaits (backend.spawn cluster.id worker cluster.slot cluster.service)

  -- The second component is the caller's cluster as `do_spawn` has left it.
  unfoldable pub spawn_with :
      Cluster
      → Option (List ℕ)
      → ClusterBackend W
      → Result ClusterError WorkerUser
      → Task W (Result Stop ConnectionInfo × Cluster)
  spawn_with cluster project_tar backend (err e) = give (err (failed_with e), cluster)
  spawn_with cluster project_tar backend (ok worker) =
      Task.◌>>=◌ (spawn_as backend worker (record cluster { worker = some worker }) project_tar)
        λ result. give (result, record cluster { worker = some worker })

  unfoldable pub spawn_on :
      Cluster
      → Option (List ℕ)
      → Option (ClusterBackend W)
      → Task W (Result Stop ConnectionInfo × Cluster)
  spawn_on cluster project_tar none = give (
    err (failed_with (backend_spawn_failed "no backend registered for this service kind")),
    cluster,
  )
  spawn_on cluster project_tar (some backend) =
      spawn_with cluster project_tar backend
        (map_err client_worker (Workers.get deps.client_workers cluster.owner))

  unfoldable pub do_spawn :
      Cluster → Option (List ℕ) → Task W (Result Stop ConnectionInfo × Cluster)
  do_spawn cluster project_tar = spawn_on cluster project_tar (deps.backends cluster.service.kind)

  -- `select!` is biased: it looks at the token before it polls `do_spawn` for the first time.
  unfoldable pub race :
      Cluster → Option (List ℕ) → Bool → Task W (Result Stop ConnectionInfo × Cluster)
  race cluster project_tar true = give (err cancelled, cluster)
  race cluster project_tar false = do_spawn cluster project_tar

module _ {W : Type 0} (deps : TaskDeps W) where
  unfoldable pub write_state : Cluster → Result ClusterError ClusterState → Task W (Unit {0})
  write_state cluster (ok state) = ignore (deps.repository.update_state cluster.id state)
  write_state cluster (err _) = done

  unfoldable pub persist_outcome :
      Cluster → ClusterState → Result ClusterError ConnectionInfo → Task W (Unit {0})
  persist_outcome cluster current (ok connection) = Task.◌>>=◌ deps.clock.now λ ready_at.
      write_state cluster (
        transition current
          (spawn_succeeded ready_at (ready_at +ℤ cluster.requested_ttl) connection))
  persist_outcome cluster current (err e) =
      Task.◌>>=◌ deps.clock.now
        λ failed_at. write_state cluster (transition current (spawn_failed failed_at (sanitize e)))

  unfoldable pub settle :
      Cluster → Result ClusterError ConnectionInfo → ClusterState → Task W (Unit {0})
  settle cluster result (deleting _ _) = teardown deps cluster
  settle cluster result current = persist_outcome cluster current result

  unfoldable pub recheck :
      Cluster
      → Result ClusterError ConnectionInfo
      → Result RepositoryError (Option Cluster)
      → Task W (Unit {0})
  recheck cluster result (ok (some current)) = settle cluster result current.state
  recheck cluster result (ok none) = teardown deps cluster
  recheck cluster result (err _) = settle cluster result cluster.state

  unfoldable pub conclude : Result Stop ConnectionInfo × Cluster → Task W (Unit {0})
  conclude (err cancelled, cluster) = teardown deps cluster
  conclude (err (failed_with e), cluster) =
      Task.◌>>=◌ (deps.repository.get_any cluster.id) (recheck cluster (err e))
  conclude (ok connection, cluster) =
      Task.◌>>=◌ (deps.repository.get_any cluster.id) (recheck cluster (ok connection))

  unfoldable pub run : Cancellation W → Cluster → Option (List ℕ) → Task W (Unit {0})
  run cancel cluster project_tar =
      Task.◌>>=◌ cancel.interrupted
        λ stopped. Task.◌>>=◌ (race deps cancel cluster project_tar stopped) conclude
