-- ===== src/Ports.antt =====
-- The other ports: src/ports/privileged_exec.rs, src/ports/clock.rs, src/ports/secrets.rs and the
-- trait of src/backends/mod.rs. `Files` is what the program uses of `tokio::fs` and of
-- `spawn_blocking`.
pub mod Filesystem
use app_salmon.Base.{ℕ, String, List, Bool}
use app_salmon.Base.Action.{Action}
use app_salmon.Base.Task.{Task}
use app_salmon.Domain.Time.{DateTime}
use app_salmon.Domain.Ids.{ClusterId, WorkerUser}
use app_salmon.Domain.ServiceKind.{ServiceKind, ServiceSpec, ConnectionInfo}
use app_salmon.Errors.{Source, PrivilegedExecError, ClusterError}

pub data PrivilegedCommand : Type 0 where
  prepare_worker_dir : (path : String) → PrivilegedCommand
  wipe_worker_dir : (path : String) → PrivilegedCommand
  adopt_staged_tree : (staging_path dest_path : String) → PrivilegedCommand

pub record CommandOutput : Type 0 where
  pub stdout : String
  pub stderr : String

pub record PrivilegedExecutor (W : Type 0) : Type 0 where
  pub run_as : WorkerUser → PrivilegedCommand → Action W PrivilegedExecError CommandOutput

pub record Clock (W : Type 0) : Type 0 where
  pub now : Task W DateTime

pub record SecretGenerator (W : Type 0) : Type 0 where
  pub cluster_id : Task W ClusterId
  pub db_password : (len : ℕ) → Task W String

pub record ClusterBackend (W : Type 0) : Type 0 where
  pub kind : ServiceKind
  pub worker_subdirs : List String
  pub spawn : ClusterId → WorkerUser → ℕ → ServiceSpec → Action W ClusterError ConnectionInfo
  pub teardown : ClusterId → Action W ClusterError (Unit {0})
  pub is_alive : ClusterId → Action W ClusterError Bool

pub record Files (W : Type 0) : Type 0 where
  pub create_dir_all : String → Action W Source (Unit {0})
  pub set_permissions : String → ℕ → Action W Source (Unit {0})
  pub remove_dir_all : String → Action W Source (Unit {0})
  -- The way into a blocking task, and the join error that stands for its panic.
  pub blocking : Action W Source (Unit {0})
