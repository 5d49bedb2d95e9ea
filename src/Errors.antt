-- ===== src/Errors.antt =====
-- The errors of the ports and of the lifecycle operations: src/ports/repository.rs,
-- src/ports/container_runtime.rs, src/ports/privileged_exec.rs, src/client_workers.rs and
-- src/domain/cluster.rs. An error that another library returned is kept as the text that it
-- prints, `Source`.
use app_salmon.Base.{ℕ, String, Option}
use app_salmon.Base.Int.{ℤ}
use app_salmon.Domain.Ids.{ClusterId, ClientId, WorkerUser}
use app_salmon.Domain.Cluster.{ClusterState, ClusterEvent}

abbrev pub Source : Type 0
Source = String

pub data RepositoryError : Type 0 where
  db : Source → RepositoryError
  serde : Source → RepositoryError
  migration : String → RepositoryError
  task_join : String → RepositoryError
  corrupt_row : String → RepositoryError

abbrev pub ContainerHandle : Type 0
ContainerHandle = String

abbrev pub NetworkHandle : Type 0
NetworkHandle = String

pub data DockerError : Type 0 where
  connect : (socket : String) (source : Source) → DockerError
  create_container : (source : Source) → DockerError
  start_container : (container : ContainerHandle) (source : Source) → DockerError
  inspect_container : (container : ContainerHandle) (source : Source) → DockerError
  remove_container : (container : ContainerHandle) (source : Source) → DockerError
  health_check_timeout : (container : ContainerHandle) (waited_secs : ℕ) → DockerError
  container_not_healthy : (container : ContainerHandle) (exit_code : Option ℤ) → DockerError
  create_network : (name : String) (source : Source) → DockerError
  remove_network : (network : NetworkHandle) (source : Source) → DockerError

pub data PrivilegedExecError : Type 0 where
  spawn : (worker : WorkerUser) (source : Source) → PrivilegedExecError
  non_zero_exit : (worker : WorkerUser) (status : ℤ) (stderr : String) → PrivilegedExecError
  timeout : (worker : WorkerUser) (waited_secs : ℕ) → PrivilegedExecError

pub data ClientWorkerError : Type 0 where
  unknown_client : (client : ClientId) → ClientWorkerError
  prepare : PrivilegedExecError → ClientWorkerError
  wipe : PrivilegedExecError → ClientWorkerError

pub data ClusterError : Type 0 where
  ttl_out_of_bounds : (requested_secs min_secs max_secs : ℤ) → ClusterError
  quota_exceeded : (owner : ClientId) (count limit : ℕ) → ClusterError
  not_found : ClusterId → ClusterError
  invalid_transition : (from : ClusterState) (event : ClusterEvent) → ClusterError
  client_worker : ClientWorkerError → ClusterError
  docker : DockerError → ClusterError
  repository : RepositoryError → ClusterError
  backend_spawn_failed : String → ClusterError
