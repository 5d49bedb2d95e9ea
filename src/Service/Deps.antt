-- ===== src/Service/Deps.antt =====
-- `TaskDeps` of src/service/deps.rs. The map from a kind of service to its backend is a function;
-- what the tasks use of the file system and of the `tar` crate stands beside the ports.
use app_salmon.Base.{String, Option}
use app_salmon.Domain.ServiceKind.{ServiceKind}
use app_salmon.Ports.{PrivilegedExecutor, Clock, ClusterBackend, Files}
use app_salmon.Storage.Port.{ClusterRepository}
use app_salmon.Tar.{TarLimits, Archive}
use app_salmon.Workers.{ClientWorkers}

pub record TaskDeps (W : Type 0) : Type 0 where
  pub repository : ClusterRepository W
  pub client_workers : ClientWorkers
  pub privileged_exec : PrivilegedExecutor W
  pub backends : ServiceKind → Option (ClusterBackend W)
  pub clock : Clock W
  pub worker_data_dir_base : String
  pub tar_staging_dir_base : String
  pub tar_limits : TarLimits
  pub files : Files W
  pub archive : Archive W
