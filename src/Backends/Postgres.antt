-- ===== src/Backends/Postgres.antt =====
-- src/backends/postgres.rs. The text of an id is the `ulid` crate's, and the client of the database
-- is `tokio_postgres`: parameters.
pub mod Laws
use Prim.Native.String.{◌++◌}
use app_salmon.Base.{
  ℕ, String, Option, none, some, List, [], ◌∷◌, Bool, true, false, Result, ok, err, ok_or,
  if◌then◌else◌,
}
use app_salmon.Base.Action.{Action, ◌>>=◌, ◌>>◌, pure, lift, on_err}
use app_salmon.Base.Paths.{decimal}
use app_salmon.Base.Task.{infallible}
use app_salmon.Domain.Ids.{ClusterId, WorkerUser}
use app_salmon.Domain.ServiceKind.{ServiceKind, ServiceSpec, ConnectionInfo, of_postgres, postgres}
use app_salmon.Errors.{Source, ContainerHandle, ClusterError, docker, backend_spawn_failed}
use app_salmon.Ports.{SecretGenerator, ClusterBackend}
use app_salmon.Workers.{worker_data_dir}
use app_salmon.Containers.{
  Duration, from_secs, ContainerSpec, ContainerRuntime, ContainerStatus, running, exited, missing,
  ephemeral, runc,
}
use app_salmon.Backends.HealthWait.{Timer, wait_until_healthy}

abbrev pub container_port : ℕ
container_port = 5432

abbrev pub db_user : String
db_user = "app_salmon"

abbrev pub db_name : String
db_name = "app_salmon"

abbrev pub password_len : ℕ
password_len = 32

abbrev pub cluster_id_label : String
cluster_id_label = "app_salmon.cluster_id"

abbrev healthcheck_interval : Duration
healthcheck_interval = from_secs 1

abbrev healthcheck_probe_timeout : Duration
healthcheck_probe_timeout = from_secs 2

abbrev healthcheck_retries : ℕ
healthcheck_retries = 3

-- A client is the number of its connection.
pub record Database (W : Type 0) : Type 0 where
  pub connect : (config : String) → Action W Source ℕ
  pub execute : (client : ℕ) (statement : String) → Action W Source (Unit {0})

pub record PostgresBackend (W : Type 0) : Type 0 where
  pub container_runtime : ContainerRuntime W
  pub secrets : SecretGenerator W
  pub image : String
  pub worker_data_dir_base : String
  pub health_check_timeout : Duration

module _ (id_text : ClusterId → String) where
  unfoldable pub container_name : ClusterId → String
  container_name cluster_id = "app-salmon-" ++ id_text cluster_id

module _ {W : Type 0} (id_text : ClusterId → String) (self : PostgresBackend W) where
  unfoldable pub container_spec : ClusterId → WorkerUser → ℕ → String → ContainerSpec
  container_spec cluster_id worker slot password = record {
    name = container_name id_text cluster_id;
    image = self.image;
    env =
        ("POSTGRES_USER", db_user)
        ∷ ("POSTGRES_DB", db_name)
        ∷ ("POSTGRES_PASSWORD", password)
        ∷ [];
    labels = (cluster_id_label, id_text cluster_id) ∷ [];
    port_publish = ephemeral;
    container_port = container_port;
    bind_mounts =
        record {
          host_path = worker_data_dir self.worker_data_dir_base worker slot;
          container_path = "/var/lib/postgresql/data";
        }
        ∷ [];
    run_as = some (worker.uid, worker.gid);
    health_check = some (record {
      test = "CMD-SHELL" ∷ ("pg_isready -U " ++ (db_user ++ (" -d " ++ db_name))) ∷ [];
      interval = healthcheck_interval;
      timeout = healthcheck_probe_timeout;
      retries = healthcheck_retries;
    });
    runtime = runc;
    network = none;
    command = none;
  }

module _ {W : Type 0} (database : Database W) where
  unfoldable pub connect : ℕ → String → Action W Source ℕ
  connect host_port password = database.connect (
      "host=127.0.0.1 port="
      ++ (decimal host_port
          ++ (" user="
              ++ (db_user
                  ++ (" password="
                      ++ (password ++ (" dbname=" ++ (db_name ++ " connect_timeout=2"))))))))

  unfoldable pub enable_pgvector : Bool → ℕ → String → Action W ClusterError (Unit {0})
  unfolding connect
  enable_pgvector false host_port password = pure tt
  enable_pgvector true host_port password = do
    client ←
        on_err (λ _. backend_spawn_failed "failed to connect to enable pgvector")
          (connect host_port password)
    on_err (λ _. backend_spawn_failed "failed to enable pgvector extension")
        (database.execute client "CREATE EXTENSION IF NOT EXISTS vector")

module _ {W : Type 0} (self : PostgresBackend W) (timer : Timer W) where
  unfoldable pub wait_until_ready : ContainerHandle → Action W ClusterError ℕ
  wait_until_ready handle = do
    port ← wait_until_healthy self.container_runtime timer handle self.health_check_timeout true
    lift (ok_or (backend_spawn_failed "container reported healthy but published no port") port)

module _ {W : Type 0} (id_text : ClusterId → String) (self : PostgresBackend W) (timer : Timer W)
    (database : Database W) where
  abbrev pub connection_info : ℕ → String → ConnectionInfo
  connection_info host_port password = of_postgres (record {
    host = "127.0.0.1";
    port = host_port;
    dbname = db_name;
    user = db_user;
    password = record { expose = password };
  })

  unfoldable pub spawn_with :
      ClusterId → WorkerUser → ℕ → ServiceSpec → String → Action W ClusterError ConnectionInfo
  spawn_with cluster_id worker slot service password = do
    handle ← on_err docker (
        self.container_runtime.create_and_start
          (container_spec id_text self cluster_id worker slot password))
    host_port ← wait_until_ready self timer handle
    enable_pgvector database service.pgvector host_port password
    pure (connection_info host_port password)

  unfoldable pub spawn :
      ClusterId → WorkerUser → ℕ → ServiceSpec → Action W ClusterError ConnectionInfo
  unfolding spawn_with
  spawn cluster_id worker slot service = do
    password ← infallible (self.secrets.db_password password_len)
    spawn_with cluster_id worker slot service password

  unfoldable pub teardown : ClusterId → Action W ClusterError (Unit {0})
  teardown cluster_id =
      on_err docker (self.container_runtime.stop_and_remove (container_name id_text cluster_id))

  abbrev pub is_running : ContainerStatus → Bool
  is_running (running _ _) = true
  is_running (exited _) = false
  is_running missing = false

  unfoldable pub is_alive : ClusterId → Action W ClusterError Bool
  is_alive cluster_id = do
    status ← on_err docker (self.container_runtime.inspect (container_name id_text cluster_id))
    pure (is_running status)

  -- The backend as the tasks see it.
  unfoldable pub backend : ClusterBackend W
  backend = record {
    kind = postgres;
    worker_subdirs = [];
    spawn = spawn;
    teardown = teardown;
    is_alive = is_alive;
  }
