-- ===== src/Backends/Supabase.antt =====
-- src/backends/supabase.rs. The signing of a token is the `jsonwebtoken` crate's, and the files are
-- tokio's: parameters.
pub mod Specs
pub mod Config
pub mod Laws
pub mod Isolated
pub mod Spawned
pub mod Gone
use Prim.Native.String.{◌++◌}
use app_salmon.Base.{
  ℕ, String, Option, none, some, List, [], ◌∷◌, Bool, true, false, Result, ok, err, ok_or, map_err,
  text_eq, if◌then◌else◌,
}
use app_salmon.Base.Int.{ℤ, pos, ◌+ℤ◌}
use app_salmon.Base.Action.{Action, ◌>>=◌, ◌>>◌, pure, lift, on_err}
use app_salmon.Base.Paths.{join, decimal}
use app_salmon.Base.Task.{Task, infallible, ignore}
use app_salmon.Domain.Ids.{ClusterId, WorkerUser}
use app_salmon.Domain.ServiceKind.{ServiceSpec, ConnectionInfo, of_supabase, supabase}
use app_salmon.Errors.{Source, ClusterError, docker, backend_spawn_failed}
use app_salmon.Ports.{SecretGenerator, ClusterBackend}
use app_salmon.Workers.{worker_data_dir}
use app_salmon.Containers.{
  Duration, ContainerSpec, ContainerRuntime, ContainerStatus, running, exited, missing, HealthCheck,
}
use app_salmon.Backends.HealthWait.{Timer, wait_until_healthy}
use Specs.{Images, Inputs, container_name, network_name, build_specs, db_user, db_name}
use Config.{kong_declarative_config, roles_sql, jwt_sql}

abbrev pub db_password_len : ℕ
db_password_len = 32

abbrev pub jwt_secret_len : ℕ
jwt_secret_len = 40

abbrev jwt_validity_secs : ℤ
jwt_validity_secs = pos 315360000

abbrev project_subdir : String
project_subdir = "project"

pub record SupabaseClaims : Type 0 where
  pub role : String
  pub iss : String
  pub iat : ℤ
  pub exp : ℤ

-- `Utc::now().timestamp()` and `jsonwebtoken::encode` with HS256.
pub record Signer (W : Type 0) : Type 0 where
  pub timestamp : Task W ℤ
  pub encode : SupabaseClaims → (secret : String) → Result Source String

pub record ConfigFiles (W : Type 0) : Type 0 where
  pub create_dir_all : String → Action W Source (Unit {0})
  pub write : (path contents : String) → Action W Source (Unit {0})
  pub remove_dir_all : String → Action W Source (Unit {0})

pub record SupabaseBackend (W : Type 0) : Type 0 where
  pub container_runtime : ContainerRuntime W
  pub secrets : SecretGenerator W
  pub images : Images
  pub worker_data_dir_base : String
  pub generated_config_dir_base : String
  pub health_check_timeout : Duration

abbrev pub service_suffixes : List String
service_suffixes = "db" ∷ "rest" ∷ "auth" ∷ "kong" ∷ "functions" ∷ []

abbrev pub claims_of : String → ℤ → SupabaseClaims
claims_of role now = record {
  role = role;
  iss = "app_salmon";
  iat = now;
  exp = now +ℤ jwt_validity_secs;
}

module _ {W : Type 0} (signer : Signer W) where
  abbrev pub signed : String → String → ℤ → Result ClusterError String
  signed secret role now =
      map_err (λ _. backend_spawn_failed "failed to sign JWT")
        (signer.encode (claims_of role now) secret)

  unfoldable pub sign_jwt : String → String → Action W ClusterError String
  sign_jwt secret role = do now ← infallible signer.timestamp; lift (signed secret role now)

abbrev asked : Option HealthCheck → Bool
asked none = false
asked (some _) = true

module _ {W : Type 0} (id_text : ClusterId → String) (self : SupabaseBackend W)
    (timer : Timer W) where
  -- The loop over the specifications, with the port that was published for `kong` so far.
  unfoldable pub start_all :
      String → List ContainerSpec → Option ℕ → Action W ClusterError (Option ℕ)
  start_all kong_name [] kong_port = pure kong_port
  start_all kong_name (spec ∷ specs) kong_port = do
    handle ← on_err docker (self.container_runtime.create_and_start spec)
    published ←
        wait_until_healthy self.container_runtime timer handle self.health_check_timeout
          (asked spec.health_check)
    start_all kong_name specs (if text_eq spec.name kong_name then published else kong_port)

  abbrev pub db_port_of : ContainerStatus → Option ℕ
  db_port_of (running published_port _) = published_port
  db_port_of (exited _) = none
  db_port_of missing = none

  abbrev pub connection_info : ℕ → ℕ → Inputs → ConnectionInfo
  connection_info kong_port db_port inputs = of_supabase (record {
    api_url = "http://127.0.0.1:" ++ decimal kong_port;
    postgres = record {
      host = "127.0.0.1";
      port = db_port;
      dbname = db_name;
      user = db_user;
      password = record { expose = inputs.db_password };
    };
    anon_key = record { expose = inputs.anon_key };
    service_role_key = record { expose = inputs.service_role_key };
    jwt_secret = record { expose = inputs.jwt_secret };
  })

  unfoldable pub start_cluster :
      ClusterId → WorkerUser → Inputs → Action W ClusterError ConnectionInfo
  unfolding start_all
  start_cluster cluster_id worker inputs = do
    published ←
        start_all (container_name id_text cluster_id "kong")
          (build_specs id_text self.images cluster_id worker inputs) none
    kong_port ←
        lift (ok_or (backend_spawn_failed "kong reported healthy but published no port") published)
    status ← on_err docker (self.container_runtime.inspect (container_name id_text cluster_id "db"))
    db_port ← lift (
        ok_or (backend_spawn_failed "db reported healthy but published no port")
          (db_port_of status))
    pure (connection_info kong_port db_port inputs)

module _ {W : Type 0} (files : ConfigFiles W) where
  abbrev pub writes : String → String → String → Action W ClusterError (Unit {0})
  writes path contents message =
      on_err (λ _. backend_spawn_failed message) (files.write path contents)

  unfoldable pub write_configs : String → Action W ClusterError (Unit {0})
  write_configs generated_config_dir = do
    on_err (λ _. backend_spawn_failed "failed to prepare generated config directory")
        (files.create_dir_all generated_config_dir)
    writes (join generated_config_dir "kong.yml")
        (kong_declarative_config "rest" "auth" "functions")
        "failed to write kong declarative config"
    writes (join generated_config_dir "roles.sql") roles_sql "failed to write roles.sql"
    writes (join generated_config_dir "jwt.sql") jwt_sql "failed to write jwt.sql"

module _ {W : Type 0} (id_text : ClusterId → String) (self : SupabaseBackend W) (timer : Timer W)
    (signer : Signer W) (files : ConfigFiles W) where
  abbrev pub config_dir : ClusterId → String
  config_dir cluster_id = join self.generated_config_dir_base (id_text cluster_id)

  abbrev pub inputs_of : ClusterId → WorkerUser → ℕ → String → String → String → String → Inputs
  inputs_of cluster_id worker slot db_password jwt_secret anon_key service_role_key = record {
    db_password = db_password;
    jwt_secret = jwt_secret;
    anon_key = anon_key;
    service_role_key = service_role_key;
    kong_config_path = join (config_dir cluster_id) "kong.yml";
    roles_sql_path = join (config_dir cluster_id) "roles.sql";
    jwt_sql_path = join (config_dir cluster_id) "jwt.sql";
    functions_host_path =
        join (join (worker_data_dir self.worker_data_dir_base worker slot) project_subdir)
          "functions";
  }

  unfoldable pub spawn :
      ClusterId → WorkerUser → ℕ → ServiceSpec → Action W ClusterError ConnectionInfo
  unfolding sign_jwt write_configs start_cluster
  spawn cluster_id worker slot service = do
    db_password ← infallible (self.secrets.db_password db_password_len)
    jwt_secret ← infallible (self.secrets.db_password jwt_secret_len)
    anon_key ← sign_jwt signer jwt_secret "anon"
    service_role_key ← sign_jwt signer jwt_secret "service_role"
    network ←
        on_err docker (self.container_runtime.create_network (network_name id_text cluster_id))
    write_configs files (config_dir cluster_id)
    start_cluster id_text self timer cluster_id worker
        (inputs_of cluster_id worker slot db_password jwt_secret anon_key service_role_key)

  unfoldable pub remove_all : ClusterId → List String → Action W ClusterError (Unit {0})
  remove_all cluster_id [] = pure tt
  remove_all cluster_id (suffix ∷ suffixes) = do
    on_err docker
        (self.container_runtime.stop_and_remove (container_name id_text cluster_id suffix))
    remove_all cluster_id suffixes

  unfoldable pub teardown : ClusterId → Action W ClusterError (Unit {0})
  unfolding remove_all
  teardown cluster_id = do
    remove_all cluster_id service_suffixes
    on_err docker (self.container_runtime.remove_network (network_name id_text cluster_id))
    infallible (ignore (files.remove_dir_all (config_dir cluster_id)))

  abbrev pub is_running : ContainerStatus → Bool
  is_running (running _ _) = true
  is_running (exited _) = false
  is_running missing = false

  unfoldable pub all_alive : ClusterId → List String → Action W ClusterError Bool
  all_alive cluster_id [] = pure true
  all_alive cluster_id (suffix ∷ suffixes) = do
    status ←
        on_err docker (self.container_runtime.inspect (container_name id_text cluster_id suffix))
    if is_running status then all_alive cluster_id suffixes else pure false

  unfoldable pub is_alive : ClusterId → Action W ClusterError Bool
  unfolding all_alive
  is_alive cluster_id = all_alive cluster_id service_suffixes

  -- The backend as the tasks see it.
  unfoldable pub backend : ClusterBackend W
  backend = record {
    kind = supabase;
    worker_subdirs = "project/functions" ∷ [];
    spawn = spawn;
    teardown = teardown;
    is_alive = is_alive;
  }
