-- ===== src/Backends/Supabase/Specs.antt =====
-- src/backends/supabase.rs: the five containers of a cluster.
use Prim.Native.String.{◌++◌}
use app_salmon.Base.{ℕ, String, Option, none, some, List, [], ◌∷◌}
use app_salmon.Base.Paths.{decimal}
use app_salmon.Domain.Ids.{ClusterId, WorkerUser}
use app_salmon.Containers.{
  from_secs, ContainerSpec, NetworkAttachment, ephemeral, unpublished, runc, kata,
}

abbrev pub db_port : ℕ
db_port = 5432

abbrev pub rest_port : ℕ
rest_port = 3000

abbrev pub auth_port : ℕ
auth_port = 9999

abbrev pub kong_port : ℕ
kong_port = 8000

abbrev pub functions_port : ℕ
functions_port = 9000

abbrev pub db_user : String
db_user = "postgres"

abbrev pub db_name : String
db_name = "postgres"

abbrev postgrest_db_role : String
postgrest_db_role = "authenticator"

abbrev gotrue_db_role : String
gotrue_db_role = "supabase_auth_admin"

abbrev db_jwt_exp_secs : String
db_jwt_exp_secs = "3600"

abbrev cluster_id_label : String
cluster_id_label = "app_salmon.cluster_id"

abbrev functions_container_path : String
functions_container_path = "/home/deno/functions"

abbrev functions_main_service_path : String
functions_main_service_path = "/home/deno/functions/main"

-- The images of the backend.
pub record Images : Type 0 where
  pub postgres_image : String
  pub postgrest_image : String
  pub gotrue_image : String
  pub kong_image : String
  pub edge_runtime_image : String

-- What the specifications are built from.
pub record Inputs : Type 0 where
  pub db_password : String
  pub jwt_secret : String
  pub anon_key : String
  pub service_role_key : String
  pub kong_config_path : String
  pub roles_sql_path : String
  pub jwt_sql_path : String
  pub functions_host_path : String

module _ (id_text : ClusterId → String) where
  unfoldable pub container_name : ClusterId → String → String
  container_name cluster_id suffix = "app-salmon-" ++ (id_text cluster_id ++ ("-" ++ suffix))

  unfoldable pub network_name : ClusterId → String
  network_name cluster_id = "app-salmon-net-" ++ id_text cluster_id

module _ (id_text : ClusterId → String) (images : Images) (cluster_id : ClusterId)
    (worker : WorkerUser) (inputs : Inputs) where
  open images use {postgres_image, postgrest_image, gotrue_image, kong_image, edge_runtime_image}
  open inputs use {
    db_password, jwt_secret, anon_key, service_role_key, kong_config_path, roles_sql_path,
    jwt_sql_path, functions_host_path,
  }

  abbrev labels : List (String × String)
  labels = (cluster_id_label, id_text cluster_id) ∷ []

  abbrev attach : String → Option NetworkAttachment
  attach alias = some (record { network_name = network_name id_text cluster_id; alias = alias })

  unfoldable pub db : ContainerSpec
  db = record {
    name = container_name id_text cluster_id "db";
    image = postgres_image;
    env =
        ("POSTGRES_DB", db_name)
        ∷ ("POSTGRES_PASSWORD", db_password)
        ∷ ("JWT_SECRET", jwt_secret)
        ∷ ("JWT_EXP", db_jwt_exp_secs)
        ∷ [];
    labels = labels;
    port_publish = ephemeral;
    container_port = db_port;
    bind_mounts =
        record {
          host_path = roles_sql_path;
          container_path = "/docker-entrypoint-initdb.d/init-scripts/99-roles.sql";
        }
        ∷ record {
          host_path = jwt_sql_path;
          container_path = "/docker-entrypoint-initdb.d/init-scripts/99-jwt.sql";
        }
        ∷ [];
    run_as = none;
    health_check = some (record {
      test = "CMD" ∷ "pg_isready" ∷ "-U" ∷ db_user ∷ "-h" ∷ "localhost" ∷ [];
      interval = from_secs 1;
      timeout = from_secs 2;
      retries = 10;
    });
    runtime = runc;
    network = attach "db";
    command = none;
  }

  unfoldable pub rest : ContainerSpec
  rest = record {
    name = container_name id_text cluster_id "rest";
    image = postgrest_image;
    env =
        (
          "PGRST_DB_URI",
          "postgres://"
              ++ (postgrest_db_role
                  ++ (":" ++ (db_password ++ ("@db:" ++ (decimal db_port ++ ("/" ++ (db_name))))))),
        )
        ∷ ("PGRST_DB_SCHEMAS", "public,graphql_public")
        ∷ ("PGRST_DB_ANON_ROLE", "anon")
        ∷ ("PGRST_JWT_SECRET", jwt_secret)
        ∷ ("PGRST_ADMIN_SERVER_PORT", "3001")
        ∷ ("PGRST_ADMIN_SERVER_HOST", "localhost")
        ∷ [];
    labels = labels;
    port_publish = unpublished;
    container_port = rest_port;
    bind_mounts = [];
    run_as = none;
    health_check = some (record {
      test = "CMD" ∷ "postgrest" ∷ "--ready" ∷ [];
      interval = from_secs 1;
      timeout = from_secs 2;
      retries = 5;
    });
    runtime = runc;
    network = attach "rest";
    command = none;
  }

  unfoldable pub auth : ContainerSpec
  auth = record {
    name = container_name id_text cluster_id "auth";
    image = gotrue_image;
    env =
        ("GOTRUE_API_HOST", "0.0.0.0")
        ∷ ("GOTRUE_API_PORT", decimal auth_port)
        ∷ ("API_EXTERNAL_URL", "http://kong:8000/auth/v1")
        ∷ ("GOTRUE_DB_DRIVER", "postgres")
        ∷ (
          "GOTRUE_DB_DATABASE_URL",
          "postgres://"
              ++ (gotrue_db_role
                  ++ (":" ++ (db_password ++ ("@db:" ++ (decimal db_port ++ ("/" ++ (db_name))))))),
        )
        ∷ ("GOTRUE_SITE_URL", "http://localhost:3000")
        ∷ ("GOTRUE_DISABLE_SIGNUP", "false")
        ∷ ("GOTRUE_JWT_ADMIN_ROLES", "service_role")
        ∷ ("GOTRUE_JWT_AUD", "authenticated")
        ∷ ("GOTRUE_JWT_DEFAULT_GROUP_NAME", "authenticated")
        ∷ ("GOTRUE_JWT_EXP", db_jwt_exp_secs)
        ∷ ("GOTRUE_JWT_SECRET", jwt_secret)
        ∷ [];
    labels = labels;
    port_publish = unpublished;
    container_port = auth_port;
    bind_mounts = [];
    run_as = none;
    health_check = some (record {
      test =
          "CMD" ∷ "wget" ∷ "--no-verbose" ∷ "--tries=1" ∷ "--spider"
          ∷ "http://localhost:9999/health" ∷ [];
      interval = from_secs 1;
      timeout = from_secs 2;
      retries = 5;
    });
    runtime = runc;
    network = attach "auth";
    command = none;
  }

  unfoldable pub kong : ContainerSpec
  kong = record {
    name = container_name id_text cluster_id "kong";
    image = kong_image;
    env =
        ("KONG_DATABASE", "off")
        ∷ ("KONG_DECLARATIVE_CONFIG", "/usr/local/kong/kong.yml")
        ∷ ("SUPABASE_ANON_KEY", anon_key)
        ∷ ("SUPABASE_SERVICE_KEY", service_role_key)
        ∷ [];
    labels = labels;
    port_publish = ephemeral;
    container_port = kong_port;
    bind_mounts =
        record { host_path = kong_config_path; container_path = "/usr/local/kong/kong.yml" } ∷ [];
    run_as = none;
    health_check = some (record {
      test = "CMD" ∷ "kong" ∷ "health" ∷ [];
      interval = from_secs 1;
      timeout = from_secs 2;
      retries = 5;
    });
    runtime = runc;
    network = attach "kong";
    command = none;
  }

  unfoldable pub functions : ContainerSpec
  functions = record {
    name = container_name id_text cluster_id "functions";
    image = edge_runtime_image;
    env =
        ("JWT_SECRET", jwt_secret)
        ∷ ("SUPABASE_URL", "http://kong:8000")
        ∷ ("SUPABASE_ANON_KEY", anon_key)
        ∷ ("SUPABASE_SERVICE_ROLE_KEY", service_role_key)
        ∷ (
          "SUPABASE_DB_URL",
          "postgresql://"
              ++ (db_user
                  ++ (":" ++ (db_password ++ ("@db:" ++ (decimal db_port ++ ("/" ++ (db_name))))))),
        )
        ∷ ("VERIFY_JWT", "false")
        ∷ [];
    labels = labels;
    port_publish = unpublished;
    container_port = functions_port;
    bind_mounts =
        record { host_path = functions_host_path; container_path = functions_container_path } ∷ [];
    run_as = some (worker.uid, worker.gid);
    health_check = none;
    runtime = kata;
    network = attach "functions";
    command = some ("start" ∷ "--main-service" ∷ functions_main_service_path ∷ []);
  }

  unfoldable pub build_specs : List ContainerSpec
  unfolding db rest auth kong functions
  build_specs = db ∷ rest ∷ auth ∷ kong ∷ functions ∷ []
