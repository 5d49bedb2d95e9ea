-- ===== src/Storage/Persisted.antt =====
-- The mirror types of src/adapters/sqlite_repository.rs and their conversions.
pub mod RoundTrip
use app_salmon.Base.{ℕ, String, Option}
use app_salmon.Base.Int.{ℤ}
use app_salmon.Domain.Time.{DateTime, seconds, num_seconds}
use app_salmon.Domain.Ids.{ClusterId, ClientId, WorkerUser}
use app_salmon.Domain.ServiceKind.{
  ServiceSpec, Redacted, PostgresConnectionInfo, SupabaseConnectionInfo, ConnectionInfo,
  of_postgres, of_supabase,
}
use app_salmon.Domain.Cluster.{DeleteReason, ClusterState, Cluster}
use mathlib.Core.Option

pub record PersistedPostgresConnection : Type 0 where
  pub host : String
  pub port : ℕ
  pub dbname : String
  pub user : String
  pub password : String

abbrev pub persist_postgres : PostgresConnectionInfo → PersistedPostgresConnection
persist_postgres connection = record {
  host = connection.host;
  port = connection.port;
  dbname = connection.dbname;
  user = connection.user;
  password = connection.password.expose;
}

abbrev pub restore_postgres : PersistedPostgresConnection → PostgresConnectionInfo
restore_postgres persisted = record {
  host = persisted.host;
  port = persisted.port;
  dbname = persisted.dbname;
  user = persisted.user;
  password = record { expose = persisted.password };
}

pub data PersistedConnection : Type 0 where
  postgres : (host : String) (port : ℕ) (dbname user password : String) → PersistedConnection
  supabase :
      (api_url : String) (postgres : PersistedPostgresConnection)
      (anon_key service_role_key jwt_secret : String)
      → PersistedConnection

unfoldable pub persist_connection : ConnectionInfo → PersistedConnection
persist_connection (of_postgres info) =
    let persisted = persist_postgres info in
    postgres persisted.host persisted.port persisted.dbname persisted.user persisted.password
persist_connection (of_supabase info) =
    supabase info.api_url (persist_postgres info.postgres) info.anon_key.expose
      info.service_role_key.expose info.jwt_secret.expose

unfoldable pub restore_connection : PersistedConnection → ConnectionInfo
restore_connection (postgres host port dbname user password) = of_postgres (record {
  host = host;
  port = port;
  dbname = dbname;
  user = user;
  password = record { expose = password };
})
restore_connection (supabase api_url inner anon_key service_role_key jwt_secret) =
    of_supabase (record {
      api_url = api_url;
      postgres = restore_postgres inner;
      anon_key = record { expose = anon_key };
      service_role_key = record { expose = service_role_key };
      jwt_secret = record { expose = jwt_secret };
    })

pub data PersistedState : Type 0 where
  spawning : (started_at : DateTime) → PersistedState
  ready : (ready_at decommission_at : DateTime) (connection : PersistedConnection) → PersistedState
  failed : (failed_at : DateTime) (error_summary : String) → PersistedState
  deleting : (deleting_since : DateTime) (reason : DeleteReason) → PersistedState

unfoldable pub persist_state : ClusterState → PersistedState
unfolding persist_connection
persist_state (ClusterState.spawning started_at) = PersistedState.spawning started_at
persist_state (ClusterState.ready ready_at decommission_at connection) =
    PersistedState.ready ready_at decommission_at (persist_connection connection)
persist_state (ClusterState.failed failed_at error_summary) =
    PersistedState.failed failed_at error_summary
persist_state (ClusterState.deleting deleting_since reason) =
    PersistedState.deleting deleting_since reason

unfoldable pub restore_state : PersistedState → ClusterState
unfolding restore_connection
restore_state (PersistedState.spawning started_at) = ClusterState.spawning started_at
restore_state (PersistedState.ready ready_at decommission_at connection) =
    ClusterState.ready ready_at decommission_at (restore_connection connection)
restore_state (PersistedState.failed failed_at error_summary) =
    ClusterState.failed failed_at error_summary
restore_state (PersistedState.deleting deleting_since reason) =
    ClusterState.deleting deleting_since reason

pub record PersistedWorker : Type 0 where
  pub name : String
  pub uid : ℕ
  pub gid : ℕ

abbrev pub persist_worker : WorkerUser → PersistedWorker
persist_worker worker = record { name = worker.name; uid = worker.uid; gid = worker.gid }

abbrev pub restore_worker : PersistedWorker → WorkerUser
restore_worker persisted = record {
  name = persisted.name;
  uid = persisted.uid;
  gid = persisted.gid;
}

pub record PersistedCluster : Type 0 where
  pub service : ServiceSpec
  pub requested_ttl_secs : ℤ  -- i64
  pub requested_at : DateTime
  pub state : PersistedState
  pub worker : Option PersistedWorker
  pub slot : ℕ  -- u32

unfoldable pub to_persisted : Cluster → PersistedCluster
unfolding persist_state
to_persisted cluster = record {
  service = cluster.service;
  requested_ttl_secs = num_seconds cluster.requested_ttl;
  requested_at = cluster.requested_at;
  state = persist_state cluster.state;
  worker = Option.map persist_worker cluster.worker;
  slot = cluster.slot;
}

-- `from_row`, once the JSON text is read.
unfoldable pub restore_cluster : ClusterId → ClientId → PersistedCluster → Cluster
unfolding restore_state
restore_cluster id owner persisted = record {
  id = id;
  owner = owner;
  service = persisted.service;
  requested_ttl = seconds persisted.requested_ttl_secs;
  requested_at = persisted.requested_at;
  state = restore_state persisted.state;
  worker = Option.map restore_worker persisted.worker;
  slot = persisted.slot;
}
