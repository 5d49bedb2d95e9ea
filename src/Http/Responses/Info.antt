-- ===== src/Http/Responses/Info.antt =====
-- src/http/handlers.rs: what a client is told of a cluster.
use app_salmon.Base.{ℕ, ◌≡◌, refl, if◌then◌else◌}
use app_salmon.Base.Int.{◌+ℤ◌}
use app_salmon.Domain.Time.{TimeDelta}
use app_salmon.Domain.ServiceKind.{ConnectionInfo, of_postgres, of_supabase}
use app_salmon.Domain.Cluster.{Cluster, ClusterState}
use app_salmon.Service.ClusterService.{is_deleting}
use app_salmon.Http.Responses.{
  ConnectionResponse, ClusterInfoResponse, ClusterListEntry, postgres, supabase, spawning, ready,
  failed, deleting,
}

unfoldable pub connection_response : ConnectionInfo → ConnectionResponse
connection_response (of_postgres p) = postgres p.host p.port p.dbname p.user p.password.expose
connection_response (of_supabase s) =
    supabase s.api_url
      (record {
        host = s.postgres.host;
        port = s.postgres.port;
        dbname = s.postgres.dbname;
        user = s.postgres.user;
        password = s.postgres.password.expose;
      })
      s.anon_key.expose s.service_role_key.expose s.jwt_secret.expose

info_of_state : Cluster → TimeDelta → ClusterState → ℕ × ClusterInfoResponse
unfolding connection_response
info_of_state cluster spawn_estimate (ClusterState.spawning started_at) =
    (200, spawning cluster.requested_at (started_at +ℤ spawn_estimate))
info_of_state cluster spawn_estimate (ClusterState.ready ready_at decommission_at connection) =
    (200, ready cluster.requested_at ready_at decommission_at (connection_response connection))
info_of_state cluster spawn_estimate (ClusterState.failed failed_at error_summary) =
    (200, failed cluster.requested_at failed_at error_summary)
info_of_state cluster spawn_estimate (ClusterState.deleting _ _) =
    (410, deleting "cluster is being torn down")

info_of_state-status :
    (c : Cluster) (spawn_estimate : TimeDelta) (state : ClusterState)
    → (info_of_state c spawn_estimate state).0 ≡ (if is_deleting state then 410 else 200)
unfolding info_of_state
info_of_state-status c e (ClusterState.spawning _) = refl
info_of_state-status c e (ClusterState.ready _ _ _) = refl
info_of_state-status c e (ClusterState.failed _ _) = refl
info_of_state-status c e (ClusterState.deleting _ _) = refl

unfoldable pub info_response : Cluster → TimeDelta → ℕ × ClusterInfoResponse
unfolding info_of_state
info_response cluster spawn_estimate = info_of_state cluster spawn_estimate cluster.state

unfoldable pub list_entry : TimeDelta → Cluster → ClusterListEntry
list_entry spawn_estimate cluster = record {
  id = cluster.id;
  info = (info_response cluster spawn_estimate).1;
}

pub info_response-status :
    (c : Cluster) (spawn_estimate : TimeDelta)
    → (info_response c spawn_estimate).0 ≡ (if is_deleting c.state then 410 else 200)
unfolding info_response
info_response-status c e = info_of_state-status c e c.state
