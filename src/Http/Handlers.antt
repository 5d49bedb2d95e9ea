-- ===== src/Http/Handlers.antt =====
-- src/http/handlers.rs. A request carries what axum's extractors read from it.
pub mod Laws
pub mod Create
use app_salmon.Base.{
  ℕ, String, Option, none, some, List, map, Bool, true, false, Result, ok, err, ok_or, map_err,
  if◌then◌else◌,
}
use app_salmon.Base
use app_salmon.Base.Int.{◌+ℤ◌}
use app_salmon.Base.Action.{Action, ◌>>=◌, ◌>>◌, pure, lift, on_err}
use app_salmon.Base.Task
use app_salmon.Base.Task.{Task, done, infallible}
use app_salmon.Domain.Time.{DateTime, TimeDelta, try_seconds}
use app_salmon.Domain.Ids.{ClusterId, ClientId}
use app_salmon.Domain.ServiceKind.{ServiceKind, ServiceSpec}
use app_salmon.Domain.ServiceKind
use app_salmon.Domain.Cluster.{Cluster, user_requested}
use app_salmon.Errors.{Source}
use app_salmon.Service.ClusterService
use app_salmon.Service.ClusterService.{
  DeleteOutcome, cancel_spawn, start_teardown, already_deleting,
}
use app_salmon.Service.Registry
use app_salmon.Http.ApiErrors.{ApiError, bad_request, Debug, from_cluster_error}
use app_salmon.Http.Multipart.{Fields, parse_multipart_create_request}
use app_salmon.Http.Responses.{CreateClusterRequest, Response, created, about, listed, deletion}
use app_salmon.Http.Responses.Info.{info_response, list_entry}
use app_salmon.Http.Server.{
  Job, spawn_job, teardown_job, AppState, Server, on_world, on_registry, start,
}
use Prim.Native.String.{◌++◌}
use text.Mathlib.Text.{starts_with}

pub record Request : Type 0 where
  pub authorization : Option String
  pub content_type : Option String
  pub multipart : Result Source Fields
  pub json : Result Source CreateClusterRequest

abbrev is_multipart : Option String → Bool
is_multipart none = false
is_multipart (some value) = starts_with value "multipart/form-data"

only_postgres :
    ServiceKind → CreateClusterRequest → Result ApiError (CreateClusterRequest × Option (List ℕ))
only_postgres ServiceKind.postgres body = ok (body, none)
only_postgres ServiceKind.supabase body = err (
    bad_request
      "service \"supabase\" requires a multipart/form-data request carrying a project_tar part")

module _ (from_slice : List ℕ → Result Source CreateClusterRequest) where
  read_multipart : Fields → Result ApiError (CreateClusterRequest × Option (List ℕ))
  read_multipart multipart =
      Base.◌>>=◌ (parse_multipart_create_request from_slice multipart)
        λ parsed. ok (parsed.0, some parsed.1)

  -- The request and the project that the body carries, by its content type.
  unfoldable pub read_create_request :
      Request → Result ApiError (CreateClusterRequest × Option (List ℕ))
  unfolding read_multipart only_postgres
  read_create_request request =
      if is_multipart request.content_type
      then Base.◌>>=◌
          (map_err (λ e. bad_request ("invalid multipart body: " ++ e)) request.multipart)
          read_multipart
      else Base.◌>>=◌ (map_err (λ e. bad_request ("invalid JSON body: " ++ e)) request.json)
          λ body. only_postgres body.service body

abbrev pub service_of : CreateClusterRequest → ServiceSpec
service_of request = record { kind = request.service; pgvector = request.pgvector }

module _ {W : Type 0} where
  unfoldable pub launch_spawn : Cluster → Option (List ℕ) → Task (Server W) (Unit {0})
  launch_spawn cluster project_tar =
      Task.◌>>=◌ (on_registry (Registry.register cluster.id))
        λ cancel. start (spawn_job cluster cancel project_tar)

  unfoldable pub follow_up : Cluster → ClusterId → DeleteOutcome → Task (Server W) (Unit {0})
  follow_up cluster id cancel_spawn = on_registry (λ r. (tt, Registry.cancel id r))
  follow_up cluster id start_teardown = start (teardown_job cluster)
  follow_up cluster id already_deleting = done

module _ {W : Type 0} (state : AppState W) where
  unfoldable pub accept : Option (List ℕ) → Cluster → Action (Server W) ApiError Response
  unfolding launch_spawn
  accept project_tar cluster = do
    infallible (launch_spawn cluster project_tar)
    pure (record {
      status = 202;
      body = created (record {
        id = cluster.id;
        status = "spawning";
        requested_at = cluster.requested_at;
        estimated_ready_at = cluster.requested_at +ℤ state.spawn_estimate;
      });
    })

module _ {W : Type 0} (state : AppState W) (debug : Debug) where
  unfoldable pub create_as :
      ClientId → CreateClusterRequest → Option (List ℕ) → Action (Server W) ApiError Response
  unfolding accept
  create_as owner request project_tar = do
    ttl ← lift (ok_or (bad_request "ttl_secs out of range") (try_seconds request.ttl_secs))
    cluster ←
        on_err (from_cluster_error debug)
          (on_world (ClusterService.create state.cluster_service owner (service_of request) ttl))
    accept state project_tar cluster

  unfoldable pub get_cluster : ClientId → ClusterId → Action (Server W) ApiError Response
  get_cluster owner id = do
    cluster ←
        on_err (from_cluster_error debug)
          (on_world (ClusterService.info state.cluster_service id owner))
    let (status, body) = info_response cluster state.spawn_estimate
    pure (record { status = status; body = about body })

  unfoldable pub list_clusters : ClientId → Action (Server W) ApiError Response
  list_clusters owner = do
    clusters ←
        on_err (from_cluster_error debug)
          (on_world (ClusterService.list state.cluster_service owner))
    pure (record { status = 200; body = listed (map (list_entry state.spawn_estimate) clusters) })

  unfoldable pub delete_cluster : ClientId → ClusterId → Action (Server W) ApiError Response
  unfolding follow_up
  delete_cluster owner id = do
    deleted ←
        on_err (from_cluster_error debug)
          (on_world (ClusterService.request_delete state.cluster_service id owner user_requested))
    infallible (follow_up deleted.0 id deleted.1)
    pure (record { status = 202; body = deletion (record { status = "deleting" }) })

module _ {W : Type 0} (state : AppState W) (debug : Debug)
    (from_slice : List ℕ → Result Source CreateClusterRequest) where
  unfoldable pub create_cluster : ClientId → Request → Action (Server W) ApiError Response
  unfolding read_create_request create_as
  create_cluster owner request = do
    parsed ← lift (read_create_request from_slice request)
    create_as state debug owner parsed.0 parsed.1
