-- ===== src/Http/Serve.antt =====
-- A request to src/http/mod.rs from the router to the response: the caller is authenticated first,
-- and the error of a handler becomes its response.
pub mod Guard
use app_salmon.Base.{ℕ, List, Result, ok, err, map_err}
use app_salmon.Base.Action.{Action, ◌>>=◌, lift}
use app_salmon.Base.Task.{Task}
use app_salmon.Domain.Ids.{ClusterId, ClientId}
use app_salmon.Errors.{Source}
use app_salmon.Auth.{authenticate}
use app_salmon.Auth.Hashing.{Hasher}
use app_salmon.Http.ApiErrors.{ApiError, auth, Debug, into_response}
use app_salmon.Http.Handlers.{Request, create_cluster, get_cluster, list_clusters, delete_cluster}
use app_salmon.Http.Responses.{CreateClusterRequest, Response}
use app_salmon.Http.Server.{AppState, Server}

pub data Route : Type 0 where
  post_clusters get_clusters : Route
  get_one delete_one : ClusterId → Route

module _ {W : Type 0} (hasher : Hasher) (state : AppState W) (debug : Debug)
    (from_slice : List ℕ → Result Source CreateClusterRequest) where
  unfoldable pub from_request_parts : Request → Result ApiError ClientId
  from_request_parts request =
      map_err auth (authenticate hasher state.client_registry request.authorization)

  unfoldable pub dispatch : Route → Request → ClientId → Action (Server W) ApiError Response
  dispatch post_clusters request owner = create_cluster state debug from_slice owner request
  dispatch get_clusters request owner = list_clusters state debug owner
  dispatch (get_one id) request owner = get_cluster state debug owner id
  dispatch (delete_one id) request owner = delete_cluster state debug owner id

  unfoldable pub handle : Route → Request → Action (Server W) ApiError Response
  unfolding from_request_parts dispatch
  handle route request = do owner ← lift (from_request_parts request); dispatch route request owner

  abbrev settled : Result ApiError Response → Response
  settled (ok response) = response
  settled (err e) = into_response e

  unfoldable pub serve : Route → Request → Task (Server W) Response
  unfolding handle
  serve route request s = let (r, s') = handle route request s in (settled r, s')
