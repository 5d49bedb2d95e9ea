-- ===== src/Http/ApiErrors.antt =====
-- src/error.rs: the errors that a client can be given, and the response to each. The texts of the
-- errors are those of their `Display`; of the text of an invalid transition, which prints the state
-- and the event by `Debug`, only the place is kept: `debug` is the printer.
pub mod Laws
use Prim.Native.String.{◌++◌}
use app_salmon.Base.{ℕ, suc, String}
use app_salmon.Base.Int.{ℤ, pos, negsuc}
use app_salmon.Base.Paths.{decimal}
use app_salmon.Domain.Cluster.{ClusterState, ClusterEvent}
use app_salmon.Errors.{
  RepositoryError, ClientWorkerError, DockerError, connect, ClusterError, ttl_out_of_bounds,
  invalid_transition, client_worker, docker, repository, backend_spawn_failed,
}
use app_salmon.Auth.{
  AuthError, missing_credentials, malformed_header, unknown_client, invalid_secret,
}
use app_salmon.Http.Responses.{Response, problem}

pub data InternalError : Type 0 where
  of_repository : RepositoryError → InternalError
  of_client_worker : ClientWorkerError → InternalError
  of_docker : DockerError → InternalError
  of_backend : String → InternalError

pub data ApiError : Type 0 where
  auth : AuthError → ApiError
  bad_request : String → ApiError
  not_found : ApiError
  quota_exceeded : ApiError
  unavailable : String → ApiError
  internal : InternalError → ApiError

decimal_ℤ : ℤ → String
decimal_ℤ (pos n) = decimal n
decimal_ℤ (negsuc n) = "-" ++ decimal (suc n)

abbrev pub Debug : Type 0
Debug = ClusterState → ClusterEvent → String

unfoldable pub from_cluster_error : Debug → ClusterError → ApiError
unfolding decimal_ℤ
from_cluster_error debug (ttl_out_of_bounds requested_secs min_secs max_secs) = bad_request (
    "requested TTL "
    ++ (decimal_ℤ requested_secs
        ++ ("s outside [" ++ (decimal_ℤ min_secs ++ (", " ++ (decimal_ℤ max_secs ++ "]"))))))
from_cluster_error debug (invalid_transition from event) = bad_request (debug from event)
from_cluster_error debug (ClusterError.quota_exceeded _ _ _) = quota_exceeded
from_cluster_error debug (ClusterError.not_found _) = not_found
from_cluster_error debug (client_worker other) = internal (of_client_worker other)
from_cluster_error debug (docker (connect _ _)) = unavailable "docker daemon unreachable"
from_cluster_error debug (docker other) = internal (of_docker other)
from_cluster_error debug (repository other) = internal (of_repository other)
from_cluster_error debug (backend_spawn_failed message) = internal (of_backend message)

auth_text : AuthError → String
auth_text missing_credentials = "missing Authorization header"
auth_text malformed_header = "malformed Authorization header"
auth_text unknown_client = "unknown client"
auth_text invalid_secret = "credential mismatch"

abbrev respond : ℕ → String → String → Response
respond status error message = record {
  status = status;
  body = problem (record { error = error; message = message });
}

unfoldable pub into_response : ApiError → Response
unfolding auth_text
into_response (auth e) = respond 401 "unauthorized" (auth_text e)
into_response (bad_request message) = respond 400 "bad_request" ("bad request: " ++ message)
into_response not_found =
    respond 404 "not_found" "cluster may never have existed or may have been deleted"
into_response quota_exceeded = respond 429 "quota_exceeded" "quota exceeded"
into_response (unavailable message) =
    respond 503 "unavailable" ("temporarily unavailable: " ++ message)
into_response (internal _) = respond 500 "internal_error" "internal error"
