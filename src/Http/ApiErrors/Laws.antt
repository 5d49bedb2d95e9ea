-- ===== src/Http/ApiErrors/Laws.antt =====
-- src/error.rs: what the response to an error gives away.
use app_salmon.Base.{◌≡◌, ◌∙◌, sym, refl}
use app_salmon.Errors.{
  connect, ClusterError, ttl_out_of_bounds, quota_exceeded, not_found, invalid_transition,
  client_worker, docker, repository, backend_spawn_failed,
}
use app_salmon.Http.ApiErrors.{Debug, respond, from_cluster_error, into_response}

-- A fault of the service and not of the request, apart from a daemon that is not reached.
abbrev pub IsFault : ClusterError → Type 0
IsFault (client_worker _) = Unit
IsFault (docker (connect _ _)) = ⊥
IsFault (docker _) = Unit
IsFault (repository _) = Unit
IsFault (backend_spawn_failed _) = Unit
IsFault _ = ⊥

module _ (debug : Debug) where
  fault_response :
      (e : ClusterError)
      → IsFault e
      → into_response (from_cluster_error debug e) ≡ respond 500 "internal_error" "internal error"
  unfolding into_response from_cluster_error
  fault_response (client_worker _) h = refl
  fault_response (docker (connect _ _)) h = absurd h
  fault_response (docker _) h = refl
  fault_response (repository _) h = refl
  fault_response (backend_spawn_failed _) h = refl
  fault_response (ttl_out_of_bounds _ _ _) h = absurd h
  fault_response (quota_exceeded _ _ _) h = absurd h
  fault_response (not_found _) h = absurd h
  fault_response (invalid_transition _ _) h = absurd h

  -- Nothing of a fault shows: any two faults of the storage, of a worker's directory, of a backend
  -- or of the containers, apart from a daemon that is not reached, get the same response, so that no
  -- text of theirs, such as a password in the answer of the daemon, reaches the client.
  pub fault_hidden :
      (e e' : ClusterError)
      → IsFault e
      → IsFault e'
      → into_response (from_cluster_error debug e) ≡ into_response (from_cluster_error debug e')
  fault_hidden e e' h h' = fault_response e h ∙ sym (fault_response e' h')
