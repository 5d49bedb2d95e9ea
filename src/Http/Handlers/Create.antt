-- ===== src/Http/Handlers/Create.antt =====
-- src/http/handlers.rs: what `POST /clusters` answers and changes.
use app_salmon.Base.{
  ℕ, ◌≤◌, length, Option, none, some, List, ◌∷◌, Bool, true, false, Result, ok, err, ◌≡◌, refl, ap,
  subst, inl, inr, Result-cases, Option-cases, Bool-cases, if◌then◌else◌, ◌&&◌,
}
use mathlib.Core.Option.{some-injective}
use app_salmon.Base.Int.{◌+ℤ◌, ℤ, leb_ℤ, pos}
use app_salmon.Base.Action.{on_err}
use app_salmon.Base.Post.{Post, bind-Post, on_err-Post, weaken}
use app_salmon.Domain.Time.{TimeDelta, try_seconds, minus, seconds, num_seconds-seconds}
use app_salmon.Domain.Ids.{ClientId}
use app_salmon.Domain.Cluster.{Cluster}
use app_salmon.Errors.{Source, ClusterError, ttl_out_of_bounds, quota_exceeded, repository}
use app_salmon.Service.ClusterService
use app_salmon.Service.ClusterService.Laws.{IsClusterService, Created, Refuses, create-Post}
use app_salmon.Service.Registry
use app_salmon.Storage.Persisted.RoundTrip.{IsWhole}
use app_salmon.Storage.Rows.{of_owner}
use app_salmon.Http.ApiErrors
use app_salmon.Http.ApiErrors.{
  ApiError, bad_request, internal, of_repository, Debug, from_cluster_error,
}
use app_salmon.Http.Handlers.{
  Request, service_of, read_create_request, create_as, create_cluster, accept, launch_spawn,
  is_multipart, read_multipart, only_postgres,
}
use app_salmon.Http.Multipart.{parse_multipart_create_request}
use app_salmon.Http.Multipart.Laws.{
  BlamesRequest, bind-BlamesRequest, map_err-BlamesRequest, parse-BlamesRequest,
}
use app_salmon.Domain.ServiceKind.{ServiceKind, postgres, supabase}
use app_salmon.Http.Responses.{CreateClusterRequest, Response, created}
use app_salmon.Http.Server.{spawn_job, AppState, Server, on_world}
use app_salmon.Http.Server.View.{View, Sees, on_world-Post}
use app_salmon.Http.Handlers.Laws.{unmoved}

try_seconds-IsWhole : (s : ℤ) (ttl : TimeDelta) → try_seconds s ≡ some ttl → IsWhole ttl
try_seconds-IsWhole s ttl h =
    go (leb_ℤ (minus 9223372036854775) s && leb_ℤ s (pos 9223372036854775)) h
  where
    go : (b : Bool) → (if b then some (seconds s) else none) ≡ some ttl → IsWhole ttl
    go true e = subst IsWhole (some-injective _ _ e) (ap seconds (num_seconds-seconds s))
    go false e = cc

only_postgres-BlamesRequest :
    (kind : ServiceKind) (body : CreateClusterRequest) → BlamesRequest (only_postgres kind body)
unfolding only_postgres
only_postgres-BlamesRequest postgres body = tt
only_postgres-BlamesRequest supabase body = tt

-- A body that cannot be read is the request's fault.
read-BlamesRequest :
    (from_slice : List ℕ → Result Source CreateClusterRequest) (request : Request)
    → BlamesRequest (read_create_request from_slice request)
unfolding read_create_request read_multipart
read-BlamesRequest from_slice request = elim (Bool-cases (is_multipart request.content_type)) [
  | inl multi ↦ rw multi (
      bind-BlamesRequest _ (read_multipart from_slice) (map_err-BlamesRequest _ request.multipart)
        (λ fields.
          bind-BlamesRequest (parse_multipart_create_request from_slice fields) _
            (parse-BlamesRequest from_slice fields) (λ parsed. tt)))
  | inr json ↦ rw json (
      bind-BlamesRequest _ _ (map_err-BlamesRequest _ request.json)
        (λ body. only_postgres-BlamesRequest body.service body))
]

-- The response that tells a client of the cluster it has been given.
abbrev pub accepted_response : TimeDelta → Cluster → Response
accepted_response spawn_estimate cluster = record {
  status = 202;
  body = created (record {
    id = cluster.id;
    status = "spawning";
    requested_at = cluster.requested_at;
    estimated_ready_at = cluster.requested_at +ℤ spawn_estimate;
  });
}

-- The view after a cluster's row was added and its spawn was started with a fresh token.
abbrev pub launched : Cluster → Option (List ℕ) → List Cluster → View → View
launched c project_tar rows v = record {
  rows = rows;
  registry = (Registry.register c.id v.registry).1;
  jobs = spawn_job c (Registry.register c.id v.registry).0 project_tar ∷ v.jobs;
}

module _ {W : Type 0} {Holds : W → List Cluster → Type 0} (state : AppState W)
    (laws : IsClusterService Holds state.cluster_service) (debug : Debug) where
  -- Why a create request fails, and what is then known of the store.
  abbrev pub Rejects : ClientId → List Cluster → ApiError → Type 0
  Rejects owner cs (bad_request _) = Unit
  Rejects owner cs ApiErrors.quota_exceeded =
      (n : ℕ) × (state.cluster_service.limits.max_clusters_per_user ≤ n)
      × (n ≤ length (of_owner owner cs))
  Rejects owner cs (internal (of_repository _)) = Unit
  Rejects owner cs _ = ⊥

  rejects :
      (owner : ClientId) (ttl : TimeDelta) (cs : List Cluster) (e : ClusterError)
      → Refuses state.cluster_service owner ttl cs e
      → Rejects owner cs (from_cluster_error debug e)
  unfolding from_cluster_error
  rejects owner ttl cs (ttl_out_of_bounds _ _ _) h = tt
  rejects owner ttl cs (quota_exceeded o n limit) h = (n, subst (λ (l : ℕ). l ≤ n) h.1 h.2, h.3)
  rejects owner ttl cs (repository _) h = tt
  rejects owner ttl cs _ h = absurd h

  -- What a create request that came through has done.
  abbrev pub Accepted :
      ClientId → CreateClusterRequest → Option (List ℕ) → View → Response → View → Type 0
  Accepted owner request project_tar v response v' =
      (ttl : TimeDelta) × (c : Cluster) × (try_seconds request.ttl_secs ≡ some ttl)
      × Created state.cluster_service owner (service_of request) ttl v.rows c v'.rows
      × (v' ≡ launched c project_tar v'.rows v)
      × (response ≡ accepted_response state.spawn_estimate c)

  accept-Post :
      (owner : ClientId) (request : CreateClusterRequest) (project_tar : Option (List ℕ))
      (ttl : TimeDelta) (c : Cluster) (s : Server W) (v v' : View)
      → Sees Holds s v'
      → v' ≡ record v { rows = v'.rows }
      → try_seconds request.ttl_secs ≡ some ttl
      → Created state.cluster_service owner (service_of request) ttl v.rows c v'.rows
      → Post
          (Sees Holds)
          (Accepted owner request project_tar v)
          (λ e v'. (v' ≡ v) × Rejects owner v.rows e)
          (accept state project_tar c s)
  unfolding accept launch_spawn
  accept-Post owner request project_tar ttl c s v v' (k, r, j) same t made = record {
    ends = (
      launched c project_tar v'.rows v',
      (
        k,
        ap (λ x. (Registry.register c.id x).1) r,
        λ i. spawn_job c (Registry.register c.id (r i)).0 project_tar ∷ j i,
      ),
      (ttl, c, t, made, ap (λ x. launched c project_tar v'.rows x) same, refl),
    );
  }

  create_as-Post :
      (owner : ClientId) (request : CreateClusterRequest) (project_tar : Option (List ℕ))
      (s : Server W) (v : View)
      → Sees Holds s v
      → Post
          (Sees Holds)
          (Accepted owner request project_tar v)
          (λ e v'. (v' ≡ v) × Rejects owner v.rows e)
          (create_as state debug owner request project_tar s)
  unfolding create_as
  create_as-Post owner request project_tar s v sees =
      elim (Option-cases (try_seconds request.ttl_secs)) [
        | inl never ↦ rw never (record { ends = (v, sees, (refl, tt)) })
        | inr (ttl, t) ↦ rw t (
            bind-Post
              (on_err (from_cluster_error debug)
                (on_world
                  (ClusterService.create state.cluster_service owner (service_of request) ttl))
                s)
              _
              (λ c s' v' sees' (made, same).
                accept-Post owner request project_tar ttl c s' v v' sees' same t made)
              (λ e v' r. r)
              (on_err-Post (from_cluster_error debug)
                (on_world
                  (ClusterService.create state.cluster_service owner (service_of request) ttl))
                s (λ e v' (u, same). (unmoved v v' same u.0, rejects owner ttl v.rows e u.1))
                (on_world-Post
                  (ClusterService.create state.cluster_service owner (service_of request) ttl) s v
                  sees
                  (create-Post state.cluster_service laws owner (service_of request) ttl s.world
                    v.rows (try_seconds-IsWhole request.ttl_secs ttl t) sees.0))))
      ]

  -- A request was read from the body and accepted.
  abbrev pub Launched :
      (List ℕ → Result Source CreateClusterRequest)
      → ClientId
      → Request
      → View
      → Response
      → View
      → Type 0
  Launched from_slice owner request v response v' =
      (body : CreateClusterRequest) × (project_tar : Option (List ℕ)) × (read_create_request
          from_slice request
        ≡ ok (body, project_tar))
      × Accepted owner body project_tar v response v'

  -- `POST /clusters` that comes through has read a request from the body, answers by 202 with the id
  -- of the one new row, which is spawning and within the bounds and the quota, and has started
  -- exactly one task, which spawns that cluster under a token of its own, with the project that came
  -- with the request. One that fails changes no row and no token and starts nothing; it reports a
  -- quota only where the client has used it up.
  pub create_cluster-Post :
      (from_slice : List ℕ → Result Source CreateClusterRequest) (owner : ClientId)
      (request : Request) (s : Server W) (v : View)
      → Sees Holds s v
      → Post
          (Sees Holds)
          (Launched from_slice owner request v)
          (λ e v'. (v' ≡ v) × Rejects owner v.rows e)
          (create_cluster state debug from_slice owner request s)
  unfolding create_cluster
  create_cluster-Post from_slice owner request s v sees =
      elim (Result-cases (read_create_request from_slice request)) [
        | inl (parsed, read) ↦ rw read (
            weaken (create_as state debug owner parsed.0 parsed.1 s)
              (λ response v' done. (parsed.0, parsed.1, read, done)) (λ e v' r. r)
              (create_as-Post owner parsed.0 parsed.1 s v sees))
        | inr (e, refused) ↦ rw refused (record {
          ends = (
            v,
            sees,
            (refl, blamed e (subst BlamesRequest refused (read-BlamesRequest from_slice request))),
          );
        })
      ]
    where
      blamed :
          (e : ApiError)
          → BlamesRequest {A = CreateClusterRequest × Option (List ℕ)} (err e)
          → Rejects owner v.rows e
      blamed (bad_request _) h = tt
      blamed _ h = absurd h
