-- ===== src/Http/Handlers/Laws.antt =====
-- src/http/handlers.rs: what the handlers of one cluster answer and change.
use app_salmon.Base.{none, some, List, ◌∷◌, true, map, ◌≡◌, ◌∙◌, refl, ap, subst, if◌then◌else◌}
use app_salmon.Base.Action.{Action, on_err}
use app_salmon.Base.Post.{Post, bind-Post, on_err-Post}
use app_salmon.Domain.Ids.{ClusterId, ClientId}
use app_salmon.Domain.Cluster.{
  Cluster, ClusterState, spawning, ready, failed, deleting, user_requested,
}
use app_salmon.Errors.{ClusterError, not_found, repository}
use app_salmon.Service.ClusterService
use app_salmon.Service.ClusterService.{
  DeleteOutcome, cancel_spawn, start_teardown, already_deleting, is_deleting,
}
use app_salmon.Service.ClusterService.Laws.{
  IsClusterService, Unfound, Owed, info-Post, list-Post, request_delete-Post,
}
use app_salmon.Service.Registry
use app_salmon.Storage.Rows.{find_owned, of_owner, set_state}
use app_salmon.Http.ApiErrors
use app_salmon.Http.ApiErrors.{ApiError, internal, of_repository, Debug, from_cluster_error}
use app_salmon.Http.Handlers.{get_cluster, list_clusters, delete_cluster, follow_up}
use app_salmon.Http.Responses.{Response, about, listed, deletion}
use app_salmon.Http.Responses.Info.{info_response, info_response-status, list_entry}
use app_salmon.Http.Server.{teardown_job, AppState, Server, on_world}
use app_salmon.Http.Server.View.{View, Sees, on_world-Post}
use mathlib.Core.List.{Permᴰ}

-- Why a request about one cluster fails: the client owns no such cluster, or the storage failed.
abbrev pub Unanswered : ClusterId → ClientId → List Cluster → ApiError → Type 0
Unanswered id owner cs ApiErrors.not_found = find_owned id owner cs ≡ none
Unanswered id owner cs (internal (of_repository _)) = Unit
Unanswered id owner cs _ = ⊥

pub unmoved : (v v' : View) → v' ≡ record v { rows = v'.rows } → v'.rows ≡ v.rows → v' ≡ v
unmoved v v' same rows = same ∙ ap (λ r. record v { rows = r }) rows

module _ {W : Type 0} {Holds : W → List Cluster → Type 0} (state : AppState W)
    (laws : IsClusterService Holds state.cluster_service) (debug : Debug) where
  unanswered :
      (id : ClusterId) (owner : ClientId) (cs : List Cluster) (e : ClusterError)
      → Unfound state.cluster_service laws id owner cs e
      → Unanswered id owner cs (from_cluster_error debug e)
  unfolding from_cluster_error
  unanswered id owner cs (not_found _) h = h.1
  unanswered id owner cs (repository _) h = tt
  unanswered id owner cs _ h = absurd h

  -- A call of the service on behalf of a request about one cluster.
  asked-Post :
      {A : Type 0} {Q : A → List Cluster → Type 0} (m : Action W ClusterError A) (owner : ClientId)
      (id : ClusterId) (s : Server W) (v : View)
      → Sees Holds s v
      → Post Holds Q
          (λ e cs'. (cs' ≡ v.rows) × Unfound state.cluster_service laws id owner v.rows e)
          (m s.world)
      → Post
          (Sees Holds)
          (λ a v'. Q a v'.rows × (v' ≡ record v { rows = v'.rows }))
          (λ e v'. (v' ≡ v) × Unanswered id owner v.rows e)
          (on_err (from_cluster_error debug) (on_world m) s)
  asked-Post m owner id s v sees h =
      on_err-Post (from_cluster_error debug) (on_world m) s
        (λ e v' (u, same). (unmoved v v' same u.0, unanswered id owner v.rows e u.1))
        (on_world-Post m s v sees h)

  -- The client's own cluster.
  abbrev pub Shown : ClientId → ClusterId → View → Response → View → Type 0
  Shown owner id v response v' =
      (v' ≡ v)
      × ((c : Cluster) × (find_owned id owner v.rows ≡ some c)
          × (response ≡ record {
            status = if is_deleting c.state then 410 else 200;
            body = about (info_response c state.spawn_estimate).1;
          }))

  -- `GET /clusters/{id}` answers with the client's own cluster, by 410 if it is being deleted and by
  -- 200 otherwise. It fails by 404 only where the client owns no such cluster, and apart from that
  -- only by a storage error. It changes no row, no token, and starts nothing.
  pub get_cluster-Post :
      (owner : ClientId) (id : ClusterId) (s : Server W) (v : View)
      → Sees Holds s v
      → Post
          (Sees Holds)
          (Shown owner id v)
          (λ e v'. (v' ≡ v) × Unanswered id owner v.rows e)
          (get_cluster state debug owner id s)
  unfolding get_cluster
  get_cluster-Post owner id s v sees =
      bind-Post
        (on_err (from_cluster_error debug)
          (on_world (ClusterService.info state.cluster_service id owner)) s)
        _
        (λ c s' v' sees' (k, same). record {
          ends = (
            v',
            sees',
            (
              unmoved v v' same k.1,
              (
                c,
                k.0,
                ap
                    (λ n. record {
                      status = n;
                      body = about (info_response c state.spawn_estimate).1;
                    })
                    (info_response-status c state.spawn_estimate),
              ),
            ),
          );
        })
        (λ e v' r. r)
        (asked-Post (ClusterService.info state.cluster_service id owner) owner id s v sees
          (info-Post state.cluster_service laws id owner s.world v.rows sees.0))

  -- The client's own clusters.
  abbrev pub AllShown : ClientId → View → Response → View → Type 0
  AllShown owner v response v' =
      (v' ≡ v)
      × ((shown : List Cluster) × Permᴰ shown (of_owner owner v.rows)
          × (response ≡ record {
            status = 200;
            body = listed (map (list_entry state.spawn_estimate) shown);
          }))

  -- `GET /clusters` answers by 200 with an entry for each of the client's own clusters, in some
  -- order, and for no other. It changes no row, no token, and starts nothing.
  pub list_clusters-Post :
      (owner : ClientId) (s : Server W) (v : View)
      → Sees Holds s v
      → Post (Sees Holds) (AllShown owner v) (λ e v'. v' ≡ v) (list_clusters state debug owner s)
  unfolding list_clusters
  list_clusters-Post owner s v sees =
      bind-Post
        (on_err (from_cluster_error debug)
          (on_world (ClusterService.list state.cluster_service owner)) s)
        _
        (λ shown s' v' sees' (k, same). record {
          ends = (v', sees', (unmoved v v' same k.1, (shown, k.0, refl)));
        })
        (λ e v' r. r)
        (on_err-Post (from_cluster_error debug)
          (on_world (ClusterService.list state.cluster_service owner)) s
          (λ e v' (u, same). unmoved v v' same u)
          (on_world-Post (ClusterService.list state.cluster_service owner) s v sees
            (list-Post state.cluster_service laws owner s.world v.rows sees.0)))

  -- What is done for a cluster whose delete request came through, by its outcome.
  abbrev HandedBy : Cluster → ClusterId → DeleteOutcome → View → View → Type 0
  HandedBy c' id cancel_spawn v v' =
      (v'.registry ≡ Registry.cancel id v.registry) × (v'.jobs ≡ v.jobs)
  HandedBy c' id start_teardown v v' =
      (v'.registry ≡ v.registry) × (v'.jobs ≡ teardown_job c' ∷ v.jobs)
  HandedBy c' id already_deleting v v' = (v'.registry ≡ v.registry) × (v'.jobs ≡ v.jobs)

  handed :
      (c' : Cluster) (id : ClusterId) (o : DeleteOutcome) (s : Server W) (v v' : View)
      → Sees Holds s v'
      → v' ≡ record v { rows = v'.rows }
      → (after : View) × Sees Holds (follow_up c' id o s).1 after
        × (after.rows ≡ v'.rows)
        × HandedBy c' id o v after
  unfolding follow_up
  handed c' id cancel_spawn s v v' (k, r, j) same = (
    record v' { registry = Registry.cancel id v'.registry },
    (k, ap (Registry.cancel id) r, j),
    refl,
    (ap (λ (x : View). Registry.cancel id x.registry) same, ap (λ (x : View). x.jobs) same),
  )
  handed c' id start_teardown s v v' (k, r, j) same = (
    record v' { jobs = teardown_job c' ∷ v'.jobs },
    (k, r, ap (λ js. teardown_job c' ∷ js) j),
    refl,
    (ap (λ (x : View). x.registry) same, ap (λ (x : View). teardown_job c' ∷ x.jobs) same),
  )
  handed c' id already_deleting s v v' sees same =
      (v', sees, refl, (ap (λ (x : View). x.registry) same, ap (λ (x : View). x.jobs) same))

  -- The same by the state that the cluster had.
  abbrev pub Handed : ClusterState → Cluster → ClusterId → View → View → Type 0
  Handed (spawning _) c' id v v' =
      (v'.registry ≡ Registry.cancel id v.registry) × (v'.jobs ≡ v.jobs)
  Handed (ready _ _ _) c' id v v' =
      (v'.registry ≡ v.registry) × (v'.jobs ≡ teardown_job c' ∷ v.jobs)
  Handed (failed _ _) c' id v v' = (v'.registry ≡ v.registry) × (v'.jobs ≡ teardown_job c' ∷ v.jobs)
  Handed (deleting _ _) c' id v v' = (v'.registry ≡ v.registry) × (v'.jobs ≡ v.jobs)

  by_state :
      (s : ClusterState) (o : DeleteOutcome) (c' : Cluster) (id : ClusterId) (v v' : View)
      → Owed state.cluster_service laws s o
      → HandedBy c' id o v v'
      → Handed s c' id v v'
  by_state (spawning _) o c' id v v' e h = subst (λ x. HandedBy c' id x v v') e h
  by_state (ready _ _ _) o c' id v v' e h = subst (λ x. HandedBy c' id x v v') e h
  by_state (failed _ _) o c' id v v' e h = subst (λ x. HandedBy c' id x v v') e h
  by_state (deleting _ _) o c' id v v' e h = subst (λ x. HandedBy c' id x v v') e h

  -- The client's own cluster was marked, and handed on by the state that it had.
  abbrev pub Removed : ClientId → ClusterId → View → Response → View → Type 0
  Removed owner id v response v' =
      (response ≡ record { status = 202; body = deletion (record { status = "deleting" }) })
      × ((c c' : Cluster) × (find_owned id owner v.rows ≡ some c)
          × (c' ≡ record c { state = c'.state })
          × (is_deleting c'.state ≡ true)
          × (v'.rows ≡ set_state id c'.state v.rows)
          × Handed c.state c' id v v')

  -- `DELETE /clusters/{id}` that comes through answers by 202, and has left the client's cluster
  -- deleting and every other row as it was. By the state that the cluster had, exactly one of three
  -- things was done besides: a spawn still under way was told to stop, the teardown of that very
  -- cluster was started, if it was ready or failed, or nothing, where the cluster was being deleted already. A request
  -- that fails changes nothing, by 404 only where the client owns no such cluster, and apart from
  -- that only by a storage error.
  pub delete_cluster-Post :
      (owner : ClientId) (id : ClusterId) (s : Server W) (v : View)
      → Sees Holds s v
      → Post
          (Sees Holds)
          (Removed owner id v)
          (λ e v'. (v' ≡ v) × Unanswered id owner v.rows e)
          (delete_cluster state debug owner id s)
  unfolding delete_cluster
  delete_cluster-Post owner id s v sees =
      bind-Post
        (on_err (from_cluster_error debug)
          (on_world (ClusterService.request_delete state.cluster_service id owner user_requested))
          s)
        _
        (λ (c', o) s' v' sees' (k, same).
          let (c, found, whole, marked, _, by, moved) = k in
          let (after, sees'', rows, handed_on) = handed c' id o s' v v' sees' same in
          record {
            ends = (
              after,
              sees'',
              (
                refl,
                (
                  c,
                  c',
                  found,
                  whole,
                  marked,
                  rows ∙ moved,
                  by_state c.state o c' id v after by handed_on,
                ),
              ),
            );
          })
        (λ e v' r. r)
        (asked-Post (ClusterService.request_delete state.cluster_service id owner user_requested)
          owner id s v sees
          (request_delete-Post state.cluster_service laws id owner user_requested s.world v.rows
            sees.0))
