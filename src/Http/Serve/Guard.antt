-- ===== src/Http/Serve/Guard.antt =====
-- src/http/mod.rs: no request is served before its caller is known, and none reaches the rows of
-- another client.
use app_salmon.Base.{
  ℕ, ◌≡◌, ◌≢◌, ◌∙◌, refl, sym, subst, ap, List, Result, ok, err, ◌⊎◌, inl, inr, Result-cases,
}
use app_salmon.Base.Post.{Post, weaken}
use app_salmon.Base.Task.{Leaves, Either, outcome, weaken-Leaves}
use app_salmon.Domain.Ids.{ClientId}
use app_salmon.Domain.Cluster.{Cluster}
use app_salmon.Errors.{Source}
use app_salmon.Auth.{AuthError, authenticate}
use app_salmon.Auth.Hashing.{Hasher}
use app_salmon.Service.ClusterService.Laws.{IsClusterService}
use app_salmon.Storage.Allocation.{IsAllocated, set_state-IsAllocated, Inserts-IsAllocated}
use app_salmon.Storage.Allocation.Owners.{of_owner-set_state, of_owner-append}
use app_salmon.Storage.Port.{inserted}
use app_salmon.Storage.Rows.{of_owner}
use app_salmon.Http.ApiErrors.{ApiError, auth, Debug, into_response}
use app_salmon.Http.Handlers.{Request}
use app_salmon.Http.Handlers.Laws.{
  Unanswered, Shown, AllShown, Removed, get_cluster-Post, list_clusters-Post, delete_cluster-Post,
}
use app_salmon.Http.Handlers.Create.{Rejects, Launched, create_cluster-Post}
use app_salmon.Http.Responses.{CreateClusterRequest, Response}
use app_salmon.Http.Server.{AppState, Server}
use app_salmon.Http.Server.View.{View, Sees}
use app_salmon.Http.Serve.{
  Route, post_clusters, get_clusters, get_one, delete_one, from_request_parts, dispatch, settled,
  serve,
}

-- The rows of every other client are as they were, and the rows stay within slots and quota.
abbrev pub Spares : ℕ → ClientId → View → View → Type 0
Spares limit owner v v' =
    ((other : ClientId) → other ≢ owner → of_owner other v'.rows ≡ of_owner other v.rows)
    × IsAllocated limit v'.rows

module _ {W : Type 0} {Holds : W → List Cluster → Type 0} (hasher : Hasher) (state : AppState W)
    (laws : IsClusterService Holds state.cluster_service) (debug : Debug)
    (from_slice : List ℕ → Result Source CreateClusterRequest) where
  abbrev quota : ℕ
  quota = state.cluster_service.limits.max_clusters_per_user

  Spares-none :
      (owner : ClientId) (v v' : View) → IsAllocated quota v.rows → v' ≡ v → Spares quota owner v v'
  Spares-none owner v v' a same = (
    λ other n. ap (λ (x : View). of_owner other x.rows) same,
    subst (λ (x : View). IsAllocated quota x.rows) (sym same) a,
  )

  -- What a route answers to the client `owner`, and what it then changes: as its handler succeeds on
  -- the rows of that client, or by an error.
  abbrev pub Answered : Route → Request → ClientId → View → Response → View → Type 0
  Answered post_clusters request owner v response v' =
      Launched state laws debug from_slice owner request v response v'
      ⊎ ((e : ApiError) × (response ≡ into_response e)
          × (v' ≡ v)
          × Rejects state laws debug owner v.rows e)
  Answered get_clusters request owner v response v' =
      AllShown state laws debug owner v response v'
      ⊎ ((e : ApiError) × (response ≡ into_response e) × (v' ≡ v))
  Answered (get_one id) request owner v response v' =
      Shown state laws debug owner id v response v'
      ⊎ ((e : ApiError) × (response ≡ into_response e) × (v' ≡ v) × Unanswered id owner v.rows e)
  Answered (delete_one id) request owner v response v' =
      Removed state laws debug owner id v response v'
      ⊎ ((e : ApiError) × (response ≡ into_response e) × (v' ≡ v) × Unanswered id owner v.rows e)

  -- Both of the above.
  abbrev Fits : Route → Request → ClientId → View → Response → View → Type 0
  Fits route request owner v response v' =
      Answered route request owner v response v' × Spares quota owner v v'

  dispatch-Fits :
      (route : Route) (request : Request) (owner : ClientId) (s : Server W) (v : View)
      → Sees Holds s v
      → IsAllocated quota v.rows
      → Post
          (Sees Holds)
          (Fits route request owner v)
          (λ e v'. Fits route request owner v (into_response e) v')
          (dispatch hasher state debug from_slice route request owner s)
  unfolding dispatch
  dispatch-Fits post_clusters request owner s v sees a =
      weaken _
        (λ response v' h.
          let (body, tar, read, (ttl, c, t, (bounds, (id, now, slot, made), ins), _, _)) = h in
          let mine : c.owner ≡ owner = ap (λ (x : Cluster). x.owner) made in
          (
            inl h,
            (
              λ other n.
                  ap (of_owner other) ins.4 ∙ of_owner-append other c v.rows (λ e. n (e ∙ mine)),
              Inserts-IsAllocated c quota v.rows v'.rows (inserted c.slot) ins a,
            ),
          ))
        (λ e v' r. (inr (e, refl, r.0, r.1), Spares-none owner v v' a r.0))
        (create_cluster-Post state laws debug from_slice owner request s v sees)
  dispatch-Fits get_clusters request owner s v sees a =
      weaken _ (λ response v' r. (inl r, Spares-none owner v v' a r.0))
        (λ e v' r. (inr (e, refl, r), Spares-none owner v v' a r))
        (list_clusters-Post state laws debug owner s v sees)
  dispatch-Fits (get_one id) request owner s v sees a =
      weaken _ (λ response v' r. (inl r, Spares-none owner v v' a r.0))
        (λ e v' r. (inr (e, refl, r.0, r.1), Spares-none owner v v' a r.0))
        (get_cluster-Post state laws debug owner id s v sees)
  dispatch-Fits (delete_one id) request owner s v sees a =
      weaken _
        (λ response v' h.
          let (_, (c, c', found, _, _, rows, _)) = h in
          (
            inl h,
            (
              λ other n.
                  ap (of_owner other) rows
                  ∙ of_owner-set_state quota id owner other c'.state v.rows c a found n,
              subst (IsAllocated quota) (sym rows)
                  (set_state-IsAllocated quota id c'.state v.rows a),
            ),
          ))
        (λ e v' r. (inr (e, refl, r.0, r.1), Spares-none owner v v' a r.0))
        (delete_cluster-Post state laws debug owner id s v sees)

  either_way :
      (P : Response → View → Type 0) (r : Result ApiError Response) (v' : View)
      → Either P (λ e x. P (into_response e) x) r v'
      → P (settled hasher state debug from_slice r) v'
  either_way P (ok _) v' h = h
  either_way P (err _) v' h = h

  refused_status : (e : AuthError) → (into_response (auth e)).status ≡ 401
  unfolding into_response
  refused_status e = refl

  -- How a request is served: refused unread, or on behalf of the client that its header names.
  abbrev pub Served : Route → Request → View → Response → View → Type 0
  Served route request v response v' =
      ((e : AuthError) × (authenticate hasher state.client_registry request.authorization ≡ err e)
        × (response ≡ into_response (auth e))
        × (response.status ≡ 401)
        × (v' ≡ v))
      ⊎ ((owner : ClientId) × (authenticate hasher state.client_registry request.authorization
            ≡ ok owner)
          × Answered route request owner v response v'
          × Spares quota owner v v')

  -- A request whose header is not accepted is answered by 401 and changes nothing: no row, no token,
  -- no task. Any other is served for the client that its header names: by its route, the response and
  -- what has changed are those of creating, listing, showing or deleting on that client's own rows,
  -- or the response is that of an error and nothing has changed. The rows of every other client are
  -- exactly as they were, and all rows are within the quota, with distinct ids and slots.
  pub serve-Served :
      (route : Route) (request : Request) (s : Server W) (v : View)
      → Sees Holds s v
      → IsAllocated quota v.rows
      → Leaves
          (Sees Holds)
          (Served route request v)
          (serve hasher state debug from_slice route request s)
  unfolding serve from_request_parts
  serve-Served route request s v sees a =
      elim (Result-cases (authenticate hasher state.client_registry request.authorization)) [
        | inl (owner, known) ↦ rw known (
            weaken-Leaves (settled hasher state debug from_slice)
              (λ v' h.
                let fits = either_way (Fits route request owner v) _ v' h in
                inr (owner, known, fits.0, fits.1))
              (outcome (dispatch hasher state debug from_slice route request owner s)
                (dispatch-Fits route request owner s v sees a)))
        | inr (e, refused) ↦ rw refused (record {
          view = v;
          holds = sees;
          meets = inl (e, refused, refl, refused_status e, refl);
        })
      ]
