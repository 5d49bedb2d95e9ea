-- ===== src/Service/ClusterService/Laws.antt =====
-- What the operations of src/service/cluster_service.rs do, for a repository that keeps its contract.
use app_salmon.Base.{
  ℕ, ◌<◌, ◌≤◌, ◌≡◌, inl, inr, refl, sym, subst, Option, none, some, List, true, false, ◌||◌, ok,
  ok_or, length, Bool-cases, arith,
}
use app_salmon.Base.Int.{◌≤ℤ◌, ltb_ℤ}
use app_salmon.Base.Action.{lift, on_err}
use app_salmon.Base.Post.{Post, bind-Post, on_err-Post}
use app_salmon.Base.Task.{Keeps, infallible, infallible-Post}
use app_salmon.Domain.Time.{TimeDelta, DateTime}
use app_salmon.Domain.Ids.{ClusterId, ClientId}
use app_salmon.Domain.ServiceKind.{ServiceSpec}
use app_salmon.Domain.Cluster.{
  ClusterState, spawning, ready, failed, deleting, Cluster, DeleteReason, delete_requested,
}
use app_salmon.Errors.{ClusterError, ttl_out_of_bounds, quota_exceeded, not_found, repository}
use app_salmon.Lifecycle.{transition}
use app_salmon.Service.ClusterService.{
  ClusterService, DeleteOutcome, is_deleting, requested, inserted_cluster, insert_requested, create,
  info, list, mark_deleting, request_delete, outcome_of, cancel_spawn, start_teardown,
  already_deleting,
}
use app_salmon.Storage.Persisted.RoundTrip.{IsWhole}
use app_salmon.Storage.Port
use app_salmon.Storage.Port.{InsertOutcome, IsRepository, Inserts}
use app_salmon.Storage.Rows.{find_owned, of_owner, set_state}
use mathlib.Core.List.{Permᴰ}

pub record IsClusterService {W : Type 0} (Holds : W → List Cluster → Type 0)
    (self : ClusterService W) : Type 0 where
  pub stores : IsRepository Holds self.repository
  pub clock_keeps : Keeps Holds self.clock.now
  pub secrets_keep : Keeps Holds self.secrets.cluster_id
  pub quota_u32 : self.limits.max_clusters_per_user < 4294967296

module _ {W : Type 0} (self : ClusterService W) where
  abbrev pub InBounds : TimeDelta → Type 0
  InBounds ttl = (self.limits.min_ttl ≤ℤ ttl) × (ttl ≤ℤ self.limits.max_ttl)

  -- What a successful `create` has done: the new row is the request's, spawning, in a free slot.
  abbrev pub Created :
      ClientId → ServiceSpec → TimeDelta → List Cluster → Cluster → List Cluster → Type 0
  Created owner service ttl cs c cs' =
      InBounds ttl
      × ((id : ClusterId) × (now : DateTime) × (slot : ℕ) × (c
            ≡ record (requested id owner service ttl now) { slot = slot }))
      × Inserts c self.limits.max_clusters_per_user cs (Port.inserted c.slot) cs'

  -- The errors of `create`, each with what it tells of the request or of the store.
  abbrev pub Refuses : ClientId → TimeDelta → List Cluster → ClusterError → Type 0
  Refuses owner ttl cs (ttl_out_of_bounds _ _ _) = ¬ (InBounds ttl)
  Refuses owner ttl cs (quota_exceeded o n limit) =
      (o ≡ owner)
      × (limit ≡ self.limits.max_clusters_per_user)
      × (limit ≤ n)
      × (n ≤ length (of_owner owner cs))
  Refuses owner ttl cs (repository _) = Unit
  Refuses owner ttl cs _ = ⊥

module _ {W : Type 0} {Holds : W → List Cluster → Type 0} (self : ClusterService W)
    (laws : IsClusterService Holds self) where
  in_bounds :
      (ttl : TimeDelta)
      → (ltb_ℤ ttl self.limits.min_ttl || ltb_ℤ self.limits.max_ttl ttl) ≡ false
      → InBounds self ttl
  in_bounds ttl h = ground arith

  out_of_bounds :
      (ttl : TimeDelta)
      → (ltb_ℤ ttl self.limits.min_ttl || ltb_ℤ self.limits.max_ttl ttl) ≡ true
      → ¬ (InBounds self ttl)
  out_of_bounds ttl h (lo, hi) = ground arith

  inserted-Post :
      (owner : ClientId) (service : ServiceSpec) (ttl : TimeDelta) (cs : List Cluster)
      (id : ClusterId) (now : DateTime) (o : InsertOutcome) (w : W) (cs' : List Cluster)
      → InBounds self ttl
      → Holds w cs'
      → Inserts (requested id owner service ttl now) self.limits.max_clusters_per_user cs o cs'
      → Post Holds
          (Created self owner service ttl cs)
          (λ e cs'. (cs' ≡ cs) × Refuses self owner ttl cs e)
          (lift (inserted_cluster self (requested id owner service ttl now) o) w)
  unfolding inserted_cluster
  inserted-Post owner service ttl cs id now (Port.inserted slot) w cs' bounds h ins = record {
    ends = (cs', h, (bounds, (id, now, slot, refl), ins));
  }
  inserted-Post owner service ttl cs id now (Port.quota_exceeded n) w cs' bounds h
        (full, count, same) =
      record { ends = (cs', h, (same, (refl, refl, full, count))) }

  -- For a TTL of whole seconds: a `create` that succeeds had a TTL within the configured bounds and
  -- an owner under quota, and has added one row, spawning, as requested, under a new id and in a
  -- slot that no other row of the owner holds. One that fails has changed no row, and its error is
  -- a TTL out of bounds, a quota used up, each only where that is so, or an error of the storage.
  pub create-Post :
      (owner : ClientId) (service : ServiceSpec) (ttl : TimeDelta) (w : W) (cs : List Cluster)
      → IsWhole ttl
      → Holds w cs
      → Post Holds
          (Created self owner service ttl cs)
          (λ e cs'. (cs' ≡ cs) × Refuses self owner ttl cs e)
          (create self owner service ttl w)
  unfolding create insert_requested
  create-Post owner service ttl w cs whole h =
      elim (Bool-cases (ltb_ℤ ttl self.limits.min_ttl || ltb_ℤ self.limits.max_ttl ttl)) [
        | inl out ↦ rw out (record { ends = (cs, h, (refl, out_of_bounds ttl out)) })
        | inr fits ↦ rw fits (
            bind-Post (infallible self.clock.now w) _
              (λ now w1 s1 h1 e1.
                bind-Post (infallible self.secrets.cluster_id w1) _
                  (λ id w2 s2 h2 e2.
                    bind-Post
                      (on_err repository
                        (self.repository.try_insert_if_under_quota
                          (requested id owner service ttl now) self.limits.max_clusters_per_user)
                        w2)
                      _
                      (λ o w3 cs' h3 ins.
                        inserted-Post owner service ttl cs id now o w3 cs' (in_bounds ttl fits) h3
                          ins)
                      (λ e s r. r)
                      (on_err-Post repository
                        (self.repository.try_insert_if_under_quota
                          (requested id owner service ttl now) self.limits.max_clusters_per_user)
                        w2 (λ e s same. (same, tt))
                        (laws.stores.insert_lem _ _ w2 cs laws.quota_u32 whole
                          (subst (Holds w2) (cc (e1, e2)) h2))))
                  (λ e s r. r) (infallible-Post self.secrets.cluster_id w1 s1 laws.secrets_keep h1))
              (λ e s r. r) (infallible-Post self.clock.now w cs laws.clock_keeps h))
      ]

  -- The errors of the operations on one cluster: the client owns no such cluster, or storage failed.
  abbrev pub Unfound : ClusterId → ClientId → List Cluster → ClusterError → Type 0
  Unfound id owner cs (not_found i) = (i ≡ id) × (find_owned id owner cs ≡ none)
  Unfound id owner cs (repository _) = Unit
  Unfound id owner cs _ = ⊥

  found-Post :
      (id : ClusterId) (owner : ClientId) (cs : List Cluster) (found : Option Cluster) (w : W)
      → Holds w cs
      → found ≡ find_owned id owner cs
      → Post Holds
          (λ c cs'. (find_owned id owner cs ≡ some c) × (cs' ≡ cs))
          (λ e cs'. (cs' ≡ cs) × Unfound id owner cs e)
          (lift (ok_or (not_found id) found) w)
  found-Post id owner cs none w h e = record { ends = (cs, h, (refl, (refl, sym e))) }
  found-Post id owner cs (some c) w h e = record { ends = (cs, h, (sym e, refl)) }

  -- `info` answers with the cluster that has the id and belongs to the client; it reports
  -- `not_found` only where the client has no such cluster, whether or not another client has, and
  -- apart from that only storage errors. It changes no row.
  pub info-Post :
      (id : ClusterId) (owner : ClientId) (w : W) (cs : List Cluster)
      → Holds w cs
      → Post Holds
          (λ c cs'. (find_owned id owner cs ≡ some c) × (cs' ≡ cs))
          (λ e cs'. (cs' ≡ cs) × Unfound id owner cs e)
          (info self id owner w)
  unfolding info
  info-Post id owner w cs h =
      bind-Post (on_err repository (self.repository.get_owned id owner) w) _
        (λ found w' cs' h' (e, same). found-Post id owner cs found w' (subst (Holds w') same h') e)
        (λ e s r. r)
        (on_err-Post repository (self.repository.get_owned id owner) w (λ e s same. (same, tt))
          (laws.stores.get_owned_lem id owner w cs h))

  pub list-Post :
      (owner : ClientId) (w : W) (cs : List Cluster)
      → Holds w cs
      → Post Holds
          (λ listed cs'. Permᴰ listed (of_owner owner cs) × (cs' ≡ cs))
          (λ _ cs'. cs' ≡ cs)
          (list self owner w)
  unfolding list
  list-Post owner w cs h =
      on_err-Post repository (self.repository.list_by_owner owner) w (λ e s same. same)
        (laws.stores.list_by_owner_lem owner w cs h)

  -- Who is to tear the cluster down, by the state that it had.
  abbrev pub Owed : ClusterState → DeleteOutcome → Type 0
  Owed (spawning _) o = o ≡ cancel_spawn
  Owed (ready _ _ _) o = o ≡ start_teardown
  Owed (failed _ _) o = o ≡ start_teardown
  Owed (deleting _ _) o = o ≡ already_deleting

  outcome_of-Owed : (s : ClusterState) → Owed s (outcome_of self s)
  outcome_of-Owed (spawning _) = refl
  outcome_of-Owed (ready _ _ _) = refl
  outcome_of-Owed (failed _ _) = refl
  outcome_of-Owed (deleting _ _) = refl

  -- What a successful delete request has done: the client's cluster is deleting, the row's old
  -- state decides who tears it down, and a cluster that was deleting keeps its state.
  abbrev pub Deleted :
      ClusterId → ClientId → List Cluster → Cluster × DeleteOutcome → List Cluster → Type 0
  Deleted id owner cs (c', o) cs' =
      (c : Cluster) × (find_owned id owner cs ≡ some c)
      × (c' ≡ record c { state = c'.state })
      × (is_deleting c'.state ≡ true)
      × (is_deleting c.state ≡ true → c'.state ≡ c.state)
      × Owed c.state o
      × (cs' ≡ set_state id c'.state cs)

  transition-delete :
      (s : ClusterState) (at : DateTime) (reason : DeleteReason)
      → (s' : ClusterState) × (transition s (delete_requested at reason) ≡ ok s')
        × (is_deleting s' ≡ true)
        × (is_deleting s ≡ true → s' ≡ s)
  unfolding transition
  transition-delete (spawning _) at reason = (deleting at reason, refl, refl, λ e. absurd (cc))
  transition-delete (ready _ _ _) at reason = (deleting at reason, refl, refl, λ e. absurd (cc))
  transition-delete (failed _ _) at reason = (deleting at reason, refl, refl, λ e. absurd (cc))
  transition-delete (deleting a r) at reason = (deleting a r, refl, refl, λ e. refl)

  mark-Post :
      (id : ClusterId) (owner : ClientId) (c : Cluster) (s' : ClusterState) (w : W)
      (cs : List Cluster)
      → Holds w cs
      → find_owned id owner cs ≡ some c
      → is_deleting s' ≡ true
      → (is_deleting c.state ≡ true → s' ≡ c.state)
      → Post Holds
          (Deleted id owner cs)
          (λ e cs'. (cs' ≡ cs) × Unfound id owner cs e)
          (mark_deleting self id c (ok s') w)
  unfolding mark_deleting
  mark-Post id owner c s' w cs h found marked kept =
      bind-Post (on_err repository (self.repository.update_state id s') w) _
        (λ _ w' cs' h' (_, same). record {
          ends = (cs', h', (c, found, refl, marked, kept, outcome_of-Owed c.state, same));
        })
        (λ e s r. r)
        (on_err-Post repository (self.repository.update_state id s') w (λ e s same. (same, tt))
          (laws.stores.update_state_lem id s' w cs h))

  -- A delete request that succeeds leaves the client's cluster deleting, with the state that it had
  -- if it was deleting before, and changes no other row; it answers with that cluster and with who
  -- is to tear it down, by the state it had: a spawn under way is to be
  -- cancelled, a ready or failed cluster to be torn down, one that was deleting is left to whoever
  -- does it. One that fails has changed no row, and reports that the
  -- client has no such cluster, only where that is so, or a storage error; an invalid transition is
  -- never reported.
  pub request_delete-Post :
      (id : ClusterId) (owner : ClientId) (reason : DeleteReason) (w : W) (cs : List Cluster)
      → Holds w cs
      → Post Holds
          (Deleted id owner cs)
          (λ e cs'. (cs' ≡ cs) × Unfound id owner cs e)
          (request_delete self id owner reason w)
  unfolding request_delete
  request_delete-Post id owner reason w cs h =
      bind-Post (info self id owner w) _
        (λ c w1 s1 h1 (found, e1).
          bind-Post (infallible self.clock.now w1) _
            (λ at w2 s2 h2 e2.
              let (s', moved, marked, kept) = transition-delete c.state at reason in
              subst
                (λ r.
                  Post Holds (Deleted id owner cs) (λ e cs'. (cs' ≡ cs) × Unfound id owner cs e)
                    (mark_deleting self id c r w2))
                (sym moved)
                (mark-Post id owner c s' w2 cs (subst (Holds w2) (cc (e1, e2)) h2) found marked
                  kept))
            (λ e s r. r) (infallible-Post self.clock.now w1 s1 laws.clock_keeps h1))
        (λ e s r. r) (info-Post id owner w cs h)
