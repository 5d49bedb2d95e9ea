-- ===== src/Storage/Port.antt =====
-- The trait `ClusterRepository` of src/ports/repository.rs, and its contract.
use app_salmon.Base.{ℕ, Option, List, ◌≡◌, ◌≢◌, ◌<◌, ◌≤◌, ◌++◌, ◌∷◌, [], none, length, All}
use app_salmon.Base.Action.{Action}
use app_salmon.Base.Post.{Post}
use app_salmon.Domain.Ids.{ClusterId, ClientId, WorkerUser}
use app_salmon.Domain.Cluster.{ClusterState, Cluster}
use app_salmon.Errors.{RepositoryError}
use app_salmon.Storage.Persisted.RoundTrip.{IsWhole}
use app_salmon.Storage.Rows
use app_salmon.Storage.Rows.{find_owned, find_any, of_owner, set_state, remove}
use mathlib.Core.List.{Permᴰ}

pub data InsertOutcome : Type 0 where
  inserted : (slot : ℕ) → InsertOutcome
  quota_exceeded : (current_count : ℕ) → InsertOutcome

pub record ClusterRepository (W : Type 0) : Type 0 where
  pub try_insert_if_under_quota : Cluster → ℕ → Action W RepositoryError InsertOutcome
  pub get_owned : ClusterId → ClientId → Action W RepositoryError (Option Cluster)
  pub get_any : ClusterId → Action W RepositoryError (Option Cluster)
  pub list_by_owner : ClientId → Action W RepositoryError (List Cluster)
  pub list_all : Action W RepositoryError (List Cluster)
  pub update_state : ClusterId → ClusterState → Action W RepositoryError (Unit {0})
  pub set_worker : ClusterId → WorkerUser → Action W RepositoryError (Unit {0})
  pub delete : ClusterId → Action W RepositoryError (Unit {0})

-- What an insert that reports `outcome` has done to a store that held `cs`. The slot is free among
-- the owner's rows, and the store holds the new row with that slot, under an id that is new.
abbrev pub Inserts : Cluster → ℕ → List Cluster → InsertOutcome → List Cluster → Type 0
Inserts c limit cs (inserted slot) cs' =
    (length (of_owner c.owner cs) < limit)
    × (slot < limit)
    × All (λ d. d.slot ≢ slot) (of_owner c.owner cs)
    × (find_any c.id cs ≡ none)
    × (cs' ≡ cs ++ record c { slot = slot } ∷ [])
Inserts c limit cs (quota_exceeded n) cs' =
    (limit ≤ n) × (n ≤ length (of_owner c.owner cs)) × (cs' ≡ cs)

-- The contract of the trait. `Holds w cs` says that in the world `w` the store holds the rows `cs`.
-- An operation that fails leaves the rows as they were, and one that succeeds does what `Rows`
-- says; the quota `limit` is a `u32`.
pub record IsRepository {W : Type 0} (Holds : W → List Cluster → Type 0) (r : ClusterRepository W)
    : Type 0 where
  pub insert_lem :
      (c : Cluster) (limit : ℕ) (w : W) (cs : List Cluster)
      → limit < 4294967296
      → IsWhole c.requested_ttl
      → Holds w cs
      → Post Holds (Inserts c limit cs) (λ _ cs'. cs' ≡ cs) (r.try_insert_if_under_quota c limit w)
  pub get_owned_lem :
      (id : ClusterId) (owner : ClientId) (w : W) (cs : List Cluster)
      → Holds w cs
      → Post Holds
          (λ found cs'. (found ≡ find_owned id owner cs) × (cs' ≡ cs))
          (λ _ cs'. cs' ≡ cs)
          (r.get_owned id owner w)
  pub get_any_lem :
      (id : ClusterId) (w : W) (cs : List Cluster)
      → Holds w cs
      → Post Holds
          (λ found cs'. (found ≡ find_any id cs) × (cs' ≡ cs))
          (λ _ cs'. cs' ≡ cs)
          (r.get_any id w)
  pub list_by_owner_lem :
      (owner : ClientId) (w : W) (cs : List Cluster)
      → Holds w cs
      → Post Holds
          (λ listed cs'. Permᴰ listed (of_owner owner cs) × (cs' ≡ cs))
          (λ _ cs'. cs' ≡ cs)
          (r.list_by_owner owner w)
  pub list_all_lem :
      (w : W) (cs : List Cluster)
      → Holds w cs
      → Post Holds (λ listed cs'. Permᴰ listed cs × (cs' ≡ cs)) (λ _ cs'. cs' ≡ cs) (r.list_all w)
  pub update_state_lem :
      (id : ClusterId) (s : ClusterState) (w : W) (cs : List Cluster)
      → Holds w cs
      → Post Holds
          (λ _ cs'. (find_any id cs ≢ none) × (cs' ≡ set_state id s cs))
          (λ _ cs'. cs' ≡ cs)
          (r.update_state id s w)
  pub set_worker_lem :
      (id : ClusterId) (u : WorkerUser) (w : W) (cs : List Cluster)
      → Holds w cs
      → Post Holds
          (λ _ cs'. (find_any id cs ≢ none) × (cs' ≡ Rows.set_worker id u cs))
          (λ _ cs'. cs' ≡ cs)
          (r.set_worker id u w)
  pub delete_lem :
      (id : ClusterId) (w : W) (cs : List Cluster)
      → Holds w cs
      → Post Holds (λ _ cs'. cs' ≡ remove id cs) (λ _ cs'. cs' ≡ cs) (r.delete id w)
