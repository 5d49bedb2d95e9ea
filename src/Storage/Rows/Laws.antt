-- ===== src/Storage/Rows/Laws.antt =====
-- How the changes and the queries of src/ports/repository.rs interact.
use app_salmon.Base.{
  ◌≡◌, ◌≢◌, refl, ap, none, false, some, List, [], ◌∷◌, Bool-cases, inl, inr, arith,
}
use app_salmon.Domain.Ids.{ClusterId, ClientId}
use app_salmon.Domain.Cluster.{Cluster, ClusterState}
use app_salmon.Storage.Rows.{has_id, has_owner, find_owned, find_any, set_state, remove}
use mathlib.Core.Option

pub find_owned-set_state :
    (id : ClusterId) (owner : ClientId) (s : ClusterState) (cs : List Cluster) (c : Cluster)
    → find_owned id owner cs ≡ some c
    → find_owned id owner (set_state id s cs) ≡ some (record c { state = s })
find_owned-set_state id owner s [] c h = absurd (cc)
find_owned-set_state id owner s (d ∷ cs) c h = elim (Bool-cases (has_id id d)) [
  | inr e ↦
      let later : find_owned id owner cs ≡ some c = rw e at h in
      rw (e, e) (find_owned-set_state id owner s cs c later)
  | inl e ↦ elim (Bool-cases (has_owner owner d)) [
    | inl o ↦
        let same : d ≡ c = ground (arith, e, o, h) in
        rw (e, e, o) (ap (λ (x : Cluster). some (record x { state = s })) same)
    | inr o ↦
        let later : find_owned id owner cs ≡ some c = rw (e, o) at h in
        rw (e, e, o) (find_owned-set_state id owner s cs c later)
  ]
]

pub set_state-set_state :
    (id : ClusterId) (s t : ClusterState) (cs : List Cluster)
    → set_state id t (set_state id s cs) ≡ set_state id t cs
set_state-set_state id s t [] = refl
set_state-set_state id s t (c ∷ cs) = elim (Bool-cases (has_id id c)) [
  | inl e ↦ rw (e, e) (ap (λ x. record c { state = t } ∷ x) (set_state-set_state id s t cs))
  | inr e ↦ rw (e, e) (ap (λ x. c ∷ x) (set_state-set_state id s t cs))
]

pub find_any-set_state :
    (id : ClusterId) (s : ClusterState) (cs : List Cluster)
    → find_any id (set_state id s cs)
      ≡ Option.map (λ (d : Cluster). record d { state = s }) (find_any id cs)
find_any-set_state id s [] = refl
find_any-set_state id s (c ∷ cs) = elim (Bool-cases (has_id id c)) [
  | inl e ↦ rw (e, e) refl
  | inr e ↦ rw (e, e) (find_any-set_state id s cs)
]

pub find_any-set_state_other :
    (id key : ClusterId) (s : ClusterState) (cs : List Cluster)
    → id ≢ key
    → find_any key (set_state id s cs) ≡ find_any key cs
find_any-set_state_other id key s [] n = refl
find_any-set_state_other id key s (c ∷ cs) n = elim (Bool-cases (has_id id c)) [
  | inl e ↦
      let other : has_id key c ≡ false = ground (arith, e, n) in
      rw (e, other) (find_any-set_state_other id key s cs n)
  | inr e ↦ elim (Bool-cases (has_id key c)) [
    | inl k ↦ rw (e, k) refl
    | inr k ↦ rw (e, k) (find_any-set_state_other id key s cs n)
  ]
]

pub find_any-remove : (id : ClusterId) (cs : List Cluster) → find_any id (remove id cs) ≡ none
find_any-remove id [] = refl
find_any-remove id (c ∷ cs) = elim (Bool-cases (has_id id c)) [
  | inl e ↦ rw e (find_any-remove id cs)
  | inr e ↦ rw (e, e) (find_any-remove id cs)
]

pub find_any-remove_other :
    (id key : ClusterId) (cs : List Cluster)
    → id ≢ key
    → find_any key (remove id cs) ≡ find_any key cs
find_any-remove_other id key [] n = refl
find_any-remove_other id key (c ∷ cs) n = elim (Bool-cases (has_id id c)) [
  | inl e ↦
      let other : has_id key c ≡ false = ground (arith, e, n) in
      rw (e, other) (find_any-remove_other id key cs n)
  | inr e ↦ elim (Bool-cases (has_id key c)) [
    | inl k ↦ rw (e, k) refl
    | inr k ↦ rw (e, k) (find_any-remove_other id key cs n)
  ]
]
