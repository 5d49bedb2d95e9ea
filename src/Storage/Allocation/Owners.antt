-- ===== src/Storage/Allocation/Owners.antt =====
-- A change to one client's row leaves the rows of the others alone: the ids are distinct.
use app_salmon.Base.{
  ℕ, ◌≡◌, ◌≢◌, refl, ap, false, List, [], ◌∷◌, ◌++◌, none, some, All, ==_iff, eq_iff, Bool-cases,
  inl, inr, arith,
}
use app_salmon.Domain.Ids.{ClusterId, ClientId}
use app_salmon.Domain.Cluster.{ClusterState, Cluster}
use app_salmon.Storage.Allocation.{Apart, IsAllocated}
use app_salmon.Storage.Rows.{has_id, has_owner, find_owned, of_owner, set_state}

module _ (d : Cluster) (id : ClusterId) (same : d.id ≡ id) where
  set_state_missing :
      (s : ClusterState) (cs : List Cluster) → All (Apart d) cs → set_state id s cs ≡ cs
  set_state_missing s [] h = refl
  set_state_missing s (c ∷ cs) h =
      let other : has_id id c ≡ false = ground (arith, h.0.0) in
      rw other (ap (λ x. c ∷ x) (set_state_missing s cs h.1))

  find_owned_missing :
      (owner : ClientId) (cs : List Cluster) → All (Apart d) cs → find_owned id owner cs ≡ none
  find_owned_missing owner [] h = refl
  find_owned_missing owner (c ∷ cs) h =
      let other : has_id id c ≡ false = ground (arith, h.0.0) in
      rw other (find_owned_missing owner cs h.1)

pub of_owner-set_state :
    (limit : ℕ) (id : ClusterId) (owner other : ClientId) (s : ClusterState) (cs : List Cluster)
    (c : Cluster)
    → IsAllocated limit cs
    → find_owned id owner cs ≡ some c
    → other ≢ owner
    → of_owner other (set_state id s cs) ≡ of_owner other cs
of_owner-set_state limit id owner other s [] c a found n = refl
of_owner-set_state limit id owner other s (d ∷ ds) c a found n = elim (Bool-cases (has_id id d)) [
  | inr e ↦
      let later : find_owned id owner ds ≡ some c = rw e at found in
      let ih = of_owner-set_state limit id owner other s ds c a.2 later n in
      elim (Bool-cases (has_owner other d)) [
        | inl o ↦ rw (e, o) (ap (λ x. d ∷ x) ih)
        | inr o ↦ rw (e, o) ih
      ]
  | inl e ↦
      let same : d.id ≡ id = (==_iff d.id id).0 e in
      elim (Bool-cases (has_owner owner d)) [
        | inl o ↦
            let mine : d.owner ≡ owner = (eq_iff d.owner owner).0 o in
            let others : has_owner other d ≡ false =
              ground (arith, eq_iff d.owner other, mine, n) in
            rw (e, others, set_state_missing d id same s ds a.1) refl
        | inr o ↦
            let later : find_owned id owner ds ≡ some c = rw (e, o) at found in
            absurd (cc (later, find_owned_missing d id same owner ds a.1))
      ]
]

pub of_owner-append :
    (other : ClientId) (c : Cluster) (cs : List Cluster)
    → other ≢ c.owner
    → of_owner other (cs ++ c ∷ []) ≡ of_owner other cs
of_owner-append other c [] n =
    let others : has_owner other c ≡ false = ground (arith, eq_iff c.owner other, n) in
    rw others refl
of_owner-append other c (d ∷ ds) n = elim (Bool-cases (has_owner other d)) [
  | inl o ↦ rw o (ap (λ x. d ∷ x) (of_owner-append other c ds n))
  | inr o ↦ rw o (of_owner-append other c ds n)
]
