-- ===== src/Service/TtlReaper/Marks.antt =====
-- src/service/ttl_reaper.rs: a row that is being deleted stays so.
use app_salmon.Base.{
  ℕ, ◌≡◌, ◌⊎◌, inl, inr, refl, sym, subst, true, some, List, [], ◌∷◌, Bool-cases, arith,
}
use app_salmon.Domain.Ids.{ClientId}
use app_salmon.Domain.Cluster.{Cluster, ClusterState}
use app_salmon.Service.ClusterService.{is_deleting}
use app_salmon.Storage.Rows.{has_id, find_owned, find_any, set_state}
use mathlib.Core.Option.{some-injective}

-- The row of the cluster is being deleted.
abbrev pub Marked : Cluster → List Cluster → Type 0
Marked c cs = (d : Cluster) × (find_any c.id cs ≡ some d) × (is_deleting d.state ≡ true)

pub set_state-Marked :
    (c : Cluster) (id : ℕ) (s : ClusterState) (cs : List Cluster) (d : Cluster)
    → is_deleting s ≡ true
    → find_any c.id cs ≡ some d
    → (is_deleting d.state ≡ true) ⊎ (c.id ≡ id)
    → Marked c (set_state id s cs)
set_state-Marked c id s [] d marked found why = absurd (ground arith)
set_state-Marked c id s (x ∷ cs) d marked found why = elim (Bool-cases (has_id id x)) [
  | inl here ↦ elim (Bool-cases (has_id c.id x)) [
    | inl mine ↦ rw (here, mine) (record x { state = s }, refl, marked)
    | inr other ↦
        let found' : find_any c.id cs ≡ some d = rw other at found in
        rw (here, other) (set_state-Marked c id s cs d marked found' why)
  ]
  | inr away ↦ elim (Bool-cases (has_id c.id x)) [
    | inl mine ↦
        let same : x ≡ d = some-injective _ _ (rw mine at found) in
        rw (away, mine)
          (
            x,
            refl,
            subst (λ (y : Cluster). is_deleting y.state ≡ true) (sym same)
                (elim why [ inl before ↦ before | inr it ↦ absurd (ground (arith, away, mine)) ]),
          )
    | inr other ↦
        let found' : find_any c.id cs ≡ some d = rw other at found in
        rw (away, other) (set_state-Marked c id s cs d marked found' why)
  ]
]

pub find_any_owned :
    (id : ℕ) (owner : ClientId) (cs : List Cluster) (c : Cluster)
    → find_owned id owner cs ≡ some c
    → (d : Cluster) × (find_any id cs ≡ some d)
find_any_owned id owner [] c found = absurd (ground arith)
find_any_owned id owner (x ∷ cs) c found = elim (Bool-cases (has_id id x)) [
  | inl mine ↦ rw mine (x, refl)
  | inr other ↦
      let found' : find_owned id owner cs ≡ some c = rw other at found in
      rw other (find_any_owned id owner cs c found')
]
