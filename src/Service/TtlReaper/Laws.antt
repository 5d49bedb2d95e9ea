-- ===== src/Service/TtlReaper/Laws.antt =====
-- What a sweep of src/service/ttl_reaper.rs does to the rows.
use app_salmon.Base.{
  ℕ, ◌≡◌, ◌⊎◌, inl, inr, refl, sym, ap, ◌∙◌, subst, true, false, none, some, List, [], ◌∷◌, All,
  ==_iff, Bool-cases, arith,
}
use app_salmon.Base.Int.{◌≤ℤ◌, ◌+ℤ◌}
use app_salmon.Base.Related.{Both}
use app_salmon.Domain.Time.{DateTime, TimeDelta}
use app_salmon.Domain.Cluster.{
  Cluster, ClusterState, spawning, ready, failed, deleting, DeleteReason, ttl_expired, spawn_failed,
}
use app_salmon.Service.ClusterService.{is_deleting}
use app_salmon.Service.TtlReaper.{due_for_reaping}
use app_salmon.Storage.Allocation.{Apart, IsAllocated}
use app_salmon.Storage.Rows.{has_id, find_any, with_state, set_state}

-- A ready cluster whose time is up, or a failed one whose grace period is over.
abbrev pub IsDue : DateTime → TimeDelta → ClusterState → Type 0
IsDue now grace (ready _ decommission_at _) = decommission_at ≤ℤ now
IsDue now grace (failed failed_at _) = failed_at +ℤ grace ≤ℤ now
IsDue now grace _ = ⊥

-- A row before and after a sweep: as it was, or due and now deleting with nothing else changed.
abbrev pub Swept : DateTime → TimeDelta → Cluster → Cluster → Type 0
Swept now grace c c' =
    (c' ≡ c)
    ⊎ (IsDue now grace c.state
        × (is_deleting c'.state ≡ true)
        × (c' ≡ record c { state = c'.state }))

pub due_for_reaping-IsDue :
    (s : ClusterState) (now : DateTime) (grace : TimeDelta) (reason : DeleteReason)
    → due_for_reaping s now grace ≡ some reason
    → IsDue now grace s
unfolding due_for_reaping
due_for_reaping-IsDue (ready r d x) now grace reason h = ground arith
due_for_reaping-IsDue (failed t m) now grace reason h = ground arith
due_for_reaping-IsDue (spawning t) now grace reason h = absurd (cc)
due_for_reaping-IsDue (deleting t r) now grace reason h = absurd (cc)

-- Why a row is reaped.
abbrev pub Cause : ClusterState → DeleteReason → Type 0
Cause (ready _ _ _) reason = reason ≡ ttl_expired
Cause (failed _ _) reason = reason ≡ spawn_failed
Cause _ reason = ⊥

pub due_for_reaping-Cause :
    (s : ClusterState) (now : DateTime) (grace : TimeDelta) (reason : DeleteReason)
    → due_for_reaping s now grace ≡ some reason
    → Cause s reason
unfolding due_for_reaping
due_for_reaping-Cause (ready r d x) now grace reason h = ground arith
due_for_reaping-Cause (failed t m) now grace reason h = ground arith
due_for_reaping-Cause (spawning t) now grace reason h = absurd (cc)
due_for_reaping-Cause (deleting t r) now grace reason h = absurd (cc)

pub due_for_reaping-none :
    (s : ClusterState) (now : DateTime) (grace : TimeDelta)
    → due_for_reaping s now grace ≡ none
    → ¬ IsDue now grace s
unfolding due_for_reaping
due_for_reaping-none (ready r d x) now grace h due = ground arith
due_for_reaping-none (failed t m) now grace h due = ground arith
due_for_reaping-none (spawning t) now grace h due = due
due_for_reaping-none (deleting t r) now grace h due = due

-- A row is what a lookup of its id finds.
abbrev pub Listed : List Cluster → Cluster → Type 0
Listed cs c = find_any c.id cs ≡ some c

Listed-cons :
    (c : Cluster) (cs ds : List Cluster)
    → All (Apart c) ds
    → All (Listed cs) ds
    → All (Listed (c ∷ cs)) ds
Listed-cons c cs [] a h = tt
Listed-cons c cs (d ∷ ds) (a, rest) (h, hs) =
    let other : has_id d.id c ≡ false = ground (arith, a.0) in
    (rw other h, Listed-cons c cs ds rest hs)

pub IsAllocated-Listed : (limit : ℕ) (cs : List Cluster) → IsAllocated limit cs → All (Listed cs) cs
IsAllocated-Listed limit [] h = tt
IsAllocated-Listed limit (c ∷ cs) (_, apart, h) =
    let same : has_id c.id c ≡ true = ground arith in
    (rw same refl, Listed-cons c cs cs apart (IsAllocated-Listed limit cs h))

module _ (now : DateTime) (grace : TimeDelta) (all : List Cluster) where
  row-Swept :
      (c d d' : Cluster) (s : ClusterState)
      → Listed all c
      → Listed all d
      → IsDue now grace c.state
      → is_deleting s ≡ true
      → Swept now grace d d'
      → Swept now grace d (with_state c.id s d')
  row-Swept c d d' s lc ld due marked sw = elim (Bool-cases (has_id c.id d')) [
    | inr e ↦ rw e sw
    | inl e ↦
        let id' : d'.id ≡ c.id = (==_iff d'.id c.id).0 e in
        let rest : record d' { state = s } ≡ record d { state = s } = elim sw [
          | inl same ↦ ap (λ (x : Cluster). record x { state = s }) same
          | inr (_, _, same) ↦ ap (λ (x : Cluster). record x { state = s }) same
        ] in
        let ids : d.id ≡ c.id = sym (ap (λ (x : Cluster). x.id) rest) ∙ id' in
        let found : find_any c.id all ≡ some d = subst (λ i. find_any i all ≡ some d) ids ld in
        let row : c ≡ d = ground (arith, lc, found) in
        rw e (inr (subst (λ x. IsDue now grace x.state) row due, marked, rest))
  ]

  pub set_state-Swept :
      (c : Cluster) (s : ClusterState) (cs cs' : List Cluster)
      → Listed all c
      → All (Listed all) cs
      → IsDue now grace c.state
      → is_deleting s ≡ true
      → Both (Swept now grace) cs cs'
      → Both (Swept now grace) cs (set_state c.id s cs')
  set_state-Swept c s [] [] lc ls due marked h = tt
  set_state-Swept c s (d ∷ cs) (d' ∷ cs') lc (ld, ls) due marked (sw, h) =
      (row-Swept c d d' s lc ld due marked sw, set_state-Swept c s cs cs' lc ls due marked h)
  set_state-Swept c s [] (d' ∷ cs') lc ls due marked h = absurd h
  set_state-Swept c s (d ∷ cs) [] lc ls due marked h = absurd h

  pub unswept : (cs : List Cluster) → Both (Swept now grace) cs cs
  unswept [] = tt
  unswept (c ∷ cs) = (inl refl, unswept cs)
