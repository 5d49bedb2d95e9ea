-- ===== src/Lifecycle/Laws.antt =====
-- What `transition` of src/domain/cluster.rs allows, over one event and over any sequence of them.
use app_salmon.Base.{ℕ, ◌<◌, ◌≡◌, ◌⊎◌, inl, inr, refl, ok, err, arith}
use app_salmon.Domain.Cluster.{
  ClusterState, spawning, ready, failed, deleting, ClusterEvent, spawn_succeeded, spawn_failed,
  delete_requested,
}
use app_salmon.Errors.{invalid_transition}
use app_salmon.Lifecycle.{transition}

-- How far a state is from the end of the lifecycle.
abbrev pub rank : ClusterState → ℕ
rank (spawning _) = 0
rank (ready _ _ _) = 1
rank (failed _ _) = 1
rank (deleting _ _) = 2

-- The events that may move a cluster on: a spawn's outcome applies to a spawning cluster only, a
-- delete request to every cluster.
abbrev pub Applies : ClusterState → ClusterEvent → Type 0
Applies s (delete_requested _ _) = Unit
Applies (spawning _) e = Unit
Applies s e = ⊥

-- `transition` succeeds on the pairs of `Applies`, and on every other pair reports the state and
-- the event that it was given.
pub transition-Applies :
    (s : ClusterState) (e : ClusterEvent)
    → (Applies s e × ((s' : ClusterState) × (transition s e ≡ ok s')))
      ⊎ (¬ (Applies s e) × (transition s e ≡ err (invalid_transition s e)))
unfolding transition
transition-Applies (spawning _) (spawn_succeeded r d c) = inl (tt, (ready r d c, refl))
transition-Applies (spawning _) (spawn_failed f x) = inl (tt, (failed f x, refl))
transition-Applies (spawning _) (delete_requested a r) = inl (tt, (deleting a r, refl))
transition-Applies (ready _ _ _) (delete_requested a r) = inl (tt, (deleting a r, refl))
transition-Applies (failed _ _) (delete_requested a r) = inl (tt, (deleting a r, refl))
transition-Applies (deleting a r) (delete_requested _ _) = inl (tt, (deleting a r, refl))
transition-Applies _ _ = inr (λ h. h, refl)

-- A successful transition keeps the state, or brings the cluster strictly closer to its deletion.
pub transition-advances :
    (s s' : ClusterState) (e : ClusterEvent)
    → transition s e ≡ ok s'
    → (s' ≡ s) ⊎ (rank s < rank s')
unfolding transition
transition-advances s s' e h = ground arith

-- The states that a sequence of successful transitions leads to.
pub data Reaches (s : ClusterState) : ClusterState → Type 0 where
  here : Reaches s s
  next : {t u : ClusterState} (e : ClusterEvent) → Reaches s t → transition t e ≡ ok u → Reaches s u

-- However many events are applied, a cluster that has changed state never returns: the state that
-- it reaches is the one it had, or is strictly closer to deletion. So a deleting cluster stays as
-- it is, and a cluster that was ready or failed keeps those very details until it is deleting.
pub Reaches-advances :
    (s : ClusterState) {u : ClusterState} → Reaches s u → (u ≡ s) ⊎ (rank s < rank u)
Reaches-advances s here = inl refl
Reaches-advances s (next {t} {u} e r h) =
    ground (arith, Reaches-advances s r, transition-advances t u e h)
