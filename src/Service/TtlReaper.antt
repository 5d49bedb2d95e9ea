-- ===== src/Service/TtlReaper.antt =====
-- src/service/ttl_reaper.rs. `run_forever` repeats `tick` on a timer.
pub mod Laws
pub mod Marks
pub mod Sweeps
use app_salmon.Base.{Option, none, some, List, [], ◌∷◌, ◌++◌, Result, ok, err, if◌then◌else◌}
use app_salmon.Base.Int.{leb_ℤ, ◌+ℤ◌}
use app_salmon.Base.Task.{Task, ◌>>=◌, give}
use app_salmon.Domain.Time.{DateTime, TimeDelta}
use app_salmon.Domain.Cluster.{
  ClusterState, ready, failed, Cluster, DeleteReason, ttl_expired, spawn_failed,
}
use app_salmon.Errors.{RepositoryError, ClusterError}
use app_salmon.Service.ClusterService.{
  ClusterService, DeleteOutcome, start_teardown, cancel_spawn, already_deleting, request_delete,
}
use app_salmon.Service.Deps.{TaskDeps}

unfoldable pub due_for_reaping : ClusterState → DateTime → TimeDelta → Option DeleteReason
due_for_reaping (ready _ decommission_at _) now grace =
    if leb_ℤ decommission_at now then some ttl_expired else none
due_for_reaping (failed failed_at _) now grace =
    if leb_ℤ (failed_at +ℤ grace) now then some DeleteReason.spawn_failed else none
due_for_reaping _ now grace = none

-- The clusters for which the reaper spawns a teardown task.
unfoldable pub torn_down : List (Cluster × DeleteOutcome) → List Cluster
torn_down [] = []
torn_down ((cluster, start_teardown) ∷ rest) = cluster ∷ torn_down rest
torn_down ((cluster, cancel_spawn) ∷ rest) = torn_down rest
torn_down ((cluster, already_deleting) ∷ rest) = torn_down rest

module _ {W : Type 0} (service : ClusterService W) where
  -- A request that failed is logged and left out.
  unfoldable pub collect :
      Result ClusterError (Cluster × DeleteOutcome) → List (Cluster × DeleteOutcome)
  collect (ok result) = result ∷ []
  collect (err _) = []

  unfoldable pub reap : Option DeleteReason → Cluster → Task W (List (Cluster × DeleteOutcome))
  reap none cluster = give []
  reap (some reason) cluster = do
    result ← request_delete service cluster.id cluster.owner reason
    give (collect result)

  unfoldable pub sweep :
      DateTime → TimeDelta → List Cluster → Task W (List (Cluster × DeleteOutcome))
  sweep now grace [] = give []
  sweep now grace (cluster ∷ rest) = do
    first ← reap (due_for_reaping cluster.state now grace) cluster
    others ← sweep now grace rest
    give (first ++ others)

  unfoldable pub sweep_listed :
      DateTime
      → TimeDelta
      → Result RepositoryError (List Cluster)
      → Task W (List (Cluster × DeleteOutcome))
  sweep_listed now grace (ok rows) = sweep now grace rows
  sweep_listed now grace (err _) = give []

  unfoldable pub run_once : TaskDeps W → TimeDelta → Task W (List (Cluster × DeleteOutcome))
  run_once deps failed_grace_period = do
    now ← deps.clock.now
    all ← deps.repository.list_all
    sweep_listed now failed_grace_period all

  -- One turn of the loop, with the clusters whose teardown starts.
  unfoldable pub tick : TaskDeps W → TimeDelta → Task W (List Cluster)
  unfolding torn_down run_once
  tick deps failed_grace_period = do
    outcomes ← run_once deps failed_grace_period
    give (torn_down outcomes)
