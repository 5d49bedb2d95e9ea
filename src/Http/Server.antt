-- ===== src/Http/Server.antt =====
-- `AppState` of src/http/mod.rs, and what a request can change: the world, the registry of spawn
-- tasks, and the tasks that were handed to the runtime, the last one first.
pub mod View
use app_salmon.Base.{ℕ, String, Option, List, ◌∷◌, Result, ok, err}
use app_salmon.Base.Action.{Action}
use app_salmon.Base.Task.{Task}
use app_salmon.Domain.Time.{TimeDelta}
use app_salmon.Domain.Ids.{ClusterId}
use app_salmon.Domain.Cluster.{Cluster}
use app_salmon.Auth.{ClientRegistry}
use app_salmon.Service.ClusterService.{ClusterService}
use app_salmon.Service.Registry.{TaskRegistry, Token}

pub data Job : Type 0 where
  spawn_job : Cluster → Token → Option (List ℕ) → Job
  teardown_job : Cluster → Job

pub record AppState (W : Type 0) : Type 0 where
  pub cluster_service : ClusterService W
  pub client_registry : ClientRegistry
  pub spawn_estimate : TimeDelta

pub record Server (W : Type 0) : Type 0 where
  pub world : W
  pub task_registry : TaskRegistry
  pub started : List Job

module _ {W : Type 0} where
  -- A call of the service.
  abbrev pub on_world : {E A : Type 0} → Action W E A → Action (Server W) E A
  on_world m s = let (r, w) = m s.world in (r, record s { world = w })

  abbrev pub on_registry : {A : Type 0} → (TaskRegistry → A × TaskRegistry) → Task (Server W) A
  on_registry f s = let (a, r) = f s.task_registry in (a, record s { task_registry = r })

  -- `tokio::spawn`.
  abbrev pub start : Job → Task (Server W) (Unit {0})
  start job s = (tt, record s { started = job ∷ s.started })
