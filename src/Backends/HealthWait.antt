-- ===== src/Backends/HealthWait.antt =====
-- src/backends/health_wait.rs. The loop has fuel for one inspection per poll interval; `none` says
-- that it ran out. `Timer` is tokio's clock, whose instants are nanoseconds.
pub mod Ends
pub mod Keeps
use app_salmon.Base.{
  ℕ, zero, suc, ◌+◌, ◌/◌, Option, none, some, Bool, true, false, leb, Result, ok, err,
  if◌then◌else◌,
}
use app_salmon.Base.Action.{Action}
use app_salmon.Base.Task.{Task}
use app_salmon.Errors.{
  ContainerHandle, DockerError, health_check_timeout, container_not_healthy, ClusterError, docker,
}
use app_salmon.Containers.{
  Duration, from_millis, as_secs, ContainerRuntime, ContainerStatus, running, exited, missing,
  HealthState, healthy,
}

pub record Timer (W : Type 0) : Type 0 where
  pub instant : Task W ℕ
  pub sleep : Duration → Task W (Unit {0})

abbrev pub health_poll_interval : Duration
health_poll_interval = from_millis 500

abbrev pub is_ready : Bool → Option HealthState → Bool
is_ready true (some healthy) = true
is_ready true _ = false
is_ready false _ = true

module _ {W : Type 0} (container_runtime : ContainerRuntime W) (timer : Timer W)
    (handle : ContainerHandle) (timeout : Duration) (requires_healthcheck : Bool) where
  -- One look at the container: the end of the wait, or none.
  pub judge : Result DockerError ContainerStatus → Option (Result ClusterError (Option ℕ))
  judge (err e) = some (err (docker e))
  judge (ok (running published_port health)) =
      if is_ready requires_healthcheck health then some (ok published_port) else none
  judge (ok (exited exit_code)) =
      some (err (docker (container_not_healthy handle (some exit_code))))
  judge (ok missing) = some (err (docker (container_not_healthy handle none)))

  -- What follows a look that did not end the wait.
  pub pause :
      (W → Option (Result ClusterError (Option ℕ)) × W)
      → ℕ
      → W
      → Option (Result ClusterError (Option ℕ)) × W
  pause again deadline w =
      let (instant, w') = timer.instant w in
      if leb deadline instant
      then (some (err (docker (health_check_timeout handle (as_secs timeout)))), w')
      else again (timer.sleep health_poll_interval w').1

  pub look :
      (W → Option (Result ClusterError (Option ℕ)) × W)
      → ℕ
      → Option (Result ClusterError (Option ℕ))
      → W
      → Option (Result ClusterError (Option ℕ)) × W
  unfolding pause
  look again deadline (some r) w = (some r, w)
  look again deadline none w = pause again deadline w

  pub poll : ℕ → ℕ → W → Option (Result ClusterError (Option ℕ)) × W
  unfolding look judge
  poll zero deadline w = (none, w)
  poll (suc fuel) deadline w =
      let (status, w') = container_runtime.inspect handle w in
      look (poll fuel deadline) deadline (judge status) w'

  abbrev pub rounds : ℕ
  rounds = suc (timeout / health_poll_interval + 1)

  abbrev or_timeout : Option (Result ClusterError (Option ℕ)) → Result ClusterError (Option ℕ)
  or_timeout (some r) = r
  or_timeout none = err (docker (health_check_timeout handle (as_secs timeout)))

  unfoldable pub wait_until_healthy : Action W ClusterError (Option ℕ)
  unfolding poll
  wait_until_healthy w =
      let (start, w1) = timer.instant w in
      let (r, w2) = poll rounds (start + timeout) w1 in (or_timeout r, w2)
