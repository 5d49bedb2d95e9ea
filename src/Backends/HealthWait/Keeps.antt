-- ===== src/Backends/HealthWait/Keeps.antt =====
-- src/backends/health_wait.rs: the wait changes no container.
use app_salmon.Base.{
  ℕ, zero, suc, ◌+◌, ◌≡◌, sym, subst, Option, none, some, Bool, true, false, refl, leb, Bool-cases,
  inl, inr, Result, ok, err, ok_injective,
}
use app_salmon.Base.Post.{Post, view_of_Post, Post-of_parts}
use app_salmon.Base.Task.{Keeps}
use app_salmon.Errors.{ContainerHandle, ClusterError}
use app_salmon.Containers.{Duration, ContainerRuntime, HealthState, running}
use app_salmon.Containers.Contract.{Docker, IsContainerRuntime}
use app_salmon.Backends.HealthWait.{
  Timer, health_poll_interval, is_ready, pause, look, poll, rounds, wait_until_healthy,
}
use app_salmon.Backends.HealthWait.Ends.{IsTimer, Ready, Waits, wait_ends}

-- The daemon and the clock that a backend relies on.
pub record IsHost {W : Type 0} (Runs : W → Docker → Type 0) (time : W → ℕ) (r : ContainerRuntime W)
    (t : Timer W) : Type 0 where
  pub runs : IsContainerRuntime Runs r
  pub ticks : IsTimer time r t
  pub instant_keeps : Keeps Runs t.instant
  pub sleep_keeps : (d : Duration) → Keeps Runs (t.sleep d)

module _ {W : Type 0} {Runs : W → Docker → Type 0} {time : W → ℕ} (r : ContainerRuntime W)
    (t : Timer W) (laws : IsHost Runs time r t) (h : ContainerHandle) (timeout : Duration)
    (required : Bool) where
  pause_keeps :
      (again : W → Option (Result ClusterError (Option ℕ)) × W) (deadline : ℕ) (d : Docker)
      → ((w : W) → Runs w d → Runs (again w).1 d)
      → (w : W) → Runs w d
      → Runs (pause r t h timeout required again deadline w).1 d
  unfolding pause
  pause_keeps again deadline d rest w k =
      let k1 = laws.instant_keeps w d k in
      elim (Bool-cases (leb deadline (t.instant w).0)) [
        | inl over ↦ rw over k1
        | inr early ↦ rw early (rest _ (laws.sleep_keeps health_poll_interval _ d k1))
      ]

  look_keeps :
      (again : W → Option (Result ClusterError (Option ℕ)) × W) (deadline : ℕ) (d : Docker)
      → ((w : W) → Runs w d → Runs (again w).1 d)
      → (o : Option (Result ClusterError (Option ℕ))) (w : W) → Runs w d
      → Runs (look r t h timeout required again deadline o w).1 d
  unfolding look
  look_keeps again deadline d rest none w k = pause_keeps again deadline d rest w k
  look_keeps again deadline d rest (some x) w k = k

  poll_keeps :
      (fuel deadline : ℕ) (d : Docker) (w : W)
      → Runs w d
      → Runs (poll r t h timeout required fuel deadline w).1 d
  unfolding poll
  poll_keeps zero deadline d w k = k
  poll_keeps (suc fuel) deadline d w k =
      look_keeps (poll r t h timeout required fuel deadline) deadline d
        (λ w' k'. poll_keeps fuel deadline d w' k') _ _
        (view_of_Post (r.inspect h w) d (laws.runs.inspect_lem h w d k))

  wait_keeps :
      (w : W) (d : Docker) → Runs w d → Runs (wait_until_healthy r t h timeout required w).1 d
  unfolding wait_until_healthy
  wait_keeps w d k = poll_keeps (rounds r t h timeout required) _ d _ (laws.instant_keeps w d k)

  -- A course of the wait that ends with this report.
  abbrev pub Seen : W → Result ClusterError (Option ℕ) → Type 0
  Seen w x =
      (w' : W) × Waits r t h timeout required ((t.instant w).0 + timeout) (t.instant w).1 x w'

  -- The wait changes no container and no network, and what it reports was seen.
  pub wait-Post :
      (w : W) (d : Docker)
      → Runs w d
      → Post Runs
          (λ port d'. (d' ≡ d) × Seen w (ok port))
          (λ e d'. (d' ≡ d) × Seen w (err e))
          (wait_until_healthy r t h timeout required w)
  wait-Post w d k =
      let (x, _, same, course) = wait_ends r t h timeout required time laws.ticks w in
      Post-of_parts (Seen w) (wait_until_healthy r t h timeout required w) d (wait_keeps w d k)
        (subst (Seen w) (sym same) (_, course))

  Waits-port :
      (deadline : ℕ) (w w' : W) (x : Result ClusterError (Option ℕ)) (port : Option ℕ)
      → x ≡ ok port
      → Waits r t h timeout required deadline w x w'
      → (w : W) × (health : Option HealthState) × ((r.inspect h w).0 ≡ ok (running port health))
        × Ready r t h timeout required required health
  Waits-port deadline w w' x port e (Waits.ready _ port' health saw fit) =
      (w, health, subst (λ q. (r.inspect h w).0 ≡ ok (running q health)) (ok_injective e) saw, fit)
  Waits-port deadline w w' x port e (Waits.failed _ _ _) = cc
  Waits-port deadline w w' x port e (Waits.stopped _ _ _) = cc
  Waits-port deadline w w' x port e (Waits.vanished _ _) = cc
  Waits-port deadline w w' x port e (Waits.late _ _ _ _ _ _) = cc
  Waits-port deadline w w' x port e (Waits.again _ _ _ _ _ _ _ _ rest) =
      Waits-port deadline _ w' x port e rest

  is_ready-Ready :
      (b : Bool) (health : Option HealthState)
      → Ready r t h timeout required b health
      → is_ready b health ≡ true
  is_ready-Ready true health e = subst (λ x. is_ready true x ≡ true) (sym e) refl
  is_ready-Ready false health e = refl

  -- A port that the wait reports belongs to a container that ran, and that was healthy if that was
  -- asked for.
  pub Seen-port :
      (w : W) (port : Option ℕ)
      → Seen w (ok port)
      → (w : W) × (health : Option HealthState) × ((r.inspect h w).0 ≡ ok (running port health))
        × (is_ready required health ≡ true)
  Seen-port w port (w', course) =
      let (v, health, saw, fit) = Waits-port _ _ w' _ port refl course in
      (v, health, saw, is_ready-Ready required health fit)
