-- ===== src/Backends/HealthWait/Ends.antt =====
-- src/backends/health_wait.rs: the wait comes to an end, and what it reports was seen.
use app_salmon.Base.{
  ℕ, zero, suc, ◌+◌, ◌*◌, ◌/◌, ◌≤◌, ◌<◌, ◌≡◌, ap, refl, Option, none, some, Bool, true, false, ◌⊎◌,
  leb, leb→le, Bool-cases, inl, inr, Result, ok, err, arith,
}
use app_salmon.Base.Int.{ℤ}
use app_salmon.Errors.{
  ContainerHandle, DockerError, health_check_timeout, container_not_healthy, ClusterError, docker,
}
use app_salmon.Containers.{
  healthy, starting, unhealthy, no_check, Duration, as_secs, ContainerRuntime, ContainerStatus,
  running, exited, missing, HealthState,
}
use app_salmon.Backends.HealthWait.{
  Timer, health_poll_interval, is_ready, judge, pause, look, poll, rounds, or_timeout,
  wait_until_healthy,
}

-- The clock does not go back, and a sleep takes at least as long as it was asked to.
pub record IsTimer {W : Type 0} (time : W → ℕ) (r : ContainerRuntime W) (t : Timer W) : Type 0 where
  pub instant_from : (w : W) → time w ≤ (t.instant w).0
  pub instant_upto : (w : W) → (t.instant w).0 ≤ time (t.instant w).1
  pub sleeps : (d : Duration) (w : W) → time w + d ≤ time (t.sleep d w).1
  pub inspects : (h : ContainerHandle) (w : W) → time w ≤ time (r.inspect h w).1

module _ {W : Type 0} (r : ContainerRuntime W) (t : Timer W) (h : ContainerHandle)
    (timeout : Duration) (required : Bool) where
  -- Whether a running container is what the wait is for.
  abbrev pub Ready : Bool → Option HealthState → Type 0
  Ready true health = health ≡ some healthy
  Ready false health = Unit

  -- The course of a wait from the world in which it next looks at the container: the looks follow one
  -- another, and between two of them the clock was read short of the deadline and 500 ms were slept.
  pub data Waits (deadline : ℕ) : W → Result ClusterError (Option ℕ) → W → Type 0 where
    ready :
        (w : W) (port : Option ℕ) (health : Option HealthState)
        → (r.inspect h w).0 ≡ ok (running port health)
        → Ready required health
        → Waits deadline w (ok port) (r.inspect h w).1
    failed :
        (w : W) (e : DockerError)
        → (r.inspect h w).0 ≡ err e
        → Waits deadline w (err (docker e)) (r.inspect h w).1
    stopped :
        (w : W) (code : ℤ)
        → (r.inspect h w).0 ≡ ok (exited code)
        → Waits deadline w (err (docker (container_not_healthy h (some code)))) (r.inspect h w).1
    vanished :
        (w : W)
        → (r.inspect h w).0 ≡ ok missing
        → Waits deadline w (err (docker (container_not_healthy h none))) (r.inspect h w).1
    late :
        (w : W) (port : Option ℕ) (health : Option HealthState)
        → (r.inspect h w).0 ≡ ok (running port health)
        → ¬ Ready required health
        → deadline ≤ (t.instant (r.inspect h w).1).0
        → Waits deadline w
            (err (docker (health_check_timeout h (as_secs timeout))))
            (t.instant (r.inspect h w).1).1
    again :
        (w : W) (port : Option ℕ) (health : Option HealthState) (x : Result ClusterError (Option ℕ))
        (w' : W)
        → (r.inspect h w).0 ≡ ok (running port health)
        → ¬ Ready required health
        → (t.instant (r.inspect h w).1).0 < deadline
        → Waits deadline (t.sleep 500000000 (t.instant (r.inspect h w).1).1).1 x w'
        → Waits deadline w x w'

  Ready-cases :
      (health : Option HealthState)
      → (Ready required health × (is_ready required health ≡ true))
        ⊎ (¬ Ready required health × (is_ready required health ≡ false))
  Ready-cases health = by_kind required health
    where
      by_kind :
          (b : Bool) (health : Option HealthState)
          → (Ready b health × (is_ready b health ≡ true))
            ⊎ (¬ Ready b health × (is_ready b health ≡ false))
      by_kind false health = inl (tt, refl)
      by_kind true none = inr (λ e. ground arith, refl)
      by_kind true (some healthy) = inl (refl, refl)
      by_kind true (some no_check) = inr (λ e. ground arith, refl)
      by_kind true (some starting) = inr (λ e. ground arith, refl)
      by_kind true (some unhealthy) = inr (λ e. ground arith, refl)

  Polled : ℕ → W → Option (Result ClusterError (Option ℕ)) × W → Type 0
  Polled deadline w p =
      (x : Result ClusterError (Option ℕ)) × (p.0 ≡ some x) × Waits deadline w x p.1

  -- One look, and what follows it.
  look-Polled :
      (rest : W → Option (Result ClusterError (Option ℕ)) × W) (deadline : ℕ) (w : W)
      (status : Result DockerError ContainerStatus)
      → (r.inspect h w).0 ≡ status
      → ((t.instant (r.inspect h w).1).0 < deadline
          → Polled deadline
              (t.sleep 500000000 (t.instant (r.inspect h w).1).1).1
              (rest (t.sleep 500000000 (t.instant (r.inspect h w).1).1).1))
      → Polled deadline w (
          look r t h timeout required rest deadline
            (judge r t h timeout required status)
            (r.inspect h w).1)
  unfolding Polled look judge pause
  look-Polled rest deadline w (err e) saw k = (_, refl, failed w e saw)
  look-Polled rest deadline w (ok (exited code)) saw k = (_, refl, stopped w code saw)
  look-Polled rest deadline w (ok missing) saw k = (_, refl, vanished w saw)
  look-Polled rest deadline w (ok (running port health)) saw k = elim (Ready-cases health) [
    | inl (fit, on) ↦ rw on (_, refl, ready w port health saw fit)
    | inr (unfit, off) ↦ elim (Bool-cases (leb deadline (t.instant (r.inspect h w).1).0)) [
      | inl over ↦ rw (off, over) (_, refl, late w port health saw unfit (leb→le deadline _ over))
      | inr early ↦
          let (x, end, course) = k (ground arith) in
          rw (off, early) (x, end, again w port health x _ saw unfit (ground arith) course)
    ]
  ]

  module _ (time : W → ℕ) (laws : IsTimer time r t) where
    poll-Polled :
        (fuel deadline : ℕ) (w : W)
        → deadline < time w + health_poll_interval * fuel
        → Polled deadline w (poll r t h timeout required (suc fuel) deadline w)
    unfolding poll
    poll-Polled zero deadline w enough =
        look-Polled (poll r t h timeout required zero deadline) deadline w _ refl
          (λ early. absurd (omega (arith, laws.inspects h w, laws.instant_from (r.inspect h w).1)))
    poll-Polled (suc fuel) deadline w enough =
        let w1 = (r.inspect h w).1 in
        let w2 = (t.instant w1).1 in
        look-Polled (poll r t h timeout required (suc fuel) deadline) deadline w _ refl (λ early.
          poll-Polled fuel deadline (t.sleep health_poll_interval w2).1 (
            omega (
              arith,
              laws.inspects h w,
              laws.instant_from w1,
              laws.instant_upto w1,
              laws.sleeps health_poll_interval w2,
            )))

    -- The wait always comes to an end: there is fuel for every look that the deadline leaves time
    -- for. From the world after the first reading of the clock to the one that it leaves, it looks at
    -- the container again and again, and reads the clock after each look at a container that runs
    -- and is not yet what it waits for: short of the deadline it sleeps 500 ms and looks again, and past
    -- it it reports the timeout. Any other look ends it, with the port of a container that is ready,
    -- the exit, the absence or the error of the runtime that this look has seen.
    pub wait_ends :
        (w : W)
        → (x : Result ClusterError (Option ℕ)) × ((poll r t h timeout required
              (rounds r t h timeout required)
              ((t.instant w).0 + timeout)
              (t.instant w).1).0
            ≡ some x)
          × ((wait_until_healthy r t h timeout required w).0 ≡ x)
          × Waits
              ((t.instant w).0 + timeout)
              (t.instant w).1
              x
              (wait_until_healthy r t h timeout required w).1
    unfolding wait_until_healthy Polled
    wait_ends w =
        let deadline = (t.instant w).0 + timeout in
        let (x, end, course) =
          poll-Polled (timeout / health_poll_interval + 1) deadline (t.instant w).1
            (omega (arith, laws.instant_upto w)) in
        (x, end, ap (or_timeout r t h timeout required) end, course)
