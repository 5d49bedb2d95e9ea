-- ===== src/Backends/Postgres/Laws.antt =====
-- src/backends/postgres.rs: which containers a spawn and a teardown leave.
use app_salmon.Base.{
  ℕ, ◌≡◌, ◌⊎◌, inl, inr, refl, ap, subst, ◌∙◌, Bool, true, false, String, Option, none, some, List,
  ◌∷◌, text_eq_refl, Result, ok, err, ok_or,
}
use app_salmon.Base.Action.{lift, on_err}
use app_salmon.Base.Post.{Post, bind-Post, on_err-Post, weaken, kept-Post}
use app_salmon.Base.Task.{Keeps, infallible, infallible-Post}
use app_salmon.Domain.Ids.{ClusterId, WorkerUser}
use app_salmon.Domain.ServiceKind.{ServiceSpec, ConnectionInfo}
use app_salmon.Errors.{ClusterError, docker, backend_spawn_failed, ContainerHandle}
use app_salmon.Containers.{ContainerSpec, running, HealthState, healthy}
use app_salmon.Containers.Contract.{Docker, without, with_container}
use app_salmon.Backends.HealthWait.{Timer, is_ready, wait_until_healthy}
use app_salmon.Backends.HealthWait.Keeps.{IsHost, Seen, wait-Post, Seen-port}
use app_salmon.Backends.Postgres.{
  Database, PostgresBackend, container_name, container_spec, connect, enable_pgvector,
  wait_until_ready, connection_info, spawn_with, spawn, teardown, password_len,
}

-- What the backend relies on besides: a password is drawn and the database is asked without touching
-- the containers.
pub record IsPostgresWorld {W : Type 0} (Runs : W → Docker → Type 0) (time : W → ℕ)
    (self : PostgresBackend W) (timer : Timer W) (database : Database W) : Type 0 where
  pub host : IsHost Runs time self.container_runtime timer
  pub password_keeps : (n : ℕ) → Keeps Runs (self.secrets.db_password n)
  pub connect_keeps : (config : String) → Keeps Runs (database.connect config)
  pub execute_keeps :
      (client : ℕ) (statement : String) → Keeps Runs (database.execute client statement)

-- The container just made is the one that its name removes.
without-with_container :
    (spec : ContainerSpec) (cs : List ContainerSpec)
    → without spec.name (spec ∷ cs) ≡ without spec.name cs
without-with_container spec cs = rw (text_eq_refl spec.name) refl

module _ {W : Type 0} {Runs : W → Docker → Type 0} {time : W → ℕ} (id_text : ClusterId → String)
    (self : PostgresBackend W) (timer : Timer W) (database : Database W)
    (laws : IsPostgresWorld Runs time self timer database) where
  enable_pgvector-Post :
      (wanted : Bool) (port : ℕ) (password : String) (w : W) (d : Docker)
      → Runs w d
      → Post Runs
          (λ _ d'. d' ≡ d)
          (λ _ d'. d' ≡ d)
          (enable_pgvector database wanted port password w)
  unfolding enable_pgvector connect
  enable_pgvector-Post false port password w d k = record { ends = (d, k, refl) }
  enable_pgvector-Post true port password w d k =
      bind-Post (on_err _ (connect database port password) w) _
        (λ client w1 d1 k1 same.
          on_err-Post _ (database.execute client "CREATE EXTENSION IF NOT EXISTS vector") w1
            (λ e s r. r)
            (kept-Post (database.execute client _) w1 d (laws.execute_keeps client _)
              (subst (Runs w1) same k1)))
        (λ e s r. r)
        (on_err-Post _ (connect database port password) w (λ e s r. r)
          (kept-Post (connect database port password) w d (laws.connect_keeps _) k))

  -- The runtime once reported the port, of a container that was healthy.
  abbrev pub Reported : ContainerHandle → ℕ → Type 0
  Reported h port =
      (w : W) × ((self.container_runtime.inspect h w).0 ≡ ok (running (some port) (some healthy)))

  reported :
      (h : ContainerHandle) (port : ℕ) (w : W) (health : Option HealthState)
      → (self.container_runtime.inspect h w).0 ≡ ok (running (some port) health)
      → is_ready true health ≡ true
      → Reported h port
  reported h port w (some healthy) saw fit = (w, saw)
  reported h port w (some _) saw fit = cc
  reported h port w none saw fit = cc

  wait_until_ready-Post :
      (h : ContainerHandle) (w : W) (d : Docker)
      → Runs w d
      → Post Runs
          (λ port d'. (d' ≡ d) × Reported h port)
          (λ _ d'. d' ≡ d)
          (wait_until_ready self timer h w)
  unfolding wait_until_ready
  wait_until_ready-Post h w d k =
      bind-Post (wait_until_healthy self.container_runtime timer h self.health_check_timeout true w)
        _ (λ port w1 d1 k1 (same, seen). taken port w1 d1 k1 same seen) (λ e s r. r.0)
        (wait-Post self.container_runtime timer laws.host h self.health_check_timeout true w d k)
    where
      taken :
          (port : Option ℕ) (w1 : W) (d1 : Docker)
          → Runs w1 d1
          → d1 ≡ d
          → Seen self.container_runtime timer laws.host h self.health_check_timeout true w (ok port)
          → Post Runs
              (λ port d'. (d' ≡ d) × Reported h port)
              (λ _ d'. d' ≡ d)
              (lift
                (ok_or
                  (backend_spawn_failed "container reported healthy but published no port")
                  port)
                w1)
      taken none w1 d1 k1 same seen = record { ends = (d1, k1, same) }
      taken (some p) w1 d1 k1 same seen =
          let (v, health, saw, fit) =
            Seen-port self.container_runtime timer laws.host h self.health_check_timeout true w
              (some p) seen in
          record { ends = (d1, k1, (same, reported h p v health saw fit)) }

  name-container_spec :
      (id : ClusterId) (worker : WorkerUser) (slot : ℕ) (password : String)
      → (container_spec id_text self id worker slot password).name ≡ container_name id_text id
  unfolding container_spec
  name-container_spec id worker slot password = refl

  -- What a spawn that came through has done.
  abbrev pub Spawned : ClusterId → WorkerUser → ℕ → Docker → ConnectionInfo → Docker → Type 0
  Spawned id worker slot d info d' =
      (port : ℕ) × (password : String) × (info
        ≡ connection_info id_text self timer database port password)
      × (d' ≡ with_container (container_spec id_text self id worker slot password) d)
      × Reported (container_name id_text id) port

  -- What one that failed may have left.
  abbrev pub Stranded : ClusterId → WorkerUser → ℕ → Docker → ClusterError → Docker → Type 0
  Stranded id worker slot d e d' =
      (d' ≡ d)
      ⊎ ((password : String) × (d'
            ≡ with_container (container_spec id_text self id worker slot password) d))

  spawn_with-Post :
      (id : ClusterId) (worker : WorkerUser) (slot : ℕ) (service : ServiceSpec) (password : String)
      (w : W) (d : Docker)
      → Runs w d
      → Post Runs
          (Spawned id worker slot d)
          (Stranded id worker slot d)
          (spawn_with id_text self timer database id worker slot service password w)
  unfolding spawn_with
  spawn_with-Post id worker slot service password w d k =
      let spec = container_spec id_text self id worker slot password in
      bind-Post (on_err docker (self.container_runtime.create_and_start spec) w) _
        (λ h w1 d1 k1 (named, made).
          bind-Post (wait_until_ready self timer h w1) _
            (λ port w2 d2 k2 (same2, seen).
              bind-Post (enable_pgvector database service.pgvector port password w2) _
                (λ _ w3 d3 k3 same3. record {
                  ends = (
                    d3,
                    k3,
                    (
                      port,
                      password,
                      refl,
                      same3 ∙ (same2 ∙ made),
                      subst (λ x. Reported x port)
                          (named ∙ name-container_spec id worker slot password) seen,
                    ),
                  );
                })
                (λ e d3 same3. inr (password, same3 ∙ (same2 ∙ made)))
                (enable_pgvector-Post service.pgvector port password w2 d2 k2))
            (λ e d2 same2. inr (password, same2 ∙ made)) (wait_until_ready-Post h w1 d1 k1))
        (λ e s r. r)
        (on_err-Post docker (self.container_runtime.create_and_start spec) w
          (λ e s r. stranded password s r) (laws.host.runs.create_lem spec w d k))
    where
      stranded :
          (secret : String) (d' : Docker)
          → (d' ≡ d) ⊎ (d' ≡ with_container (container_spec id_text self id worker slot secret) d)
          → (d' ≡ d)
            ⊎ ((password : String) × (d'
                  ≡ with_container (container_spec id_text self id worker slot password) d))
      stranded secret d' (inl same) = inl same
      stranded secret d' (inr made) = inr (secret, made)

  -- A spawn that comes through has made one container, described by `container_spec` with the
  -- password that it reports, and reports a port that the runtime gave for this container while it
  -- was healthy. One that fails has made that container or none.
  pub spawn-Post :
      (id : ClusterId) (worker : WorkerUser) (slot : ℕ) (service : ServiceSpec) (w : W) (d : Docker)
      → Runs w d
      → Post Runs
          (Spawned id worker slot d)
          (Stranded id worker slot d)
          (spawn id_text self timer database id worker slot service w)
  unfolding spawn
  spawn-Post id worker slot service w d k =
      bind-Post (infallible (self.secrets.db_password password_len) w) _
        (λ password w1 d1 k1 same.
          spawn_with-Post id worker slot service password w1 d (subst (Runs w1) same k1))
        (λ e s r. r)
        (infallible-Post (self.secrets.db_password password_len) w d
          (laws.password_keeps password_len) k)

  abbrev pub cleared : ClusterId → Docker → Docker
  cleared id d = record d { containers = without (container_name id_text id) d.containers }

  teardown-Post :
      (id : ClusterId) (w : W) (d : Docker)
      → Runs w d
      → Post Runs
          (λ _ d'. d' ≡ cleared id d)
          (λ _ d'. d' ≡ d)
          (teardown id_text self timer database id w)
  unfolding teardown
  teardown-Post id w d k =
      on_err-Post docker (self.container_runtime.stop_and_remove (container_name id_text id)) w
        (λ e s r. r) (laws.host.runs.remove_lem (container_name id_text id) w d k)

  cleared-with_container :
      (id : ClusterId) (worker : WorkerUser) (slot : ℕ) (password : String) (d : Docker)
      → cleared id (with_container (container_spec id_text self id worker slot password) d)
        ≡ cleared id d
  cleared-with_container id worker slot password d =
      let spec = container_spec id_text self id worker slot password in
      ap (λ cs. record d { containers = cs })
        (subst (λ n. without n (spec ∷ d.containers) ≡ without n d.containers)
          (name-container_spec id worker slot password) (without-with_container spec d.containers))

  -- Whatever way a spawn ended, a teardown that succeeds after it leaves no container of the cluster,
  -- and all others as they were before the spawn.
  pub teardown-spawn :
      (id : ClusterId) (worker : WorkerUser) (slot : ℕ) (service : ServiceSpec) (w : W) (d : Docker)
      → Runs w d
      → Post Runs
          (λ _ d'. d' ≡ cleared id d)
          (λ e d'. cleared id d' ≡ cleared id d)
          (teardown id_text self timer database id
            (spawn id_text self timer database id worker slot service w).1)
  teardown-spawn id worker slot service w d k =
      go (spawn id_text self timer database id worker slot service w)
        (spawn-Post id worker slot service w d k)
    where
      after :
          (w1 : W) (d1 : Docker)
          → Runs w1 d1
          → cleared id d1 ≡ cleared id d
          → Post Runs
              (λ _ d'. d' ≡ cleared id d)
              (λ e d'. cleared id d' ≡ cleared id d)
              (teardown id_text self timer database id w1)
      after w1 d1 k1 same =
          weaken (teardown id_text self timer database id w1) (λ _ d' gone. gone ∙ same)
            (λ e d' left. ap (cleared id) left ∙ same) (teardown-Post id w1 d1 k1)

      go :
          (p : Result ClusterError ConnectionInfo × W)
          → Post Runs (Spawned id worker slot d) (Stranded id worker slot d) p
          → Post Runs
              (λ _ d'. d' ≡ cleared id d)
              (λ e d'. cleared id d' ≡ cleared id d)
              (teardown id_text self timer database id p.1)
      go (ok info, w1) h =
          let (d1, k1, (port, password, _, made, _)) = h.ends in
          after w1 d1 k1 (ap (cleared id) made ∙ cleared-with_container id worker slot password d)
      go (err e, w1) h =
          let (d1, k1, s) = h.ends in
          after w1 d1 k1 (elim s [
            | inl same ↦ ap (cleared id) same
            | inr (password, made) ↦
                ap (cleared id) made ∙ cleared-with_container id worker slot password d
          ])
