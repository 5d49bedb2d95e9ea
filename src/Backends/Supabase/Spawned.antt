-- ===== src/Backends/Supabase/Spawned.antt =====
-- src/backends/supabase.rs: what a spawn and a teardown leave of a whole cluster.
use app_salmon.Base.{ℕ, ◌≡◌, refl, ap, subst, ◌∙◌, inl, inr, String, none, ◌∷◌, ok_or, All}
use app_salmon.Base.Action.{lift, on_err}
use app_salmon.Base.Post.{Post, bind-Post, on_err-Post, lift-Post, kept-Post}
use app_salmon.Base.Task.{Keeps, infallible, infallible-Post}
use app_salmon.Domain.Ids.{ClusterId, WorkerUser}
use app_salmon.Domain.ServiceKind.{ConnectionInfo}
use app_salmon.Errors.{docker, backend_spawn_failed}
use app_salmon.Containers.{ContainerSpec}
use app_salmon.Containers.Contract.{Docker}
use app_salmon.Backends.HealthWait.{Timer}
use app_salmon.Backends.HealthWait.Keeps.{IsHost}
use app_salmon.Backends.Supabase.{
  SupabaseBackend, Signer, ConfigFiles, sign_jwt, signed, write_configs, writes, start_cluster,
  connection_info, db_port_of, start_all,
}
use app_salmon.Backends.Supabase.Isolated.{IsIsolated}
use app_salmon.Backends.Supabase.Laws.{
  Among, with_all, names, cleared, cleared-with_all, start_all-Post,
}
use app_salmon.Backends.Supabase.Specs.{Images, Inputs, container_name, network_name, build_specs}

-- What the backend relies on besides the daemon and the clock: the secrets, the time of day and the
-- files leave the containers alone.
pub record IsSupabaseWorld {W : Type 0} (Runs : W → Docker → Type 0) (time : W → ℕ)
    (self : SupabaseBackend W) (timer : Timer W) (signer : Signer W) (files : ConfigFiles W)
    : Type 0 where
  pub host : IsHost Runs time self.container_runtime timer
  pub password_keeps : (n : ℕ) → Keeps Runs (self.secrets.db_password n)
  pub timestamp_keeps : Keeps Runs signer.timestamp
  pub create_dir_keeps : (path : String) → Keeps Runs (files.create_dir_all path)
  pub write_keeps : (path contents : String) → Keeps Runs (files.write path contents)
  pub remove_dir_keeps : (path : String) → Keeps Runs (files.remove_dir_all path)

pub build_specs-Among :
    (id_text : ClusterId → String) (images : Images) (id : ClusterId) (worker : WorkerUser)
    (inputs : Inputs)
    → All
        (λ (s : ContainerSpec). Among s.name (names id_text id))
        (build_specs id_text images id worker inputs)
unfolding build_specs
build_specs-Among id_text images id worker inputs = (
  inl refl,
  (
    inr (inl refl),
    (inr (inr (inl refl)), (inr (inr (inr (inl refl))), (inr (inr (inr (inr (inl refl)))), tt))),
  ),
)

module _ {W : Type 0} {Runs : W → Docker → Type 0} {time : W → ℕ} (id_text : ClusterId → String)
    (self : SupabaseBackend W) (timer : Timer W) (signer : Signer W) (files : ConfigFiles W)
    (laws : IsSupabaseWorld Runs time self timer signer files) where
  -- The cluster's network and its five containers, over what there was before.
  abbrev pub Complete : ClusterId → WorkerUser → ℕ → Docker → ConnectionInfo → Docker → Type 0
  Complete id worker slot d info d' =
      (inputs : Inputs) × (kong_port : ℕ) × (db_port : ℕ) × (info
        ≡ connection_info id_text self timer kong_port db_port inputs)
      × (d'
          ≡ with_all (build_specs id_text self.images id worker inputs)
              (record d { networks = network_name id_text id ∷ d.networks }))
      × All
          (IsIsolated id_text id worker slot self.generated_config_dir_base
            self.worker_data_dir_base)
          (build_specs id_text self.images id worker inputs)

  pub sign_jwt-Post :
      (secret role : String) (w : W) (d : Docker)
      → Runs w d
      → Post Runs (λ _ d'. d' ≡ d) (λ _ d'. d' ≡ d) (sign_jwt signer secret role w)
  unfolding sign_jwt
  sign_jwt-Post secret role w d k =
      bind-Post (infallible signer.timestamp w) (λ now. lift (signed signer secret role now))
        (λ now w1 d1 k1 same.
          lift-Post (signed signer secret role now) w1 d (subst (Runs w1) same k1))
        (λ e s r. r) (infallible-Post signer.timestamp w d laws.timestamp_keeps k)

  writes-Post :
      (path contents message : String) (w : W) (d : Docker)
      → Runs w d
      → Post Runs (λ _ d'. d' ≡ d) (λ _ d'. d' ≡ d) (writes files path contents message w)
  writes-Post path contents message w d k =
      on_err-Post _ (files.write path contents) w (λ e s r. r)
        (kept-Post (files.write path contents) w d (laws.write_keeps path contents) k)

  pub write_configs-Post :
      (dir : String) (w : W) (d : Docker)
      → Runs w d
      → Post Runs (λ _ d'. d' ≡ d) (λ _ d'. d' ≡ d) (write_configs files dir w)
  unfolding write_configs
  write_configs-Post dir w d k =
      bind-Post (on_err _ (files.create_dir_all dir) w) _
        (λ _ w1 d1 k1 same1.
          bind-Post _ _
            (λ _ w2 d2 k2 same2.
              bind-Post _ _ (λ _ w3 d3 k3 same3. writes-Post _ _ _ w3 d (subst (Runs w3) same3 k3))
                (λ e s r. r) (writes-Post _ _ _ w2 d (subst (Runs w2) same2 k2)))
            (λ e s r. r) (writes-Post _ _ _ w1 d (subst (Runs w1) same1 k1)))
        (λ e s r. r)
        (on_err-Post _ (files.create_dir_all dir) w (λ e s r. r)
          (kept-Post (files.create_dir_all dir) w d (laws.create_dir_keeps dir) k))

  -- What holds of the containers wherever a spawn stops: they are those from before, but for the
  -- cluster's.
  abbrev pub OnlyOwn : ClusterId → Docker → Docker → Type 0
  OnlyOwn id d d' = cleared id_text id d' ≡ cleared id_text id d

  pub start_cluster-Post :
      (id : ClusterId) (worker : WorkerUser) (inputs : Inputs) (w : W) (d : Docker)
      → Runs w d
      → Post Runs
          (λ info d'.
            (kong_port : ℕ) × (db_port : ℕ) × (info
              ≡ connection_info id_text self timer kong_port db_port inputs)
            × (d' ≡ with_all (build_specs id_text self.images id worker inputs) d))
          (λ _ d'. OnlyOwn id d d')
          (start_cluster id_text self timer id worker inputs w)
  unfolding start_cluster
  start_cluster-Post id worker inputs w d k =
      let specs = build_specs id_text self.images id worker inputs in
      let own = build_specs-Among id_text self.images id worker inputs in
      let complete = cleared-with_all id_text id specs d own in
      bind-Post (start_all id_text self timer (container_name id_text id "kong") specs none w) _
        (λ published w1 d1 k1 made1.
          bind-Post
            (lift
              (ok_or (backend_spawn_failed "kong reported healthy but published no port") published)
              w1)
            _
            (λ kong_port w2 d2 k2 same2.
              bind-Post
                (on_err docker (self.container_runtime.inspect (container_name id_text id "db")) w2)
                _
                (λ status w3 d3 k3 same3.
                  bind-Post
                    (lift
                      (ok_or (backend_spawn_failed "db reported healthy but published no port")
                        (db_port_of id_text self timer status))
                      w3)
                    _
                    (λ db_port w4 d4 k4 same4. record {
                      ends =
                          (d4, k4, (kong_port, db_port, refl, same4 ∙ (same3 ∙ (same2 ∙ made1))));
                    })
                    (λ e s same4.
                      ap (cleared id_text id) (same4 ∙ (same3 ∙ (same2 ∙ made1))) ∙ complete)
                    (lift-Post _ w3 d3 k3))
                (λ e s same3. ap (cleared id_text id) (same3 ∙ (same2 ∙ made1)) ∙ complete)
                (on_err-Post docker
                  (self.container_runtime.inspect (container_name id_text id "db")) w2 (λ e s r. r)
                  (laws.host.runs.inspect_lem _ w2 d2 k2)))
            (λ e s same2. ap (cleared id_text id) (same2 ∙ made1) ∙ complete)
            (lift-Post _ w1 d1 k1))
        (λ e s r. r)
        (start_all-Post id_text self timer laws.host id (container_name id_text id "kong") specs
          none w d own k)
