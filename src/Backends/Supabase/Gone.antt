-- ===== src/Backends/Supabase/Gone.antt =====
-- src/backends/supabase.rs: a spawn, and the teardown that follows it.
use app_salmon.Base.{ℕ, ◌≡◌, refl, ap, subst, ◌∙◌, String, List, [], ◌∷◌, map, Result, ok, err}
use app_salmon.Base.Action.{on_err}
use app_salmon.Base.Post.{Post, bind-Post, on_err-Post, weaken}
use app_salmon.Base.Task.{infallible, infallible-Post, ignore}
use app_salmon.Domain.Ids.{ClusterId, WorkerUser}
use app_salmon.Domain.ServiceKind.{ServiceSpec, ConnectionInfo}
use app_salmon.Errors.{ClusterError, docker}
use app_salmon.Containers.Contract.{Docker, without}
use app_salmon.Backends.HealthWait.{Timer}
use app_salmon.Backends.Supabase.{
  SupabaseBackend, Signer, ConfigFiles, sign_jwt, write_configs, config_dir, inputs_of,
  start_cluster, spawn, remove_all, teardown, service_suffixes, db_password_len, jwt_secret_len,
}
use app_salmon.Backends.Supabase.Isolated.{build_specs-IsIsolated}
use app_salmon.Backends.Supabase.Laws.{
  without_all, names, cleared, cleared-with_all, cleared-with_network,
}
use app_salmon.Backends.Supabase.Spawned.{
  IsSupabaseWorld, Complete, OnlyOwn, sign_jwt-Post, write_configs-Post, start_cluster-Post,
  build_specs-Among,
}
use app_salmon.Backends.Supabase.Specs.{container_name, network_name}

module _ {W : Type 0} {Runs : W → Docker → Type 0} {time : W → ℕ} (id_text : ClusterId → String)
    (self : SupabaseBackend W) (timer : Timer W) (signer : Signer W) (files : ConfigFiles W)
    (laws : IsSupabaseWorld Runs time self timer signer files) where
  abbrev networked : ClusterId → Docker → Docker
  networked id d = record d { networks = network_name id_text id ∷ d.networks }

  spawn_in_network-Post :
      (id : ClusterId) (worker : WorkerUser) (slot : ℕ)
      (db_password jwt_secret anon_key service_role_key : String) (w : W) (d : Docker)
      → Runs w (networked id d)
      → Post Runs
          (Complete id_text self timer signer files laws id worker slot d)
          (λ _ d'. OnlyOwn id_text self timer signer files laws id d d')
          (start_cluster id_text self timer id worker
            (inputs_of id_text self timer signer files id worker slot db_password jwt_secret
              anon_key service_role_key)
            w)
  spawn_in_network-Post id worker slot db_password jwt_secret anon_key service_role_key w d k =
      let inputs =
        inputs_of id_text self timer signer files id worker slot db_password jwt_secret anon_key
          service_role_key in
      weaken _
        (λ info d' (kong_port, db_port, told, made). (
          inputs,
          kong_port,
          db_port,
          told,
          made,
          build_specs-IsIsolated id_text id worker slot self.generated_config_dir_base
              self.worker_data_dir_base self.images inputs refl refl refl refl,
        ))
        (λ e d' only. only ∙ cleared-with_network id_text id d)
        (start_cluster-Post id_text self timer signer files laws id worker inputs w (networked id d)
          k)

  -- A spawn that comes through has made the cluster's network and its five containers and nothing
  -- else. Each is on that network only; the one that runs the client's code runs in a machine of its
  -- own, as the worker, out of the host's reach, and with no directory of the host but the functions in
  -- the worker's project; the others have no file of the host but the three that were generated in
  -- the cluster's configuration directory. A spawn that fails has left no container and no network
  -- but the cluster's.
  pub spawn-Complete :
      (id : ClusterId) (worker : WorkerUser) (slot : ℕ) (service : ServiceSpec) (w : W) (d : Docker)
      → Runs w d
      → Post Runs
          (Complete id_text self timer signer files laws id worker slot d)
          (λ _ d'. OnlyOwn id_text self timer signer files laws id d d')
          (spawn id_text self timer signer files id worker slot service w)
  unfolding spawn
  spawn-Complete id worker slot service w d k =
      bind-Post (infallible (self.secrets.db_password db_password_len) w) _
        (λ db_password w1 d1 k1 same1.
          bind-Post (infallible (self.secrets.db_password jwt_secret_len) w1) _
            (λ jwt_secret w2 d2 k2 same2.
              bind-Post (sign_jwt signer jwt_secret "anon" w2) _
                (λ anon_key w3 d3 k3 same3.
                  bind-Post (sign_jwt signer jwt_secret "service_role" w3) _
                    (λ service_role_key w4 d4 k4 same4.
                      bind-Post
                        (on_err docker
                          (self.container_runtime.create_network (network_name id_text id)) w4)
                        _
                        (λ network w5 d5 k5 (_, made5).
                          bind-Post
                            (write_configs files (config_dir id_text self timer signer files id) w5)
                            _
                            (λ _ w6 d6 k6 same6.
                              spawn_in_network-Post id worker slot db_password jwt_secret anon_key
                                service_role_key w6 d (subst (Runs w6) same6 k6))
                            (λ e s same6.
                              ap (cleared id_text id) same6 ∙ cleared-with_network id_text id d)
                            (write_configs-Post id_text self timer signer files laws _ w5
                              (networked id d) (subst (Runs w5) made5 k5)))
                        (λ e s same5. ap (cleared id_text id) same5)
                        (on_err-Post docker
                          (self.container_runtime.create_network (network_name id_text id)) w4
                          (λ e s r. r)
                          (laws.host.runs.create_network_lem (network_name id_text id) w4 d
                            (subst (Runs w4) same4 k4))))
                    (λ e s same4. ap (cleared id_text id) same4)
                    (sign_jwt-Post id_text self timer signer files laws jwt_secret "service_role" w3
                      d (subst (Runs w3) same3 k3)))
                (λ e s same3. ap (cleared id_text id) same3)
                (sign_jwt-Post id_text self timer signer files laws jwt_secret "anon" w2 d
                  (subst (Runs w2) same2 k2)))
            (λ e s r. r)
            (infallible-Post (self.secrets.db_password jwt_secret_len) w1 d
              (laws.password_keeps jwt_secret_len) (subst (Runs w1) same1 k1)))
        (λ e s r. r)
        (infallible-Post (self.secrets.db_password db_password_len) w d
          (laws.password_keeps db_password_len) k)

  remove_all-Post :
      (id : ClusterId) (suffixes : List String) (w : W) (d : Docker)
      → Runs w d
      → Post Runs
          (λ _ d'. d' ≡ record d {
            containers = without_all (map (container_name id_text id) suffixes) d.containers;
          })
          (λ _ d'. d'.networks ≡ d.networks)
          (remove_all id_text self timer signer files id suffixes w)
  unfolding remove_all
  remove_all-Post id [] w d k = record { ends = (d, k, refl) }
  remove_all-Post id (suffix ∷ suffixes) w d k =
      let h = container_name id_text id suffix in
      bind-Post (on_err docker (self.container_runtime.stop_and_remove h) w) _
        (λ _ w1 d1 k1 gone.
          remove_all-Post id suffixes w1 (record d { containers = without h d.containers })
            (subst (Runs w1) gone k1))
        (λ e s r. r)
        (on_err-Post docker (self.container_runtime.stop_and_remove h) w
          (λ e s same. ap (λ (x : Docker). x.networks) same) (laws.host.runs.remove_lem h w d k))

  -- A teardown that succeeds has removed the cluster's containers and its network and nothing else;
  -- one that fails has kept every network.
  pub teardown-Post :
      (id : ClusterId) (w : W) (d : Docker)
      → Runs w d
      → Post Runs
          (λ _ d'. d' ≡ cleared id_text id d)
          (λ _ d'. d'.networks ≡ d.networks)
          (teardown id_text self timer signer files id w)
  unfolding teardown
  teardown-Post id w d k =
      let bare = record d { containers = without_all (names id_text id) d.containers } in
      bind-Post (remove_all id_text self timer signer files id service_suffixes w) _
        (λ _ w1 d1 k1 gone1.
          bind-Post
            (on_err docker (self.container_runtime.remove_network (network_name id_text id)) w1) _
            (λ _ w2 d2 k2 gone2.
              infallible-Post
                (ignore (files.remove_dir_all (config_dir id_text self timer signer files id))) w2
                (cleared id_text id d) (laws.remove_dir_keeps _) (subst (Runs w2) gone2 k2))
            (λ e s r. r)
            (on_err-Post docker (self.container_runtime.remove_network (network_name id_text id)) w1
              (λ e s same. ap (λ (x : Docker). x.networks) same)
              (laws.host.runs.remove_network_lem (network_name id_text id) w1 bare
                (subst (Runs w1) gone1 k1))))
        (λ e s r. r) (remove_all-Post id service_suffixes w d k)

  -- Whatever way a spawn ended, a teardown that succeeds after it leaves no container and no network
  -- of the cluster, and all others as they were before the spawn.
  pub spawn_then_teardown :
      (id : ClusterId) (worker : WorkerUser) (slot : ℕ) (service : ServiceSpec) (w : W) (d : Docker)
      → Runs w d
      → Post Runs
          (λ _ d'. d' ≡ cleared id_text id d)
          (λ _ d'. Unit {0})
          (teardown id_text self timer signer files id
            (spawn id_text self timer signer files id worker slot service w).1)
  spawn_then_teardown id worker slot service w d k =
      go (spawn id_text self timer signer files id worker slot service w)
        (spawn-Complete id worker slot service w d k)
    where
      after :
          (w1 : W) (d1 : Docker)
          → Runs w1 d1
          → cleared id_text id d1 ≡ cleared id_text id d
          → Post Runs
              (λ _ d'. d' ≡ cleared id_text id d)
              (λ _ d'. Unit {0})
              (teardown id_text self timer signer files id w1)
      after w1 d1 k1 same =
          weaken (teardown id_text self timer signer files id w1) (λ _ d' gone. gone ∙ same)
            (λ e d' left. tt) (teardown-Post id w1 d1 k1)

      go :
          (p : Result ClusterError ConnectionInfo × W)
          → Post Runs
              (Complete id_text self timer signer files laws id worker slot d)
              (λ _ d'. OnlyOwn id_text self timer signer files laws id d d')
              p
          → Post Runs
              (λ _ d'. d' ≡ cleared id_text id d)
              (λ _ d'. Unit {0})
              (teardown id_text self timer signer files id p.1)
      go (ok info, w1) h =
          let (d1, k1, (inputs, _, _, _, made, _)) = h.ends in
          after w1 d1 k1 (
            ap (cleared id_text id) made
            ∙ (cleared-with_all id_text id _ (networked id d)
                  (build_specs-Among id_text self.images id worker inputs)
                ∙ cleared-with_network id_text id d))
      go (err e, w1) h = let (d1, k1, only) = h.ends in after w1 d1 k1 only
