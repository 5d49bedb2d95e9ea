-- ===== src/Backends/Supabase/Isolated.antt =====
-- src/backends/supabase.rs: how the containers of a cluster are kept apart.
use app_salmon.Base.Paths.{join}
use app_salmon.Workers.{worker_data_dir}
use app_salmon.Base.{ℕ, String, some, ◌≡◌, refl, ◌⊎◌, inl, inr, All}
use app_salmon.Domain.Ids.{ClusterId, WorkerUser}
use app_salmon.Containers.{ContainerSpec, BindMount, unpublished, runc, kata}
use app_salmon.Backends.Supabase.Specs.{Images, Inputs, container_name, network_name, build_specs}

module _ (id_text : ClusterId → String) (id : ClusterId) (worker : WorkerUser) (slot : ℕ)
    (config_base data_base : String) where
  -- A file that a spawn generates for the cluster, and where the client's functions are.
  abbrev pub generated : String → String
  generated name = join (join config_base (id_text id)) name

  abbrev pub functions_dir : String
  functions_dir = join (join (worker_data_dir data_base worker slot) "project") "functions"

  -- One container of a cluster: on the cluster's own network, under a name of the cluster's. What
  -- runs the client's code runs in a machine of its own, as the worker, unreachable from the host,
  -- and sees the functions of the client's project only; another container sees none but the three
  -- files that were generated for the cluster.
  pub record IsIsolated (spec : ContainerSpec) : Type 0 where
    pub suffix : String
    pub named : spec.name ≡ container_name id_text id suffix
    pub attached :
        spec.network ≡ some (record { network_name = network_name id_text id; alias = suffix })
    pub sandboxed :
        ((spec.runtime ≡ kata)
          × (spec.port_publish ≡ unpublished)
          × (spec.run_as ≡ some (worker.uid, worker.gid))
          × All (λ (m : BindMount). m.host_path ≡ functions_dir) spec.bind_mounts)
        ⊎ ((spec.runtime ≡ runc)
            × All
                (λ (m : BindMount).
                  (m.host_path ≡ generated "roles.sql")
                  ⊎ (m.host_path ≡ generated "jwt.sql")
                  ⊎ (m.host_path ≡ generated "kong.yml"))
                spec.bind_mounts)

  pub build_specs-IsIsolated :
      (images : Images) (inputs : Inputs)
      → inputs.roles_sql_path ≡ generated "roles.sql"
      → inputs.jwt_sql_path ≡ generated "jwt.sql"
      → inputs.kong_config_path ≡ generated "kong.yml"
      → inputs.functions_host_path ≡ functions_dir
      → All IsIsolated (build_specs id_text images id worker inputs)
  unfolding build_specs
  build_specs-IsIsolated images inputs roles jwt kong functions = (
    record {
      suffix = "db";
      named = refl;
      attached = refl;
      sandboxed = inr (refl, (inl roles, (inr (inl jwt), tt)));
    },
    (
      record { suffix = "rest"; named = refl; attached = refl; sandboxed = inr (refl, tt) },
      (
        record { suffix = "auth"; named = refl; attached = refl; sandboxed = inr (refl, tt) },
        (
          record {
            suffix = "kong";
            named = refl;
            attached = refl;
            sandboxed = inr (refl, (inr (inr kong), tt));
          },
          (
            record {
              suffix = "functions";
              named = refl;
              attached = refl;
              sandboxed = inl (refl, refl, refl, (functions, tt));
            },
            tt,
          ),
        ),
      ),
    ),
  )
