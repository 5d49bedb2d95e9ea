-- ===== src/Tests/Host.antt =====
-- A daemon whose containers are healthy at once and whose clock ticks at each look, and the theorems
-- about src/backends applied to it.
use app_salmon.Base.{ℕ, ◌+◌, ◌≡◌, refl, ap, Option, some, [], ◌∷◌, Result, ok, true, arith}
use app_salmon.Base.Int.{pos}
use app_salmon.Base.Paths.{decimal}
use app_salmon.Base.Post.{Post}
use app_salmon.Errors.{ClusterError}
use app_salmon.Ports.{SecretGenerator}
use app_salmon.Containers.{ContainerRuntime, running, healthy}
use app_salmon.Containers.Contract.{
  Docker, without, without_network, with_container, IsContainerRuntime,
}
use app_salmon.Backends.HealthWait.{Timer, poll, rounds, wait_until_healthy}
use app_salmon.Backends.HealthWait.Ends.{IsTimer, Waits, wait_ends}
use app_salmon.Backends.HealthWait.Keeps.{IsHost}
use app_salmon.Backends.Postgres
use app_salmon.Backends.Postgres.{PostgresBackend, Database}
use app_salmon.Backends.Postgres.Laws.{IsPostgresWorld}
use app_salmon.Backends.Postgres.Laws
use app_salmon.Backends.Supabase
use app_salmon.Backends.Supabase.{SupabaseBackend, Signer, ConfigFiles}
use app_salmon.Backends.Supabase.Gone
use app_salmon.Backends.Supabase.Laws.{cleared}
use app_salmon.Backends.Supabase.Spawned.{IsSupabaseWorld, Complete, OnlyOwn}
use app_salmon.Tests.Samples.{spec, worker}

pub record Machine : Type 0 where
  pub docker : Docker
  pub clock : ℕ

abbrev Runs : Machine → Docker → Type 0
Runs w d = w.docker ≡ d

abbrev now : Machine → ℕ
now w = w.clock

abbrev runtime : ContainerRuntime Machine
runtime = record {
  create_and_start = λ c w. (ok c.name, record w { docker = with_container c w.docker });
  inspect = λ h w. (ok (running (some 40000) (some healthy)), record w { clock = w.clock + 1 });
  stop_and_remove = λ h w. (
    ok tt,
    record w { docker = record (w.docker) { containers = without h w.docker.containers } },
  );
  create_network =
      λ n w. (ok n, record w { docker = record (w.docker) { networks = n ∷ w.docker.networks } });
  remove_network = λ n w. (
    ok tt,
    record w { docker = record (w.docker) { networks = without_network n w.docker.networks } },
  );
}

abbrev timer : Timer Machine
timer = record {
  instant = λ w. (w.clock, w);
  sleep = λ d w. (tt, record w { clock = w.clock + d });
}

runtime-IsContainerRuntime : IsContainerRuntime Runs runtime
runtime-IsContainerRuntime = record {
  create_lem = λ c w d h. record { ends = (_, refl, (refl, ap (with_container c) h)) };
  inspect_lem = λ h w d k. record { ends = (_, k, refl) };
  remove_lem = λ h w d k. record {
    ends = (_, refl, ap (λ (x : Docker). record x { containers = without h x.containers }) k);
  };
  create_network_lem = λ n w d k. record {
    ends = (_, refl, (refl, ap (λ (x : Docker). record x { networks = n ∷ x.networks }) k));
  };
  remove_network_lem = λ n w d k. record {
    ends = (_, refl, ap (λ (x : Docker). record x { networks = without_network n x.networks }) k);
  };
}

timer-IsTimer : IsTimer now runtime timer
timer-IsTimer = record {
  instant_from = λ w. omega arith;
  instant_upto = λ w. omega arith;
  sleeps = λ d w. omega arith;
  inspects = λ h w. omega arith;
}

host : IsHost Runs now runtime timer
host = record {
  runs = runtime-IsContainerRuntime;
  ticks = timer-IsTimer;
  instant_keeps = λ w s h. h;
  sleep_keeps = λ d w s h. h;
}

abbrev secrets : SecretGenerator Machine
secrets = record { cluster_id = λ w. (7, w); db_password = λ n w. ("drawn", w) }

abbrev bare : Docker
bare = record { containers = []; networks = "bridge" ∷ [] }

abbrev machine : Machine
machine = record { docker = bare; clock = 0 }

wait_ends_example :
    (x : Result ClusterError (Option ℕ)) × ((poll runtime timer "c" 3000000000 true
        (rounds runtime timer "c" 3000000000 true)
        3000000000
        machine).0
      ≡ some x)
    × ((wait_until_healthy runtime timer "c" 3000000000 true machine).0 ≡ x)
    × Waits runtime timer "c" 3000000000 true 3000000000 machine x
        (wait_until_healthy runtime timer "c" 3000000000 true machine).1
wait_ends_example = wait_ends runtime timer "c" 3000000000 true now timer-IsTimer machine

abbrev one_container : PostgresBackend Machine
one_container = record {
  container_runtime = runtime;
  secrets = secrets;
  image = "pgvector/pgvector:pg16";
  worker_data_dir_base = "/srv";
  health_check_timeout = 3000000000;
}

abbrev database : Database Machine
database = record { connect = λ c w. (ok 1, w); execute = λ c s w. (ok tt, w) }

one_container-IsPostgresWorld : IsPostgresWorld Runs now one_container timer database
one_container-IsPostgresWorld = record {
  host = host;
  password_keeps = λ n w s h. h;
  connect_keeps = λ c w s h. h;
  execute_keeps = λ c q w s h. h;
}

spawn-Post_example :
    Post Runs
      (Laws.Spawned decimal one_container timer database one_container-IsPostgresWorld 7 worker 0
        bare)
      (Laws.Stranded decimal one_container timer database one_container-IsPostgresWorld 7 worker 0
        bare)
      (Postgres.spawn decimal one_container timer database 7 worker 0 spec machine)
spawn-Post_example =
    Laws.spawn-Post decimal one_container timer database one_container-IsPostgresWorld 7 worker 0
      spec machine bare refl

teardown-spawn_example :
    Post Runs
      (λ _ d'.
        d' ≡ Laws.cleared decimal one_container timer database one_container-IsPostgresWorld 7 bare)
      (λ e d'.
        Laws.cleared decimal one_container timer database one_container-IsPostgresWorld 7 d'
        ≡ Laws.cleared decimal one_container timer database one_container-IsPostgresWorld 7 bare)
      (Postgres.teardown decimal one_container timer database 7
        (Postgres.spawn decimal one_container timer database 7 worker 0 spec machine).1)
teardown-spawn_example =
    Laws.teardown-spawn decimal one_container timer database one_container-IsPostgresWorld 7 worker
      0 spec machine bare refl

abbrev five_containers : SupabaseBackend Machine
five_containers = record {
  container_runtime = runtime;
  secrets = secrets;
  images = record {
    postgres_image = "supabase/postgres";
    postgrest_image = "postgrest/postgrest";
    gotrue_image = "supabase/gotrue";
    kong_image = "kong";
    edge_runtime_image = "supabase/edge-runtime";
  };
  worker_data_dir_base = "/srv";
  generated_config_dir_base = "/var/lib/salmon";
  health_check_timeout = 3000000000;
}

abbrev signer : Signer Machine
signer = record { timestamp = λ w. (pos 0, w); encode = λ claims secret. ok "token" }

abbrev files : ConfigFiles Machine
files = record {
  create_dir_all = λ p w. (ok tt, w);
  write = λ p c w. (ok tt, w);
  remove_dir_all = λ p w. (ok tt, w);
}

five_containers-IsSupabaseWorld : IsSupabaseWorld Runs now five_containers timer signer files
five_containers-IsSupabaseWorld = record {
  host = host;
  password_keeps = λ n w s h. h;
  timestamp_keeps = λ w s h. h;
  create_dir_keeps = λ p w s h. h;
  write_keeps = λ p c w s h. h;
  remove_dir_keeps = λ p w s h. h;
}

spawn-Complete_example :
    Post Runs
      (Complete decimal five_containers timer signer files five_containers-IsSupabaseWorld 7 worker
        0 bare)
      (λ _ d'.
        OnlyOwn decimal five_containers timer signer files five_containers-IsSupabaseWorld 7 bare
          d')
      (Supabase.spawn decimal five_containers timer signer files 7 worker 0 spec machine)
spawn-Complete_example =
    Gone.spawn-Complete decimal five_containers timer signer files five_containers-IsSupabaseWorld 7
      worker 0 spec machine bare refl

spawn_then_teardown_example :
    Post Runs
      (λ _ d'. d' ≡ cleared decimal 7 bare)
      (λ _ d'. Unit {0})
      (Supabase.teardown decimal five_containers timer signer files 7
        (Supabase.spawn decimal five_containers timer signer files 7 worker 0 spec machine).1)
spawn_then_teardown_example =
    Gone.spawn_then_teardown decimal five_containers timer signer files
      five_containers-IsSupabaseWorld 7 worker 0 spec machine bare refl
