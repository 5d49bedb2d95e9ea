-- ===== src/Tests/Web.antt =====
-- The theorems about the HTTP interface and what it stands on, applied to the in-memory world.
use Prim.Native.String.{◌++◌}
use app_salmon.Base.{
  ℕ, ◌+◌, ◌%◌, ◌≡◌, ◌↔◌, refl, String, Bool, true, false, ◌&&◌, ◌==◌, if◌then◌else◌, Option, some,
  List, [], ◌∷◌, map, Result, ok, err, arith,
}
use app_salmon.Base.Int.{pos}
use app_salmon.Base.Action.{Action}
use app_salmon.Base.Post.{Post}
use app_salmon.Base.Task.{Leaves}
use app_salmon.Domain.Time.{seconds}
use app_salmon.Domain.Ids.{ClientId}
use app_salmon.Domain.Cluster.{Cluster}
use app_salmon.Domain.ServiceKind.{postgres}
use app_salmon.Service.ClusterService.{is_deleting}
use app_salmon.Storage.Rows.{find_owned, of_owner, set_state}
use app_salmon.Http.Responses.Info.{info_response, list_entry}
use mathlib.Core.List.{Permᴰ}
use app_salmon.Errors.{Source, repository, docker, db, start_container}
use app_salmon.Auth.{ClientRegistry, authenticate}
use app_salmon.Auth.Hashing.{Hasher, IsHasher, of, from_hex_with_prefix}
use app_salmon.Auth.Hashing.Hex.{hex_text, from_hex_with_prefix-hex_text}
use app_salmon.Auth.Laws.{Verdict, authenticate-Verdict}
use app_salmon.Config.{Config, validate, client_registry, load}
use app_salmon.Config.Valid.{IsValid, validate_iff}
use app_salmon.Config.Registered.{configured, client_registry-get, load_iff}
use app_salmon.Auth.{get}
use app_salmon.Http.ApiErrors.{Debug, from_cluster_error, into_response}
use app_salmon.Http.ApiErrors.Laws.{fault_hidden}
use app_salmon.Http.Handlers.{
  Request, read_create_request, create_cluster, get_cluster, list_clusters, delete_cluster,
}
use app_salmon.Http.Handlers.Laws.{
  Unanswered, Handed, get_cluster-Post, list_clusters-Post, delete_cluster-Post,
}
use app_salmon.Http.Handlers.Create.{Accepted, Rejects, create_cluster-Post}
use app_salmon.Http.Responses.{CreateClusterRequest, about, listed, deletion}
use app_salmon.Http.Serve.{delete_one, serve}
use app_salmon.Http.Serve.Guard.{Served, serve-Served}
use app_salmon.Http.Server.{AppState, Server}
use app_salmon.Http.Server.View.{View, Sees}
use app_salmon.Tests.Memory.{World, Holds, service, service-IsClusterService}
use app_salmon.Tests.Samples.{three_rows, three_rows-IsAllocated}

-- A digest that is easy to follow: the sum of the bytes, thirty-two times.
abbrev sum : List ℕ → ℕ
sum [] = 0
sum (b ∷ bs) = b + sum bs

abbrev times : ℕ → List ℕ
times b = eight (eight (eight (eight [])))
  where
    eight : List ℕ → List ℕ
    eight l = b ∷ b ∷ b ∷ b ∷ b ∷ b ∷ b ∷ b ∷ l

abbrev same_bytes : List ℕ → List ℕ → Bool
same_bytes [] [] = true
same_bytes (a ∷ as_) (b ∷ bs) = a == b && same_bytes as_ bs
same_bytes _ _ = false

same_bytes_iff : (a b : List ℕ) → (same_bytes a b ≡ true) ↔ (a ≡ b)
same_bytes_iff [] [] = (λ h. refl, λ h. refl)
same_bytes_iff (a ∷ as_) (b ∷ bs) = ground (arith, same_bytes_iff as_ bs)
same_bytes_iff [] (b ∷ bs) = (λ h. cc, λ h. cc)
same_bytes_iff (a ∷ as_) [] = (λ h. cc, λ h. cc)

abbrev hasher : Hasher
hasher = record { sha256 = λ message. times (sum message % 256); ct_eq = same_bytes }

hasher-IsHasher : IsHasher hasher
hasher-IsHasher = record { length-sha256 = λ message. refl; ct_eq_iff = same_bytes_iff }

abbrev registry : ClientRegistry
registry = record { clients = ("alice", of hasher "secret") ∷ [] }

authenticate-Verdict_example :
    Verdict hasher registry
      (some "Bearer alice:secret")
      (authenticate hasher registry (some "Bearer alice:secret"))
authenticate-Verdict_example =
    authenticate-Verdict hasher hasher-IsHasher registry (some "Bearer alice:secret")

from_hex_with_prefix-hex_text_example :
    from_hex_with_prefix ("sha256:" ++ hex_text (times 171)) ≡ some (record { bytes = times 171 })
from_hex_with_prefix-hex_text_example =
    from_hex_with_prefix-hex_text (times 171) (ground arith) refl

abbrev config : Config
config = record {
  server = record { bind_addr = "127.0.0.1:8080" };
  limits = record {
    min_ttl_secs = pos 60;
    max_ttl_secs = pos 86400;
    max_clusters_per_user = 4;
    spawn_estimate_secs = 30;
    health_check_timeout_secs = 60;
    ttl_reaper_interval_secs = 30;
    failed_cluster_reap_delay_secs = 300;
    max_tar_bytes = 1000000;
    max_tar_entry_bytes = 100000;
  };
  docker = record { socket_path = "/var/run/docker.sock"; postgres_image = "postgres" };
  supabase = record {
    postgres_image = "a";
    postgrest_image = "b";
    gotrue_image = "c";
    kong_image = "d";
    edge_runtime_image = "e";
    kata_runtime_name = "kata";
  };
  storage = record { sqlite_path = "/var/lib/salmon.db" };
  logging = record {
    log_dir = "/var/log/salmon";
    json = true;
    retention_days = 14;
    compress_after_days = 1;
  };
  clients =
      record { name = "alice"; secret_hash = "sha256:" ++ hex_text (times 171); unix_user = "a" }
      ∷ record { name = "bob"; secret_hash = "sha256:" ++ hex_text (times 7); unix_user = "b" }
      ∷ [];
}

validate_iff_example : (validate config ≡ ok tt) ↔ IsValid config
validate_iff_example = validate_iff config

config-IsValid : IsValid config
unfolding validate from_hex_with_prefix
config-IsValid = (validate_iff config).0 refl

client_registry-get_example :
    (found : ClientRegistry) × (client_registry config ≡ ok found)
    × ((name : ClientId) → get name found.clients ≡ configured name config.clients)
client_registry-get_example = client_registry-get config config-IsValid

abbrev read_to_string : String → Action World Source String
read_to_string path w = (ok "the text", w)

load_iff_example :
    (load read_to_string (λ _. ok config) "salmon.toml" three_rows ≡ (ok config, three_rows)) ↔ (
      (raw : String) × (read_to_string "salmon.toml" three_rows ≡ (ok raw, three_rows))
      × (◌≡◌ {A = Result Source Config} (ok config) (ok config))
      × IsValid config)
load_iff_example =
    load_iff read_to_string (λ _. ok config) "salmon.toml" three_rows three_rows config

abbrev debug : Debug
debug from event = "state cannot handle event"

fault_hidden_example :
    into_response (from_cluster_error debug (docker (start_container "c" "password=secret")))
    ≡ into_response (from_cluster_error debug (repository (db "disk full")))
fault_hidden_example =
    fault_hidden debug (docker (start_container "c" "password=secret"))
      (repository (db "disk full")) tt tt

abbrev state : AppState World
state = record {
  cluster_service = service;
  client_registry = registry;
  spawn_estimate = seconds (pos 30);
}

abbrev server : Server World
server = record {
  world = three_rows;
  task_registry = record { tokens = (1, 0) ∷ []; fresh = 1; cancelled = [] };
  started = [];
}

abbrev view : View
view = record { rows = three_rows; registry = server.task_registry; jobs = [] }

abbrev json_body : CreateClusterRequest
json_body = record { service = postgres; pgvector = true; ttl_secs = pos 3600 }

abbrev request : Request
request = record {
  authorization = some "Bearer alice:secret";
  content_type = some "application/json";
  multipart = err "not multipart";
  json = ok json_body;
}

abbrev from_slice : List ℕ → Result Source CreateClusterRequest
from_slice bytes = ok json_body

create_cluster-Post_example :
    Post
      (Sees Holds)
      (λ response v'.
        (body : CreateClusterRequest) × (project_tar : Option (List ℕ)) × (read_create_request
            from_slice request
          ≡ ok (body, project_tar))
        × Accepted state service-IsClusterService debug "alice" body project_tar view response v')
      (λ e v'. (v' ≡ view) × Rejects state service-IsClusterService debug "alice" three_rows e)
      (create_cluster state debug from_slice "alice" request server)
create_cluster-Post_example =
    create_cluster-Post state service-IsClusterService debug from_slice "alice" request server view
      (refl, refl, refl)

get_cluster-Post_example :
    Post
      (Sees Holds)
      (λ response v'.
        (v' ≡ view)
        × ((c : Cluster) × (find_owned 3 "alice" three_rows ≡ some c)
            × (response ≡ record {
              status = if is_deleting c.state then 410 else 200;
              body = about (info_response c (seconds (pos 30))).1;
            })))
      (λ e v'. (v' ≡ view) × Unanswered 3 "alice" three_rows e)
      (get_cluster state debug "alice" 3 server)
get_cluster-Post_example =
    get_cluster-Post state service-IsClusterService debug "alice" 3 server view (refl, refl, refl)

list_clusters-Post_example :
    Post
      (Sees Holds)
      (λ response v'.
        (v' ≡ view)
        × ((shown : List Cluster) × Permᴰ shown (of_owner "alice" three_rows)
            × (response ≡ record {
              status = 200;
              body = listed (map (list_entry (seconds (pos 30))) shown);
            })))
      (λ e v'. v' ≡ view)
      (list_clusters state debug "alice" server)
list_clusters-Post_example =
    list_clusters-Post state service-IsClusterService debug "alice" server view (refl, refl, refl)

delete_cluster-Post_example :
    Post
      (Sees Holds)
      (λ response v'.
        (response ≡ record { status = 202; body = deletion (record { status = "deleting" }) })
        × ((c c' : Cluster) × (find_owned 1 "alice" three_rows ≡ some c)
            × (c' ≡ record c { state = c'.state })
            × (is_deleting c'.state ≡ true)
            × (v'.rows ≡ set_state 1 c'.state three_rows)
            × Handed state service-IsClusterService debug c.state c' 1 view v'))
      (λ e v'. (v' ≡ view) × Unanswered 1 "alice" three_rows e)
      (delete_cluster state debug "alice" 1 server)
delete_cluster-Post_example =
    delete_cluster-Post state service-IsClusterService debug "alice" 1 server view
      (refl, refl, refl)

serve-Served_example :
    Leaves
      (Sees Holds)
      (Served hasher state service-IsClusterService debug from_slice (delete_one 2) request view)
      (serve hasher state debug from_slice (delete_one 2) request server)
serve-Served_example =
    serve-Served hasher state service-IsClusterService debug from_slice (delete_one 2) request
      server view (refl, refl, refl) three_rows-IsAllocated
