-- ===== src/Config.antt =====
-- src/config.rs: the configuration, its check and the registry of clients that it describes. The
-- TOML parser and the reading of the file are parameters.
pub mod Valid
pub mod Registered
use app_salmon.Base.{
  ℕ, ◌*◌, String, Option, none, some, List, [], ◌∷◌, Result, ok, err, ok_or, map_err, ◌>>=◌, Bool,
  true, false, ◌||◌, not, text_eq, ltb, ◌==◌, if◌then◌else◌,
}
use Prim.Native.String.{◌++◌}
use app_salmon.Base.Int.{ℤ, pos, leb_ℤ}
use app_salmon.Base.Action
use app_salmon.Base.Action.{Action, on_err, lift, pure}
use app_salmon.Errors.{Source}
use app_salmon.Domain.Ids.{ClientId}
use app_salmon.Auth.{ClientRegistry}
use app_salmon.Auth.Hashing.{SecretHash, from_hex_with_prefix}

pub data ConfigError : Type 0 where
  read : (path : String) (source : Source) → ConfigError
  parse : (path : String) (source : Source) → ConfigError
  invalid : String → ConfigError

pub record ServerConfig : Type 0 where
  pub bind_addr : String

pub record LimitsConfig : Type 0 where
  pub min_ttl_secs : ℤ  -- i64
  pub max_ttl_secs : ℤ
  pub max_clusters_per_user : ℕ  -- u32
  pub spawn_estimate_secs : ℕ  -- u64, as the four below
  pub health_check_timeout_secs : ℕ
  pub ttl_reaper_interval_secs : ℕ
  pub failed_cluster_reap_delay_secs : ℕ
  pub max_tar_bytes : ℕ  -- usize
  pub max_tar_entry_bytes : ℕ

pub record DockerConfig : Type 0 where
  pub socket_path : String
  pub postgres_image : String

pub record SupabaseConfig : Type 0 where
  pub postgres_image : String
  pub postgrest_image : String
  pub gotrue_image : String
  pub kong_image : String
  pub edge_runtime_image : String
  pub kata_runtime_name : String

pub record StorageConfig : Type 0 where
  pub sqlite_path : String

pub record LoggingConfig : Type 0 where
  pub log_dir : String
  pub json : Bool
  pub retention_days : ℕ  -- u32
  pub compress_after_days : ℕ

pub record ClientConfig : Type 0 where
  pub name : String
  pub secret_hash : String
  pub unix_user : String

pub record Config : Type 0 where
  pub server : ServerConfig
  pub limits : LimitsConfig
  pub docker : DockerConfig
  pub supabase : SupabaseConfig
  pub storage : StorageConfig
  pub logging : LoggingConfig
  pub clients : List ClientConfig

abbrev refuse : Bool → String → Result ConfigError (Unit {0})
refuse bad message = if bad then err (invalid message) else ok tt

infixl 5 ◌>>◌
abbrev ◌>>◌ :
    {B : Type 0} → Result ConfigError (Unit {0}) → Result ConfigError B → Result ConfigError B
m >> n = m >>= λ _. n

malformed : ClientConfig → ConfigError
malformed client = invalid (
    "client '" ++ (client.name ++ "' has a malformed secret_hash (expected sha256:<64 hex chars>)"))

check_limits : LimitsConfig → Result ConfigError (Unit {0})
check_limits limits = do
  refuse (leb_ℤ limits.min_ttl_secs (pos 0)) "limits.min_ttl_secs must be positive"
  refuse (leb_ℤ limits.max_ttl_secs limits.min_ttl_secs)
      "limits.min_ttl_secs must be less than limits.max_ttl_secs"
  refuse (limits.max_clusters_per_user == 0) "limits.max_clusters_per_user must be at least 1"
  refuse (limits.max_tar_bytes == 0) "limits.max_tar_bytes must be at least 1"
  refuse (limits.max_tar_entry_bytes == 0) "limits.max_tar_entry_bytes must be at least 1"
  refuse (ltb limits.max_tar_bytes limits.max_tar_entry_bytes)
      "limits.max_tar_entry_bytes must not exceed limits.max_tar_bytes"

is_none : {A : Type 0} → Option A → Bool
is_none none = true
is_none (some a) = false

check_hashes : List ClientConfig → Result ConfigError (Unit {0})
unfolding is_none
check_hashes [] = ok tt
check_hashes (client ∷ rest) =
    let more = check_hashes rest in
    if is_none (from_hex_with_prefix client.secret_hash) then err (malformed client) else more

-- `HashSet::contains`.
seen : String → List String → Bool
seen user [] = false
seen user (u ∷ us) = text_eq u user || seen user us

check_unix_users : List String → List ClientConfig → Result ConfigError (Unit {0})
unfolding seen
check_unix_users seen_unix_users [] = ok tt
check_unix_users seen_unix_users (client ∷ rest) =
    let more = check_unix_users (client.unix_user ∷ seen_unix_users) rest in
    if seen client.unix_user seen_unix_users
    then err (
        invalid (
          "unix_user '"
          ++ (client.unix_user
              ++ "' is used by more than one [[clients]] entry — each client must have its own account")))
    else more

abbrev no_client : String
no_client = "at least one [[clients]] entry is required"

abbrev is_empty : List ClientConfig → Bool
is_empty [] = true
is_empty (_ ∷ _) = false

unfoldable pub validate : Config → Result ConfigError (Unit {0})
unfolding malformed check_limits check_hashes check_unix_users
validate self = do
  check_limits self.limits
  refuse (is_empty self.clients) no_client
  check_hashes self.clients
  check_unix_users [] self.clients

register_clients :
    List (ClientId × SecretHash)
    → List ClientConfig
    → Result ConfigError (List (ClientId × SecretHash))
register_clients clients [] = ok clients
register_clients clients (client ∷ rest) = do
  hash ← ok_or (malformed client) (from_hex_with_prefix client.secret_hash)
  register_clients ((client.name, hash) ∷ clients) rest

unfoldable pub client_registry : Config → Result ConfigError ClientRegistry
unfolding malformed register_clients
client_registry self = do
  clients ← register_clients [] self.clients
  ok (record { clients = clients })

module _ {W : Type 0} (read_to_string : String → Action W Source String)
    (from_str : String → Result Source Config) where
  checked : Config → Result ConfigError Config
  unfolding validate
  checked config = do validate config; ok config

  unfoldable pub load : String → Action W ConfigError Config
  unfolding checked
  load path =
      Action.◌>>=◌ (on_err (read path) (read_to_string path))
        λ raw. lift (map_err (parse path) (from_str raw) >>= checked)
