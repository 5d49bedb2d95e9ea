-- ===== src/Auth.antt =====
-- src/auth/mod.rs: the registry of clients and the check of a bearer token. The registry's hash map
-- is an association list, in which the entry that was put in last comes first.
pub mod Hashing
pub mod Laws
use app_salmon.Base.{
  String, Option, none, some, List, [], ◌∷◌, Result, ok, err, ok_or, ◌>>=◌, Bool, ◌||◌, text_eq,
  if◌then◌else◌, find,
}
use app_salmon.Base.Texts.{strip_prefix, split_once}
use app_salmon.Domain.Ids.{ClientId}
use Hashing.{SecretHash, Hasher, matches}

pub data AuthError : Type 0 where
  missing_credentials malformed_header unknown_client invalid_secret : AuthError

pub record ClientRegistry : Type 0 where
  pub clients : List (ClientId × SecretHash)

-- `HashMap::get`.
unfoldable pub get : ClientId → List (ClientId × SecretHash) → Option SecretHash
get id [] = none
get id ((name, hash) ∷ rest) = if text_eq name id then some hash else get id rest

module _ (hasher : Hasher) where
  check_secret : SecretHash → ClientId → String → Result AuthError ClientId
  unfolding matches
  check_secret expected_hash client_id secret =
      if matches hasher expected_hash secret then ok client_id else err invalid_secret

  check_named : ClientRegistry → String × String → Result AuthError ClientId
  unfolding check_secret
  check_named self (name, secret) =
      if text_eq name "" || text_eq secret "" then err malformed_header else do
        expected_hash ← ok_or unknown_client (get name self.clients)
        check_secret expected_hash name secret

  unfoldable pub authenticate : ClientRegistry → Option String → Result AuthError ClientId
  unfolding check_named
  authenticate self header = do
    header_value ← ok_or missing_credentials header
    credentials ← ok_or malformed_header (strip_prefix header_value "Bearer ")
    named ← ok_or malformed_header (split_once credentials ":")
    check_named self named
