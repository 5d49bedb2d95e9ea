-- ===== src/Config/Valid.antt =====
-- src/config.rs: which configurations `validate` accepts.
use app_salmon.Base.{
  ◌≤◌, ◌<◌, String, some, List, [], ◌∷◌, Result, ok, err, false, ◌≡◌, ◌≢◌, ◌↔◌, inl, inr, refl,
  text_ne, eq_iff, All, Bool-cases, Option-cases, arith,
}
use app_salmon.Base.Int.{pos, ◌<ℤ◌}
use app_salmon.Auth.Hashing.{SecretHash, from_hex_with_prefix}
use app_salmon.Config.{
  Config, ConfigError, LimitsConfig, ClientConfig, refuse, is_empty, no_client, check_limits,
  check_hashes, seen, check_unix_users, validate, ◌>>◌,
}

pub record LimitsHold (limits : LimitsConfig) : Type 0 where
  pub positive : pos 0 <ℤ limits.min_ttl_secs
  pub ordered : limits.min_ttl_secs <ℤ limits.max_ttl_secs
  pub quota : 0 < limits.max_clusters_per_user
  pub tar : 0 < limits.max_tar_bytes
  pub entry : 0 < limits.max_tar_entry_bytes
  pub within : limits.max_tar_entry_bytes ≤ limits.max_tar_bytes

abbrev pub Decodes : ClientConfig → Type 0
Decodes client = (hash : SecretHash) × (from_hex_with_prefix client.secret_hash ≡ some hash)

abbrev pub DistinctUsers : List ClientConfig → Type 0
DistinctUsers [] = Unit
DistinctUsers (client ∷ rest) =
    All (λ (other : ClientConfig). client.unix_user ≢ other.unix_user) rest × DistinctUsers rest

pub record IsValid (config : Config) : Type 0 where
  pub limits_hold : LimitsHold config.limits
  pub some_client : config.clients ≢ []
  pub hashes : All Decodes config.clients
  pub users : DistinctUsers config.clients

check_limits_iff : (limits : LimitsConfig) → (check_limits limits ≡ ok tt) ↔ LimitsHold limits
unfolding check_limits
check_limits_iff limits = (λ h. ground arith, λ h. ground arith)

check_hashes_iff : (l : List ClientConfig) → (check_hashes l ≡ ok tt) ↔ All Decodes l
unfolding check_hashes
check_hashes_iff [] = (λ h. tt, λ h. refl)
check_hashes_iff (client ∷ rest) = elim (Option-cases (from_hex_with_prefix client.secret_hash)) [
  | inl missing ↦ rw missing (λ h. cc, λ h. cc (h.0.1))
  | inr (hash, found) ↦
      rw found
        (λ h. ((hash, refl), (check_hashes_iff rest).0 h), λ h. (check_hashes_iff rest).1 h.1)
]

-- No entry's account is among `users`.
abbrev Unseen : List String → List ClientConfig → Type 0
Unseen users = All (λ (client : ClientConfig). seen client.unix_user users ≡ false)

abbrev Differs : String → List ClientConfig → Type 0
Differs user = All (λ (other : ClientConfig). user ≢ other.unix_user)

Unseen-more :
    (user : String) (users : List String) (l : List ClientConfig)
    → Unseen (user ∷ users) l ↔ (Differs user l × Unseen users l)
unfolding seen
Unseen-more user users [] = (λ h. (tt, tt), λ h. tt)
Unseen-more user users (client ∷ rest) =
    let ih = Unseen-more user users rest in
    (
      λ h.
          let more = ih.0 h.1 in
          (
            ((λ e. ground (arith, (eq_iff user client.unix_user).1 e)), more.0),
            (ground arith, more.1),
          ),
      λ h. (ground (arith, text_ne user client.unix_user h.0.0), ih.1 (h.0.1, h.1.1)),
    )

check_unix_users_iff :
    (users : List String) (l : List ClientConfig)
    → (check_unix_users users l ≡ ok tt) ↔ (Unseen users l × DistinctUsers l)
unfolding check_unix_users
check_unix_users_iff users [] = (λ h. (tt, tt), λ h. refl)
check_unix_users_iff users (client ∷ rest) =
    let ih = check_unix_users_iff (client.unix_user ∷ users) rest in
    let more = Unseen-more client.unix_user users rest in
    elim (Bool-cases (seen client.unix_user users)) [
      | inl found ↦ rw found (λ h. cc, λ h. cc (h.0.0))
      | inr fresh ↦ rw fresh (
        λ h. let (u, d) = ih.0 h in let (n, o) = more.0 u in ((refl, o), (n, d)),
        λ h. ih.1 (more.1 (h.1.0, h.0.1), h.1.1),
      )
    ]

>>-ok :
    {B : Type 0} (m : Result ConfigError (Unit {0})) (n : Result ConfigError B) (b : B)
    → ((m >> n) ≡ ok b) ↔ ((m ≡ ok tt) × (n ≡ ok b))
>>-ok (ok tt) n b = (λ h. (refl, h), λ h. h.1)
>>-ok (err e) n b = (λ h. cc, λ h. cc (h.0))

Unseen-by_none : (l : List ClientConfig) → Unseen [] l
unfolding seen
Unseen-by_none [] = tt
Unseen-by_none (client ∷ rest) = (refl, Unseen-by_none rest)

some_client_iff :
    (l : List ClientConfig) (message : String) → (refuse (is_empty l) message ≡ ok tt) ↔ (l ≢ [])
some_client_iff [] message = (λ h. cc, λ h. absurd (h refl))
some_client_iff (client ∷ rest) message = (λ h e. cc, λ h. refl)

-- `validate` accepts exactly the configurations whose limits are in order and which list at least
-- one client, each with a well-formed hash and with an account of its own.
pub validate_iff : (config : Config) → (validate config ≡ ok tt) ↔ IsValid config
unfolding validate
validate_iff config = (
  λ h.
      let (a, h') = (>>-ok (check_limits config.limits) _ tt).0 h in
      let (b, h'') = (>>-ok (refuse (is_empty config.clients) no_client) _ tt).0 h' in
      let (c, d) = (>>-ok (check_hashes config.clients) _ tt).0 h'' in
      record {
        limits_hold = (check_limits_iff config.limits).0 a;
        some_client = (some_client_iff config.clients no_client).0 b;
        hashes = (check_hashes_iff config.clients).0 c;
        users = ((check_unix_users_iff [] config.clients).0 d).1;
      },
  λ v. (>>-ok (check_limits config.limits) _ tt).1 (
    (check_limits_iff config.limits).1 v.limits_hold,
    (>>-ok (refuse (is_empty config.clients) no_client) _ tt).1 (
      (some_client_iff config.clients no_client).1 v.some_client,
      (>>-ok (check_hashes config.clients) _ tt).1 (
        (check_hashes_iff config.clients).1 v.hashes,
        (check_unix_users_iff [] config.clients).1 (Unseen-by_none config.clients, v.users),
      ),
    ),
  ),
)
