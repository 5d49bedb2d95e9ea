-- ===== src/Config/Registered.antt =====
-- src/config.rs: the registry of clients that an accepted configuration gives.
use app_salmon.Base.{
  String, Option, none, List, [], ◌∷◌, Result, ok, err, map_err, ok_injective, sym, ap, subst,
  ◌>>=◌, ◌≡◌, ◌↔◌, ◌∙◌, refl, text_eq, if◌then◌else◌, All, arith,
}
use app_salmon.Base.Options.{or_else}
use app_salmon.Domain.Ids.{ClientId}
use app_salmon.Auth.{ClientRegistry, get}
use app_salmon.Auth.Hashing.{SecretHash, from_hex_with_prefix}
use app_salmon.Config.{
  Config, ConfigError, ClientConfig, register_clients, client_registry, checked, load, validate,
  read, parse,
}
use app_salmon.Base.Action.{Action, continue, lift}
use app_salmon.Errors.{Source}
use app_salmon.Config.Valid.{Decodes, IsValid, validate_iff}

-- The hash of the last entry with the name, if there is one.
abbrev pub configured : ClientId → List ClientConfig → Option SecretHash
configured name [] = none
configured name (client ∷ rest) =
    or_else (configured name rest)
      (if text_eq client.name name then from_hex_with_prefix client.secret_hash else none)

register_clients-get :
    (l : List ClientConfig) (before : List (ClientId × SecretHash))
    → All Decodes l
    → (clients : List (ClientId × SecretHash)) × (register_clients before l ≡ ok clients)
      × ((name : ClientId) → get name clients ≡ or_else (configured name l) (get name before))
unfolding register_clients get
register_clients-get [] before h = (before, refl, λ name. refl)
register_clients-get (client ∷ rest) before h =
    let (hash, found) = h.0 in
    let (clients, ran, gets) = register_clients-get rest ((client.name, hash) ∷ before) h.1 in
    (clients, rw found ran, λ name. ground (arith, gets name, found))

-- An accepted configuration has a registry, in which each name has the hash of the last entry that
-- bears it, and no other name is registered.
pub client_registry-get :
    (config : Config)
    → IsValid config
    → (registry : ClientRegistry) × (client_registry config ≡ ok registry)
      × ((name : ClientId) → get name registry.clients ≡ configured name config.clients)
unfolding client_registry get
client_registry-get config v =
    let (clients, ran, gets) = register_clients-get config.clients [] v.hashes in
    (record { clients = clients }, rw ran refl, λ name. ground (arith, gets name))

module _ {W : Type 0} (read_to_string : String → Action W Source String)
    (from_str : String → Result Source Config) where
  checked_iff :
      (config config' : Config)
      → (checked read_to_string from_str config ≡ ok config')
        ↔ ((config ≡ config') × IsValid config')
  unfolding checked
  checked_iff config config' = go (validate config) refl
    where
      go :
          (r : Result ConfigError (Unit {0}))
          → validate config ≡ r
          → ((r >>= λ _. ok config) ≡ ok config') ↔ ((config ≡ config') × IsValid config')
      go (ok tt) e = (
        λ h. (ok_injective h, subst IsValid (ok_injective h) ((validate_iff config).0 e)),
        λ h. ap ok h.0,
      )
      go (err x) e =
          (λ h. cc, λ h. let v = (validate_iff config).1 (subst IsValid (sym h.0) h.1) in cc)

  parsed_iff :
      (path : String) (r : Result Source Config) (config : Config)
      → ((map_err (parse path) r >>= checked read_to_string from_str) ≡ ok config)
        ↔ ((r ≡ ok config) × IsValid config)
  parsed_iff path (ok c) config =
      let k = checked_iff c config in
      (λ h. (ap ok (k.0 h).0, (k.0 h).1), λ h. k.1 (ok_injective h.0, h.1))
  parsed_iff path (err e) config = (λ h. cc, λ h. cc (h.0))

  -- `load` returns a configuration exactly if the file can be read, its text parses to it, and it
  -- passes the check.
  pub load_iff :
      (path : String) (w w' : W) (config : Config)
      → (load read_to_string from_str path w ≡ (ok config, w')) ↔ (
          (raw : String) × (read_to_string path w ≡ (ok raw, w'))
          × (from_str raw ≡ ok config)
          × IsValid config)
  unfolding load
  load_iff path w w' config = go (read_to_string path w) refl
    where
      go :
          (p : Result Source String × W)
          → read_to_string path w ≡ p
          → (continue
                (map_err (read path) p.0, p.1)
                (λ raw.
                  lift (map_err (parse path) (from_str raw) >>= checked read_to_string from_str))
              ≡ (ok config, w'))
            ↔ ((raw : String) × (read_to_string path w ≡ (ok raw, w'))
                × (from_str raw ≡ ok config)
                × IsValid config)
      go (ok raw, w1) e = (
        λ h.
            let k = (parsed_iff path (from_str raw) config).0 (ap (λ p. p.0) h) in
            (raw, e ∙ ap (λ v. (ok raw, v)) (ap (λ p. p.1) h), k.0, k.1),
        λ h.
            let ended : ◌≡◌ {A = Result Source String × W} (ok raw, w1) (ok h.0, w') =
              sym e ∙ h.1 in
            let same : raw ≡ h.0 = ok_injective (ap (λ p. p.0) ended) in
            let passed = (parsed_iff path (from_str raw) config).1 (ap from_str same ∙ h.2, h.3) in
            cc (passed, ap (λ (p : Result Source String × W). p.1) ended),
      )
      go (err x, w1) e = (
        λ h. cc,
        λ h.
            let ended : ◌≡◌ {A = Result Source String × W} (err x, w1) (ok h.0, w') = sym e ∙ h.1 in
            cc,
      )
