-- ===== src/Auth/Laws.antt =====
-- src/auth/mod.rs: what `authenticate` answers to every header.
use Prim.Native.String.{◌++◌, ◌∷◌}
use mathlib.Core.Option.{some-injective}
use app_salmon.Base.{
  String, Option, none, some, Result, ok, err, true, ◌≡◌, ◌≢◌, ◌↔◌, inl, inr, ap, ◌∙◌, sym, arith,
  text_eq, text_eq_refl, text_ne, Bool-cases, Option-cases, ◌||◌,
}
use app_salmon.Base.Texts.{
  strip_prefix, split_once, Lacks, strip_prefix-append, eq_of_strip_prefix, split_once-append,
  eq_of_split_once,
}
use app_salmon.Domain.Ids.{ClientId}
use app_salmon.Auth.Hashing.{SecretHash, Hasher, IsHasher, of, matches}
use app_salmon.Auth.{
  AuthError, ClientRegistry, get, check_secret, check_named, authenticate, missing_credentials,
  malformed_header, unknown_client, invalid_secret,
}

-- The header is `Bearer <name>:<secret>`, cut at the first colon, with neither part empty.
pub record Carries (value : String) (name : ClientId) (secret : String) : Type 0 where
  pub shape : value ≡ "Bearer " ++ (name ++ (":" ∷ secret))
  pub first_colon : Lacks ":" name
  pub named : name ≢ ""
  pub has_secret : secret ≢ ""

-- What a header deserves.
pub data Verdict (hasher : Hasher) (self : ClientRegistry)
    : Option String → Result AuthError ClientId → Type 0 where
  no_header : Verdict hasher self none (err missing_credentials)
  unreadable :
      (value : String)
      → ((name secret : String) → ¬ Carries value name secret)
      → Verdict hasher self (some value) (err malformed_header)
  unregistered :
      (value name secret : String)
      → Carries value name secret
      → get name self.clients ≡ none
      → Verdict hasher self (some value) (err unknown_client)
  refused :
      (value name secret : String) (expected : SecretHash)
      → Carries value name secret
      → get name self.clients ≡ some expected
      → expected ≢ of hasher secret
      → Verdict hasher self (some value) (err invalid_secret)
  accepted :
      (value name secret : String)
      → Carries value name secret
      → get name self.clients ≡ some (of hasher secret)
      → Verdict hasher self (some value) (ok name)

Carries-parts :
    (value name secret : String)
    → Carries value name secret
    → (strip_prefix value "Bearer " ≡ some (name ++ (":" ∷ secret)))
      × (split_once (name ++ (":" ∷ secret)) ":" ≡ some (name, secret))
Carries-parts value name secret c = (
  rw c.shape (strip_prefix-append "Bearer " (name ++ (":" ∷ secret))),
  split_once-append name secret ":" c.first_colon,
)

unreadable_parts :
    (value name secret rest : String)
    → strip_prefix value "Bearer " ≡ some rest
    → split_once rest ":" ≡ some (name, secret)
    → name ≢ ""
    → secret ≢ ""
    → Carries value name secret
unreadable_parts value name secret rest bearer cut n s =
    let c = eq_of_split_once rest ":" (name, secret) cut in
    record {
      shape = eq_of_strip_prefix value "Bearer " rest bearer ∙ ap (λ t. "Bearer " ++ t) c.1;
      first_colon = c.0;
      named = n;
      has_secret = s;
    }

module _ (hasher : Hasher) (law : IsHasher hasher) (self : ClientRegistry) where
  matches_iff :
      (expected : SecretHash) (secret : String)
      → (matches hasher expected secret ≡ true) ↔ (expected ≡ of hasher secret)
  unfolding matches
  matches_iff expected secret = (
    λ h. ground (arith, (law.ct_eq_iff expected.bytes (of hasher secret).bytes).0 h),
    λ h.
        (law.ct_eq_iff expected.bytes (of hasher secret).bytes).1
          (ap (λ (s : SecretHash). s.bytes) h),
  )

  checked-Verdict :
      (value name secret : String) (expected : SecretHash)
      → Carries value name secret
      → get name self.clients ≡ some expected
      → Verdict hasher self (some value) (check_secret hasher expected name secret)
  unfolding check_secret
  checked-Verdict value name secret expected c known =
      elim (Bool-cases (matches hasher expected secret)) [
        | inl same ↦ rw same (
            Verdict.accepted value name secret c
              (known ∙ ap some ((matches_iff expected secret).0 same)))
        | inr other ↦ rw other (
            Verdict.refused value name secret expected c known
              (λ same. cc (other, (matches_iff expected secret).1 same)))
      ]

  named-Verdict :
      (value name secret : String)
      → Carries value name secret
      → Verdict hasher self (some value) (check_named hasher self (name, secret))
  unfolding check_named
  named-Verdict value name secret c =
      rw (text_ne name "" c.named, text_ne secret "" c.has_secret)
        (elim (Option-cases (get name self.clients)) [
          | inl missing ↦ rw missing (Verdict.unregistered value name secret c missing)
          | inr (expected, known) ↦ rw known (checked-Verdict value name secret expected c known)
        ])

  split_parts :
      (value name secret : String)
      → ((rest : String)
          → strip_prefix value "Bearer " ≡ some rest
          → split_once rest ":" ≢ some (name, secret))
      → ¬ Carries value name secret
  split_parts value name secret h c =
      let (bearer, cut) = Carries-parts value name secret c in h _ bearer cut

  same_parts :
      (value rest name secret n s : String)
      → Carries value n s
      → strip_prefix value "Bearer " ≡ some rest
      → split_once rest ":" ≡ some (name, secret)
      → (n ≡ name) × (s ≡ secret)
  same_parts value rest name secret n s c bearer cut =
      let (bearer', cut') = Carries-parts value n s c in
      let same : rest ≡ n ++ (":" ∷ s) = some-injective _ _ (sym bearer ∙ bearer') in
      let parts : ◌≡◌ {A = String × String} (n, s) (name, secret) =
        some-injective _ _ (sym cut' ∙ (ap (λ t. split_once t ":") (sym same) ∙ cut)) in
      (ap (λ (p : String × String). p.0) parts, ap (λ (p : String × String). p.1) parts)

  cut-Verdict :
      (value rest : String) (parts : String × String)
      → strip_prefix value "Bearer " ≡ some rest
      → split_once rest ":" ≡ some parts
      → Verdict hasher self (some value) (check_named hasher self parts)
  unfolding check_named
  cut-Verdict value rest (name, secret) bearer cut =
      elim (Bool-cases (text_eq name "" || text_eq secret "")) [
        | inl empty ↦ rw empty (
            Verdict.unreadable value (λ n s c.
              let (e, f) = same_parts value rest name secret n s c bearer cut in
              ground (arith, text_ne n "" c.named, text_ne s "" c.has_secret)))
        | inr full ↦ named-Verdict value name secret (
            unreadable_parts value name secret rest bearer cut
              (λ e. ground (arith, text_eq_refl name)) (λ e. ground (arith, text_eq_refl secret)))
      ]

  -- What every header is answered: each error has its own cause, and the caller that is let in is the
  -- one that the header names, registered with the hash of the secret that the header carries.
  pub authenticate-Verdict :
      (header : Option String) → Verdict hasher self header (authenticate hasher self header)
  unfolding authenticate
  authenticate-Verdict none = Verdict.no_header
  authenticate-Verdict (some value) = elim (Option-cases (strip_prefix value "Bearer ")) [
    | inl other ↦
        rw other (Verdict.unreadable value (λ n s. split_parts value n s (λ rest e _. cc)))
    | inr (rest, bearer) ↦ rw bearer (elim (Option-cases (split_once rest ":")) [
      | inl uncut ↦
          rw uncut (Verdict.unreadable value (λ n s. split_parts value n s (λ rest' e f. cc)))
      | inr (parts, cut) ↦ rw cut (cut-Verdict value rest parts bearer cut)
    ])
  ]
