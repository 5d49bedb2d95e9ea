-- ===== src/Adapters/DockerBollard/Engines.antt =====
-- What src/adapters/docker_bollard.rs relies on of the Docker Engine: which containers and networks
-- it keeps after each request.
use app_salmon.Base.{
  ◌≡◌, refl, sym, ap, String, List, [], ◌∷◌, map, keep, Bool, true, false, not, text_eq, All,
  if◌then◌else◌,
}
use app_salmon.Base.Post.{Post}
use app_salmon.Containers.{ContainerSpec}
use app_salmon.Containers.Contract.{Docker, without, without_network}
use app_salmon.Adapters.DockerBollard.{
  ContainerCreateBody, Engine, is_not_found, container_create_body,
}

-- The names of the containers that the daemon keeps, each with the body it was made of, and those of
-- the networks.
pub record Kept : Type 0 where
  pub made : List (String × ContainerCreateBody)
  pub networks : List String

abbrev pub unmade :
    String → List (String × ContainerCreateBody) → List (String × ContainerCreateBody)
unmade name = keep (λ e. not (text_eq e.0 name))

-- A request that is refused changes nothing. A removal is answered "not found" when there is nothing
-- of that name; a forced one need not find the container stopped.
pub record IsEngine {W : Type 0} (Holds : W → Kept → Type 0) (engine : Engine W) : Type 0 where
  pub create_lem :
      (name : String) (body : ContainerCreateBody) (w : W) (k : Kept)
      → Holds w k
      → Post Holds
          (λ _ k'. k' ≡ record k { made = (name, body) ∷ k.made })
          (λ _ k'. k' ≡ k)
          (engine.create_container name body w)
  pub start_lem :
      (name : String) (w : W) (k : Kept)
      → Holds w k
      → Post Holds (λ _ k'. k' ≡ k) (λ _ k'. k' ≡ k) (engine.start_container name w)
  pub inspect_lem :
      (name : String) (w : W) (k : Kept)
      → Holds w k
      → Post Holds (λ _ k'. k' ≡ k) (λ _ k'. k' ≡ k) (engine.inspect_container name w)
  pub remove_lem :
      (name : String) (v : Bool) (w : W) (k : Kept)
      → Holds w k
      → Post Holds
          (λ _ k'. k' ≡ record k { made = unmade name k.made })
          (λ e k'. (k' ≡ k) × (is_not_found e ≡ true → All (λ c. text_eq c.0 name ≡ false) k.made))
          (engine.remove_container name true v false w)
  pub create_network_lem :
      (name : String) (w : W) (k : Kept)
      → Holds w k
      → Post Holds
          (λ _ k'. k' ≡ record k { networks = name ∷ k.networks })
          (λ _ k'. k' ≡ k)
          (engine.create_network name w)
  pub remove_network_lem :
      (name : String) (w : W) (k : Kept)
      → Holds w k
      → Post Holds
          (λ _ k'. k' ≡ record k { networks = without_network name k.networks })
          (λ e k'.
            (k' ≡ k) × (is_not_found e ≡ true → All (λ n. text_eq n name ≡ false) k.networks))
          (engine.remove_network name w)

-- Nothing is left out where no element passes the test.
pub keep-All :
    {A : Type 0} (p : A → Bool) (l : List A)
    → All (λ a. p a ≡ false) l
    → keep (λ a. not (p a)) l ≡ l
keep-All p [] h = refl
keep-All p (a ∷ l) h = rw (h.0) (ap (λ m. a ∷ m) (keep-All p l h.1))

pub All-map_inv :
    {A B : Type 0} (f : A → B) (P : B → Type 0) (l : List A)
    → All P (map f l)
    → All (λ a. P (f a)) l
All-map_inv f P [] h = tt
All-map_inv f P (a ∷ l) h = (h.0, All-map_inv f P l h.1)

abbrev ByTest : {A B : Type 0} → (A → B) → Bool → A → List A → Type 0
ByTest f b a l = (if b then f a ∷ map f l else map f l) ≡ map f (if b then a ∷ l else l)

ByTest-all : {A B : Type 0} (f : A → B) (b : Bool) (a : A) (l : List A) → ByTest f b a l
ByTest-all f true a l = refl
ByTest-all f false a l = refl

keep-map :
    {A B : Type 0} (f : A → B) (p : B → Bool) (l : List A)
    → keep p (map f l) ≡ map f (keep (λ a. p (f a)) l)
keep-map f p [] = refl
keep-map f p (a ∷ l) = rw (keep-map f p l) (ByTest-all f (p (f a)) a (keep (λ x. p (f x)) l))

module _ (kata_runtime_name : String) where
  abbrev pub entry : ContainerSpec → String × ContainerCreateBody
  entry spec = (spec.name, container_create_body spec kata_runtime_name)

  abbrev pub kept_of : Docker → Kept
  kept_of d = record { made = map entry d.containers; networks = d.networks }

  abbrev pub Runs : {W : Type 0} → (W → Kept → Type 0) → W → Docker → Type 0
  Runs Holds w d = Holds w (kept_of d)

  pub unmade-kept :
      (name : String) (d : Docker)
      → kept_of (record d { containers = without name d.containers })
        ≡ record (kept_of d) { made = unmade name (kept_of d).made }
  unmade-kept name d =
      ap (λ m. record { made = m; networks = d.networks })
        (sym (keep-map entry (λ e. not (text_eq e.0 name)) d.containers))
