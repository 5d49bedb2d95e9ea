-- ===== src/Backends/Supabase/Laws.antt =====
-- src/backends/supabase.rs: which containers a spawn and a teardown leave.
use app_salmon.Base.{
  ℕ, ◌≡◌, ◌⊎◌, inl, inr, refl, ap, subst, ◌∙◌, false, String, Option, List, [], ◌∷◌, map, text_eq,
  text_eq_refl, All, Bool-cases, eq_iff, arith,
}
use app_salmon.Base.Action.{on_err}
use app_salmon.Base.Post.{Post, bind-Post, on_err-Post, weaken}
use app_salmon.Domain.Ids.{ClusterId}
use app_salmon.Errors.{docker, ContainerHandle}
use app_salmon.Containers.{ContainerSpec}
use app_salmon.Containers.Contract.{Docker, without, without_network, with_container}
use app_salmon.Backends.HealthWait.{Timer}
use app_salmon.Backends.HealthWait.Keeps.{IsHost, wait-Post}
use app_salmon.Backends.Supabase.{SupabaseBackend, start_all, service_suffixes}
use app_salmon.Backends.Supabase.Specs.{container_name, network_name}

-- The containers that are left when those of the names are removed one after another.
abbrev pub without_all : List ContainerHandle → List ContainerSpec → List ContainerSpec
without_all [] cs = cs
without_all (n ∷ ns) cs = without_all ns (without n cs)

-- The name is in the list.
abbrev pub Among : String → List ContainerHandle → Type 0
Among name [] = ⊥
Among name (n ∷ ns) = (name ≡ n) ⊎ Among name ns

without_all-cons :
    (spec : ContainerSpec) (ns : List ContainerHandle) (cs : List ContainerSpec)
    → Among spec.name ns
    → without_all ns (spec ∷ cs) ≡ without_all ns cs
without_all-cons spec [] cs h = absurd h
without_all-cons spec (n ∷ ns) cs h = elim (Bool-cases (text_eq spec.name n)) [
  | inl same ↦ rw same refl
  | inr other ↦ rw other (without_all-cons spec ns (without n cs) (later h other))
]
  where
    later : Among spec.name (n ∷ ns) → text_eq spec.name n ≡ false → Among spec.name ns
    later (inl e) o = absurd (ground (arith, (eq_iff spec.name n).1 e))
    later (inr m) o = m

-- The containers of the specifications, made in their order.
abbrev pub with_all : List ContainerSpec → Docker → Docker
with_all [] d = d
with_all (spec ∷ specs) d = with_all specs (with_container spec d)

module _ (id_text : ClusterId → String) (id : ClusterId) where
  abbrev pub names : List ContainerHandle
  names = map (container_name id_text id) service_suffixes

  -- What is left when the cluster's containers and its network are gone.
  abbrev pub cleared : Docker → Docker
  cleared d = record {
    containers = without_all names d.containers;
    networks = without_network (network_name id_text id) d.networks;
  }

  cleared-with_container :
      (spec : ContainerSpec) (d : Docker)
      → Among spec.name names
      → cleared (with_container spec d) ≡ cleared d
  cleared-with_container spec d h =
      ap
        (λ cs. record {
          containers = cs;
          networks = without_network (network_name id_text id) d.networks;
        })
        (without_all-cons spec names d.containers h)

  pub cleared-with_all :
      (specs : List ContainerSpec) (d : Docker)
      → All (λ (s : ContainerSpec). Among s.name names) specs
      → cleared (with_all specs d) ≡ cleared d
  cleared-with_all [] d h = refl
  cleared-with_all (spec ∷ specs) d h =
      cleared-with_all specs (with_container spec d) h.1 ∙ cleared-with_container spec d h.0

  pub cleared-with_network :
      (d : Docker)
      → cleared (record d { networks = network_name id_text id ∷ d.networks }) ≡ cleared d
  cleared-with_network d = rw (text_eq_refl (network_name id_text id)) refl

module _ {W : Type 0} {Runs : W → Docker → Type 0} {time : W → ℕ} (id_text : ClusterId → String)
    (self : SupabaseBackend W) (timer : Timer W)
    (host : IsHost Runs time self.container_runtime timer) (id : ClusterId) where
  -- The loop makes the containers in their order; where it stops, it has made none but theirs.
  pub start_all-Post :
      (kong_name : String) (specs : List ContainerSpec) (port : Option ℕ) (w : W) (d : Docker)
      → All (λ (s : ContainerSpec). Among s.name (names id_text id)) specs
      → Runs w d
      → Post Runs
          (λ _ d'. d' ≡ with_all specs d)
          (λ _ d'. cleared id_text id d' ≡ cleared id_text id d)
          (start_all id_text self timer kong_name specs port w)
  unfolding start_all
  start_all-Post kong_name [] port w d h k = record { ends = (d, k, refl) }
  start_all-Post kong_name (spec ∷ specs) port w d (named, h) k =
      let gone = cleared-with_container id_text id spec d named in
      bind-Post (on_err docker (self.container_runtime.create_and_start spec) w) _
        (λ handle w1 d1 k1 (_, made).
          bind-Post _ _
            (λ published w2 d2 k2 (same2, _).
              weaken _ (λ _ d' e. e) (λ _ d' e. e ∙ gone)
                (start_all-Post kong_name specs _ w2 (with_container spec d) h
                  (subst (Runs w2) (same2 ∙ made) k2)))
            (λ e d' (same, _). ap (cleared id_text id) (same ∙ made) ∙ gone)
            (wait-Post self.container_runtime timer host handle self.health_check_timeout _ w1 d1
              k1))
        (λ e s r. r)
        (on_err-Post docker (self.container_runtime.create_and_start spec) w
          (λ e d' r. untouched spec d' gone r) (host.runs.create_lem spec w d k))
    where
      untouched :
          (s : ContainerSpec) (d' : Docker)
          → cleared id_text id (with_container s d) ≡ cleared id_text id d
          → (d' ≡ d) ⊎ (d' ≡ with_container s d)
          → cleared id_text id d' ≡ cleared id_text id d
      untouched s d' gone (inl same) = ap (cleared id_text id) same
      untouched s d' gone (inr made) = ap (cleared id_text id) made ∙ gone
