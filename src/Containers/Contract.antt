-- ===== src/Containers/Contract.antt =====
-- What the backends rely on of src/ports/container_runtime.rs: which containers and networks there
-- are after each operation.
use app_salmon.Base.{◌≡◌, ◌⊎◌, not, String, List, ◌∷◌, keep, text_eq}
use app_salmon.Base.Post.{Post}
use app_salmon.Errors.{ContainerHandle}
use app_salmon.Containers.{ContainerSpec, ContainerRuntime}

-- The containers, the one made last first, and the networks.
pub record Docker : Type 0 where
  pub containers : List ContainerSpec
  pub networks : List String

abbrev pub without : ContainerHandle → List ContainerSpec → List ContainerSpec
without h = keep (λ c. not (text_eq c.name h))

abbrev pub without_network : String → List String → List String
without_network name = keep (λ n. not (text_eq n name))

abbrev pub with_container : ContainerSpec → Docker → Docker
with_container spec d = record d { containers = spec ∷ d.containers }

-- A container whose start failed has been made. Removing one that is gone is no error, and an
-- operation that fails otherwise has done nothing.
pub record IsContainerRuntime {W : Type 0} (Runs : W → Docker → Type 0) (r : ContainerRuntime W)
    : Type 0 where
  pub create_lem :
      (spec : ContainerSpec) (w : W) (d : Docker)
      → Runs w d
      → Post Runs
          (λ h d'. (h ≡ spec.name) × (d' ≡ with_container spec d))
          (λ _ d'. (d' ≡ d) ⊎ (d' ≡ with_container spec d))
          (r.create_and_start spec w)
  pub inspect_lem :
      (h : ContainerHandle) (w : W) (d : Docker)
      → Runs w d
      → Post Runs (λ _ d'. d' ≡ d) (λ _ d'. d' ≡ d) (r.inspect h w)
  pub remove_lem :
      (h : ContainerHandle) (w : W) (d : Docker)
      → Runs w d
      → Post Runs
          (λ _ d'. d' ≡ record d { containers = without h d.containers })
          (λ _ d'. d' ≡ d)
          (r.stop_and_remove h w)
  pub create_network_lem :
      (name : String) (w : W) (d : Docker)
      → Runs w d
      → Post Runs
          (λ h d'. (h ≡ name) × (d' ≡ record d { networks = name ∷ d.networks }))
          (λ _ d'. d' ≡ d)
          (r.create_network name w)
  pub remove_network_lem :
      (h : String) (w : W) (d : Docker)
      → Runs w d
      → Post Runs
          (λ _ d'. d' ≡ record d { networks = without_network h d.networks })
          (λ _ d'. d' ≡ d)
          (r.remove_network h w)
