-- ===== src/Tests/Daemon.antt =====
-- A daemon that is asked for its containers by name, and the theorem about
-- src/adapters/docker_bollard.rs applied to it.
use app_salmon.Base.{
  ◌≡◌, refl, subst, arith, ap, String, none, List, [], ◌∷◌, keep, Bool, true, false, not, ◌||◌,
  text_eq, Result, ok, err, All,
}
use app_salmon.Base.Post.{Post}
use app_salmon.Containers.Contract.{IsContainerRuntime}
use app_salmon.Adapters.DockerBollard.{
  BollardError, docker_response_server_error, other_error, ContainerCreateBody, Engine,
  is_not_found,
}
use app_salmon.Adapters.DockerBollard.Runtime.{BollardContainerRuntime, container_runtime}
use app_salmon.Adapters.DockerBollard.Engines.{Kept, IsEngine, unmade, Runs}
use app_salmon.Adapters.DockerBollard.Refines.{IsForgiving, container_runtime-IsContainerRuntime}

abbrev is_made : String → List (String × ContainerCreateBody) → Bool
is_made name [] = false
is_made name (e ∷ es) = text_eq e.0 name || is_made name es

abbrev removal : String → Bool → Kept → Result BollardError (Unit {0}) × Kept
removal name true w = (ok tt, record w { made = unmade name w.made })
removal name false w = (err (docker_response_server_error 404 "No such container"), w)

abbrev engine : Engine Kept
engine = record {
  create_container = λ name body w. (ok tt, record w { made = (name, body) ∷ w.made });
  start_container = λ name w. (err (other_error "out of memory"), w);
  inspect_container = λ name w. (ok (record { state = none; host_ports = [] }), w);
  remove_container = λ name force v link w. removal name (is_made name w.made) w;
  create_network = λ name w. (ok tt, record w { networks = name ∷ w.networks });
  remove_network =
      λ name w. (ok tt, record w { networks = keep (λ n. not (text_eq n name)) w.networks });
}

abbrev Holds : Kept → Kept → Type 0
Holds w k = w ≡ k

none_made :
    (name : String) (es : List (String × ContainerCreateBody))
    → is_made name es ≡ false
    → All (λ c. text_eq c.0 name ≡ false) es
none_made name [] h = tt
none_made name (e ∷ es) h = (ground arith, none_made name es (ground arith))

removal-Post :
    (name : String) (b : Bool) (w : Kept)
    → is_made name w.made ≡ b
    → Post Holds
        (λ _ k'. k' ≡ record w { made = unmade name w.made })
        (λ e k'. (k' ≡ w) × (is_not_found e ≡ true → All (λ c. text_eq c.0 name ≡ false) w.made))
        (removal name b w)
removal-Post name true w h = record { ends = (_, refl, refl) }
removal-Post name false w h = record { ends = (w, refl, (refl, λ _. none_made name w.made h)) }

engine-IsEngine : IsEngine Holds engine
engine-IsEngine = record {
  create_lem = λ name body w k h. record {
    ends = (_, refl, ap (λ (x : Kept). record x { made = (name, body) ∷ x.made }) h);
  };
  start_lem = λ name w k h. record { ends = (k, h, refl) };
  inspect_lem = λ name w k h. record { ends = (k, h, refl) };
  remove_lem = λ name v w k h.
      subst
        (λ (x : Kept).
          Post Holds (λ _ k'. k' ≡ record x { made = unmade name x.made })
            (λ e k'.
              (k' ≡ x) × (is_not_found e ≡ true → All (λ c. text_eq c.0 name ≡ false) x.made))
            (removal name (is_made name w.made) w))
        h (removal-Post name _ w refl);
  create_network_lem = λ name w k h. record {
    ends = (_, refl, ap (λ (x : Kept). record x { networks = name ∷ x.networks }) h);
  };
  remove_network_lem = λ name w k h. record {
    ends = (
      _,
      refl,
      ap (λ (x : Kept). record x { networks = keep (λ n. not (text_eq n name)) x.networks }) h,
    );
  };
}

abbrev adapter : BollardContainerRuntime Kept
adapter = record { client = engine; kata_runtime_name = "kata"; describe = λ e. "refused" }

container_runtime-IsContainerRuntime_example :
    IsContainerRuntime (Runs "kata" Holds) (container_runtime adapter)
    × IsForgiving Holds adapter engine-IsEngine
container_runtime-IsContainerRuntime_example =
    container_runtime-IsContainerRuntime Holds adapter engine-IsEngine
