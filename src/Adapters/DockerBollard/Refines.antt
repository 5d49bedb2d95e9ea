-- ===== src/Adapters/DockerBollard/Refines.antt =====
-- src/adapters/docker_bollard.rs: what the backends rely on of the port follows from what the Docker
-- Engine API documents of its requests.
use app_salmon.Base.{
  ◌≡◌, ◌⊎◌, inl, inr, refl, sym, ap, ◌∙◌, subst, String, ◌∷◌, Bool, true, false, text_eq, Result,
  ok, err, if◌then◌else◌,
}
use app_salmon.Base.Post.{Post, Ends, bind-Post, on_err-Post, review}
use app_salmon.Errors.{
  ContainerHandle, NetworkHandle, DockerError, inspect_container, remove_container, remove_network,
}
use app_salmon.Containers.{ContainerSpec, missing}
use app_salmon.Containers.Contract.{
  Docker, without, without_network, with_container, IsContainerRuntime,
}
use app_salmon.Adapters.DockerBollard.{BollardError, is_not_found}
use app_salmon.Adapters.DockerBollard.Runtime
use app_salmon.Adapters.DockerBollard.Runtime.{
  BollardContainerRuntime, unless_gone, inspected, container_runtime, create_and_start, inspect,
  stop_and_remove, add_network, drop_network,
}
use app_salmon.Adapters.DockerBollard.Status.{container_status_from_response}
use app_salmon.Adapters.DockerBollard.Answers.{Answers, unless_gone-Answers, inspected-Answers}
use app_salmon.Adapters.DockerBollard.Engines.{
  Kept, IsEngine, keep-All, All-map_inv, entry, kept_of, Runs, unmade-kept,
}

module _ {W : Type 0} (Holds : W → Kept → Type 0) (self : BollardContainerRuntime W)
    (laws : IsEngine Holds self.client) where
  abbrev Sees : W → Docker → Type 0
  Sees = Runs self.kata_runtime_name Holds

  module _ {A B : Type 0} {Q : A → Kept → Type 0} {R : BollardError → Kept → Type 0}
      {Q' : B → Docker → Type 0} {R' : DockerError → Docker → Type 0} where
    answer-Post :
        (f : Result BollardError A → Result DockerError B) (p : Result BollardError A × W)
        → ((a : A) (w : W) (k : Kept) → Holds w k → Q a k → Ends Sees Q' R' (f (ok a), w))
        → ((e : BollardError) (w : W) (k : Kept)
            → Holds w k
            → R e k
            → Ends Sees Q' R' (f (err e), w))
        → Post Holds Q R p
        → Post Sees Q' R' (f p.0, p.1)
    answer-Post f (ok a, w) g i h = let (k, holds, q) = h.ends in record { ends = g a w k holds q }
    answer-Post f (err e, w) g i h = let (k, holds, r) = h.ends in record { ends = i e w k holds r }

  Ends-if :
      {B : Type 0} (Q : B → Docker → Type 0) (R : DockerError → Docker → Type 0) (b : Bool)
      (x y : Result DockerError B) (w : W)
      → (b ≡ true → Ends Sees Q R (x, w))
      → Ends Sees Q R (y, w)
      → Ends Sees Q R ((if b then x else y), w)
  Ends-if Q R true x y w f g = f refl
  Ends-if Q R false x y w f g = g

  keeps :
      {A E : Type 0} (p : Result E A × W) (w : W) (d : Docker)
      → Post Holds
          (λ _ k. k ≡ kept_of self.kata_runtime_name d)
          (λ _ k. k ≡ kept_of self.kata_runtime_name d)
          p
      → Post Sees (λ _ d'. d' ≡ d) (λ _ d'. d' ≡ d) p
  keeps p w d h =
      review p (λ a w' k holds same. (d, subst (Holds w') same holds, refl))
        (λ a w' k holds same. (d, subst (Holds w') same holds, refl)) h

  create-Post :
      (spec : ContainerSpec) (w : W) (d : Docker)
      → Sees w d
      → Post Sees
          (λ h d'. (h ≡ spec.name) × (d' ≡ with_container spec d))
          (λ _ d'. (d' ≡ d) ⊎ (d' ≡ with_container spec d))
          (Runtime.create_and_start self spec w)
  unfolding create_and_start
  create-Post spec w d k =
      bind-Post _ _
        (λ r w1 d1 k1 same.
          bind-Post _ _ (λ r' w2 d2 k2 same'. record { ends = (d2, k2, (refl, same' ∙ same)) })
            (λ e d' same'. inr (same' ∙ same))
            (on_err-Post _ (self.client.start_container spec.name) w1 (λ e s r'. r')
              (keeps _ w1 d1 (laws.start_lem spec.name w1 _ k1))))
        (λ e d' same. inl same)
        (on_err-Post _ (self.client.create_container spec.name _) w (λ e s r. r)
          (review _ (λ a w' k' holds same. (_, subst (Holds w') same holds, refl))
            (λ a w' k' holds same. (d, subst (Holds w') same holds, refl))
            (laws.create_lem spec.name _ w _ k)))

  inspect-Post :
      (h : ContainerHandle) (w : W) (d : Docker)
      → Sees w d
      → Post Sees (λ _ d'. d' ≡ d) (λ _ d'. d' ≡ d) (Runtime.inspect self h w)
  unfolding inspect inspected
  inspect-Post h w d k =
      answer-Post (inspected (λ e. inspect_container h (self.describe e))) _
        (λ r w' k' holds same. (d, subst (Holds w') same holds, refl))
        (λ e w' k' holds same.
          Ends-if _ _ (is_not_found e) _ _ w' (λ _. (d, subst (Holds w') same holds, refl))
            (d, subst (Holds w') same holds, refl))
        (laws.inspect_lem h w _ k)

  remove-Post :
      (h : ContainerHandle) (w : W) (d : Docker)
      → Sees w d
      → Post Sees
          (λ _ d'. d' ≡ record d { containers = without h d.containers })
          (λ _ d'. d' ≡ d)
          (Runtime.stop_and_remove self h w)
  unfolding stop_and_remove unless_gone
  remove-Post h w d k =
      answer-Post (unless_gone (λ e. remove_container h (self.describe e))) _
        (λ r w' k' holds same.
          (_, subst (Holds w') (same ∙ sym (unmade-kept self.kata_runtime_name h d)) holds, refl))
        (λ e w' k' holds same.
          Ends-if _ _ (is_not_found e) _ _ w'
            (λ gone. (
              d,
              subst (Holds w') same.0 holds,
              ap (λ cs. record d { containers = cs })
                  (sym (
                    keep-All (λ (c : ContainerSpec). text_eq c.name h) d.containers
                      (All-map_inv (entry self.kata_runtime_name) (λ c. text_eq c.0 h ≡ false)
                        d.containers (same.1 gone)))),
            ))
            (d, subst (Holds w') same.0 holds, refl))
        (laws.remove_lem h true w _ k)

  network-Post :
      (name : String) (w : W) (d : Docker)
      → Sees w d
      → Post Sees
          (λ h d'. (h ≡ name) × (d' ≡ record d { networks = name ∷ d.networks }))
          (λ _ d'. d' ≡ d)
          (Runtime.add_network self name w)
  unfolding add_network
  network-Post name w d k =
      bind-Post _ _ (λ r w1 d1 k1 same. record { ends = (d1, k1, (refl, same)) }) (λ e d' r. r)
        (on_err-Post _ (self.client.create_network name) w (λ e s r. r)
          (review _ (λ a w' k' holds same. (_, subst (Holds w') same holds, refl))
            (λ a w' k' holds same. (d, subst (Holds w') same holds, refl))
            (laws.create_network_lem name w _ k)))

  drop-Post :
      (h : String) (w : W) (d : Docker)
      → Sees w d
      → Post Sees
          (λ _ d'. d' ≡ record d { networks = without_network h d.networks })
          (λ _ d'. d' ≡ d)
          (Runtime.drop_network self h w)
  unfolding drop_network unless_gone
  drop-Post h w d k =
      answer-Post (unless_gone (λ e. remove_network h (self.describe e))) _
        (λ r w' k' holds same. (_, subst (Holds w') same holds, refl))
        (λ e w' k' holds same.
          Ends-if _ _ (is_not_found e) _ _ w'
            (λ gone. (
              d,
              subst (Holds w') same.0 holds,
              ap (λ ns. record d { networks = ns })
                  (sym (keep-All (λ n. text_eq n h) d.networks (same.1 gone))),
            ))
            (d, subst (Holds w') same.0 holds, refl))
        (laws.remove_network_lem h w _ k)

  -- The adapter's answers to an inspection and to the two removals, beside the engine's.
  abbrev pub IsForgiving : Type 0
  IsForgiving =
      ((h : ContainerHandle) (w : W)
        → Answers container_status_from_response missing
            (λ e. inspect_container h (self.describe e)) (self.client.inspect_container h w).0
            ((container_runtime self).inspect h w).0)
      × ((h : ContainerHandle) (w : W)
          → Answers (λ (u : Unit {0}). u) tt (λ e. remove_container h (self.describe e))
              (self.client.remove_container h true true false w).0
              ((container_runtime self).stop_and_remove h w).0)
      × ((h : NetworkHandle) (w : W)
          → Answers (λ (u : Unit {0}). u) tt (λ e. remove_network h (self.describe e))
              (self.client.remove_network h w).0 ((container_runtime self).remove_network h w).0)

  -- If the Docker Engine, seen as the containers that were made with their names and bodies and as
  -- the names of the networks, does as it documents, then the adapter is the container runtime that
  -- the backends rely on: a container made is one made from the body of its specification, a name
  -- that was handed out removes it, and a failed request has done nothing but, where only the start
  -- failed, make the container. To a removal or an inspection an answer of 404 is no error: the removal
  -- succeeds and the inspection reports the container missing; every other error is passed on.
  pub container_runtime-IsContainerRuntime :
      IsContainerRuntime Sees (container_runtime self) × IsForgiving
  unfolding container_runtime inspect stop_and_remove drop_network
  container_runtime-IsContainerRuntime = (
    record {
      create_lem = create-Post;
      inspect_lem = inspect-Post;
      remove_lem = remove-Post;
      create_network_lem = network-Post;
      remove_network_lem = drop-Post;
    },
    (
      λ h w. inspected-Answers _ (self.client.inspect_container h w).0,
      λ h w. unless_gone-Answers _ (self.client.remove_container h true true false w).0,
      λ h w. unless_gone-Answers _ (self.client.remove_network h w).0,
    ),
  )
