-- ===== src/Adapters/DockerBollard/Answers.antt =====
-- src/adapters/docker_bollard.rs: how the adapter passes on what the engine answers. A 404 says that
-- what was asked about is not there.
use app_salmon.Base.{
  ℕ, String, true, false, ◌≡◌, ◌==◌, ==_iff, ◌⊎◌, inl, inr, refl, ap, sym, subst, Bool-cases,
  Result, ok, err, if◌then◌else◌, arith,
}
use app_salmon.Errors.{DockerError}
use app_salmon.Containers.{missing}
use app_salmon.Adapters.DockerBollard.{
  BollardError, docker_response_server_error, other_error, is_not_found, ContainerInspectResponse,
}
use app_salmon.Adapters.DockerBollard.Runtime.{unless_gone, inspected}
use app_salmon.Adapters.DockerBollard.Status.{container_status_from_response}

-- The engine's answer and the adapter's: a 404 becomes the answer for what is absent, and any other
-- error is reported.
pub data Answers {A B : Type 0} (read : A → B) (absent : B) (failed : BollardError → DockerError)
    : Result BollardError A → Result DockerError B → Type 0 where
  told : (a : A) → Answers read absent failed (ok a) (ok (read a))
  gone :
      (message : String)
      → Answers read absent failed (err (docker_response_server_error 404 message)) (ok absent)
  refused :
      (e : BollardError)
      → ¬ ((message : String) × (e ≡ docker_response_server_error 404 message))
      → Answers read absent failed (err e) (err (failed e))

status_of : BollardError → ℕ
status_of (docker_response_server_error status_code _) = status_code
status_of (other_error _) = 0

not_found-cases :
    (e : BollardError)
    → ((is_not_found e ≡ true)
        × ((message : String) × (e ≡ docker_response_server_error 404 message)))
      ⊎ ((is_not_found e ≡ false)
          × (¬ ((message : String) × (e ≡ docker_response_server_error 404 message))))
unfolding is_not_found status_of
not_found-cases (other_error m) =
    inr
      (refl, λ (message, same). let no_status : 0 ≡ 404 = ap status_of same in absurd (omega arith))
not_found-cases (docker_response_server_error code m) = elim (Bool-cases (code == 404)) [
  | inl found ↦
      inl (found, (m, ap (λ c. docker_response_server_error c m) ((==_iff code 404).0 found)))
  | inr other ↦
      inr (other, λ (message, same). let code_is : code ≡ 404 = ap status_of same in ground arith)
]

module _ {A B : Type 0} (read : A → B) (absent : B) (failed : BollardError → DockerError) where
  either_error :
      (e : BollardError)
      → Answers read absent failed (err e) (if is_not_found e then ok absent else err (failed e))
  either_error e = elim (not_found-cases e) [
    | inl (found, (message, same)) ↦
        rw (found)
          (subst (λ x. Answers read absent failed (err x) (ok absent)) (sym same) (gone message))
    | inr (other, never) ↦ rw (other) (refused e never)
  ]

module _ (failed : BollardError → DockerError) where
  pub unless_gone-Answers :
      (r : Result BollardError (Unit {0}))
      → Answers (λ (u : Unit {0}). u) tt failed r (unless_gone failed r)
  unfolding unless_gone
  unless_gone-Answers (ok tt) = told tt
  unless_gone-Answers (err e) = either_error (λ (u : Unit {0}). u) tt failed e

  pub inspected-Answers :
      (r : Result BollardError ContainerInspectResponse)
      → Answers container_status_from_response missing failed r (inspected failed r)
  unfolding inspected
  inspected-Answers (ok response) = told response
  inspected-Answers (err e) = either_error container_status_from_response missing failed e
