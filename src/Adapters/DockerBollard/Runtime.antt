-- ===== src/Adapters/DockerBollard/Runtime.antt =====
-- src/adapters/docker_bollard.rs: `BollardContainerRuntime`.
use app_salmon.Base.{String, true, false, Result, ok, err, if◌then◌else◌}
use app_salmon.Base.Action.{Action, ◌>>◌, pure, on_err}
use app_salmon.Errors.{
  Source, ContainerHandle, NetworkHandle, DockerError, create_container, start_container,
  inspect_container, remove_container, create_network, remove_network,
}
use app_salmon.Containers.{ContainerSpec, ContainerStatus, missing, ContainerRuntime}
use app_salmon.Adapters.DockerBollard.{
  BollardError, Engine, ContainerInspectResponse, is_not_found, container_create_body,
}
use app_salmon.Adapters.DockerBollard.Status.{container_status_from_response}

-- `describe` prints the source of an error.
pub record BollardContainerRuntime (W : Type 0) : Type 0 where
  pub client : Engine W
  pub kata_runtime_name : String
  pub describe : BollardError → Source

-- `Ok(()) => Ok(())`, `Err(source) if is_not_found(&source) => Ok(())`, `Err(source) => Err(…)`.
unfoldable pub unless_gone :
    (BollardError → DockerError) → Result BollardError (Unit {0}) → Result DockerError (Unit {0})
unless_gone failed (ok tt) = ok tt
unless_gone failed (err source) = if is_not_found source then ok tt else err (failed source)

unfoldable pub inspected :
    (BollardError → DockerError)
    → Result BollardError ContainerInspectResponse
    → Result DockerError ContainerStatus
inspected failed (ok response) = ok (container_status_from_response response)
inspected failed (err source) = if is_not_found source then ok missing else err (failed source)

module _ {W : Type 0} (self : BollardContainerRuntime W) where
  unfoldable pub create_and_start : ContainerSpec → Action W DockerError ContainerHandle
  create_and_start spec = do
    on_err (λ e. create_container (self.describe e))
        (self.client.create_container spec.name (container_create_body spec self.kata_runtime_name))
    on_err (λ e. start_container spec.name (self.describe e))
        (self.client.start_container spec.name)
    pure spec.name

  unfoldable pub inspect : ContainerHandle → Action W DockerError ContainerStatus
  inspect handle w =
      let (r, w') = self.client.inspect_container handle w in
      (inspected (λ e. inspect_container handle (self.describe e)) r, w')

  unfoldable pub stop_and_remove : ContainerHandle → Action W DockerError (Unit {0})
  stop_and_remove handle w =
      let (r, w') = self.client.remove_container handle true true false w in
      (unless_gone (λ e. remove_container handle (self.describe e)) r, w')

  unfoldable pub add_network : String → Action W DockerError NetworkHandle
  add_network name = do
    on_err (λ e. create_network name (self.describe e)) (self.client.create_network name)
    pure name

  unfoldable pub drop_network : NetworkHandle → Action W DockerError (Unit {0})
  drop_network handle w =
      let (r, w') = self.client.remove_network handle w in
      (unless_gone (λ e. remove_network handle (self.describe e)) r, w')

  unfoldable pub container_runtime : ContainerRuntime W
  container_runtime = record {
    create_and_start = create_and_start;
    inspect = inspect;
    stop_and_remove = stop_and_remove;
    create_network = add_network;
    remove_network = drop_network;
  }
