-- ===== src/Adapters/DockerBollard.antt =====
-- src/adapters/docker_bollard.rs. The client of the Docker Engine API is the `bollard` crate: a
-- parameter, `Engine`, with those fields of its models that the adapter sets or reads.
pub mod Status
pub mod Runtime
pub mod Engines
pub mod Answers
pub mod Refines
use Prim.Native.String.{◌++◌}
use app_salmon.Base.{
  ℕ, String, Option, none, some, List, [], ◌∷◌, map, Bool, true, false, ltb, ◌==◌, Result, ok, err,
  if◌then◌else◌,
}
use app_salmon.Base.Options
use app_salmon.Base.Int.{ℤ, pos, negsuc, leb_ℤ}
use app_salmon.Base.Action.{Action, ◌>>=◌, ◌>>◌, pure, lift, on_err}
use app_salmon.Base.Paths.{decimal}
use app_salmon.Errors.{
  Source, ContainerHandle, NetworkHandle, DockerError, connect, create_container, start_container,
  inspect_container, remove_container, create_network, remove_network,
}
use app_salmon.Containers.{
  Duration, HealthCheck, HealthState, no_check, starting, healthy, unhealthy, BindMount, OciRuntime,
  runc, kata, NetworkAttachment, PortPublish, unpublished, ephemeral, ContainerSpec,
  ContainerStatus, running, exited, missing, ContainerRuntime,
}
use mathlib.Core.Option

pub data BollardError : Type 0 where
  docker_response_server_error : (status_code : ℕ) (message : String) → BollardError
  other_error : (message : String) → BollardError

pub record PortBinding : Type 0 where
  pub host_ip : Option String
  pub host_port : Option String

pub record HealthConfig : Type 0 where
  pub test : Option (List String)
  pub interval : Option ℤ  -- i64
  pub timeout : Option ℤ
  pub retries : Option ℤ

pub record HostConfig : Type 0 where
  pub binds : Option (List String)
  pub port_bindings : Option (List (String × List PortBinding))
  pub runtime : Option String

pub record ContainerCreateBody : Type 0 where
  pub image : Option String
  pub env : Option (List String)
  pub labels : Option (List (String × String))
  pub exposed_ports : Option (List String)
  pub user : Option String
  pub cmd : Option (List String)
  pub healthcheck : Option HealthConfig
  -- The networks to join, each with the aliases there.
  pub endpoints : Option (List (String × List String))
  pub host_config : HostConfig

pub data HealthStatusEnum : Type 0 where
  empty none_status starting_status healthy_status unhealthy_status : HealthStatusEnum

-- What is read of a response; a port binding is its host port.
pub record ContainerState : Type 0 where
  pub is_running : Option Bool
  pub exit_code : Option ℤ  -- i64
  pub health_status : Option HealthStatusEnum

pub record ContainerInspectResponse : Type 0 where
  pub state : Option ContainerState
  pub host_ports : List (Option String)

pub record Engine (W : Type 0) : Type 0 where
  pub create_container : (name : String) → ContainerCreateBody → Action W BollardError (Unit {0})
  pub start_container : (name : String) → Action W BollardError (Unit {0})
  pub inspect_container : (name : String) → Action W BollardError ContainerInspectResponse
  pub remove_container : (name : String) (force v link : Bool) → Action W BollardError (Unit {0})
  pub create_network : (name : String) → Action W BollardError (Unit {0})
  pub remove_network : (name : String) → Action W BollardError (Unit {0})

unfoldable pub is_not_found : BollardError → Bool
is_not_found (docker_response_server_error status_code _) = status_code == 404
is_not_found (other_error _) = false

-- `i64::try_from(…).unwrap_or(i64::MAX)`.
nanos : Duration → ℤ
nanos duration = if ltb duration 9223372036854775808 then pos duration else pos 9223372036854775807

abbrev unless_empty : {A : Type 0} → List A → Option (List A)
unless_empty [] = none
unless_empty (x ∷ xs) = some (x ∷ xs)

port_bindings_for : PortPublish → String → Option (List (String × List PortBinding))
port_bindings_for unpublished proto = none
port_bindings_for ephemeral proto =
    some ((proto, record { host_ip = some "127.0.0.1"; host_port = none } ∷ []) ∷ [])

health_config : HealthCheck → HealthConfig
unfolding nanos
health_config health_check = record {
  test = some health_check.test;
  interval = some (nanos health_check.interval);
  timeout = some (nanos health_check.timeout);
  retries = some (pos health_check.retries);
}

runtime_name : String → OciRuntime → Option String
runtime_name kata_runtime_name runc = none
runtime_name kata_runtime_name kata = some kata_runtime_name

unfoldable pub container_create_body : ContainerSpec → String → ContainerCreateBody
unfolding port_bindings_for health_config runtime_name
container_create_body spec kata_runtime_name =
    let container_port_proto : String = decimal spec.container_port ++ "/tcp" in
    record {
      image = some spec.image;
      env = unless_empty (map (λ (e : String × String). e.0 ++ ("=" ++ e.1)) spec.env);
      labels = unless_empty spec.labels;
      exposed_ports = some (container_port_proto ∷ []);
      user = Option.map (λ (ids : ℕ × ℕ). decimal ids.0 ++ (":" ++ decimal ids.1)) spec.run_as;
      cmd = spec.command;
      healthcheck = Option.map health_config spec.health_check;
      endpoints =
          Option.map (λ (a : NetworkAttachment). (a.network_name, a.alias ∷ []) ∷ []) spec.network;
      host_config = record {
        binds =
            unless_empty
              (map (λ (m : BindMount). m.host_path ++ (":" ++ m.container_path)) spec.bind_mounts);
        port_bindings = port_bindings_for spec.port_publish container_port_proto;
        runtime = runtime_name kata_runtime_name spec.runtime;
      };
    }

unfoldable pub health_state_from : HealthStatusEnum → HealthState
health_state_from empty = no_check
health_state_from none_status = no_check
health_state_from starting_status = starting
health_state_from healthy_status = healthy
health_state_from unhealthy_status = unhealthy
