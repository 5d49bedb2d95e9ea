-- ===== src/Containers.antt =====
-- src/ports/container_runtime.rs: the containers that the backends ask for, and the port that makes
-- them. A `Duration` is a number of nanoseconds.
pub mod Contract
use app_salmon.Base.{ℕ, ◌*◌, ◌/◌, String, Option, List}
use app_salmon.Base.Int.{ℤ}
use app_salmon.Base.Action.{Action}
use app_salmon.Errors.{ContainerHandle, NetworkHandle, DockerError}

abbrev pub Duration : Type 0
Duration = ℕ

abbrev pub from_secs : ℕ → Duration
from_secs n = n * 1000000000

abbrev pub from_millis : ℕ → Duration
from_millis n = n * 1000000

abbrev pub as_secs : Duration → ℕ
as_secs d = d / 1000000000

pub record HealthCheck : Type 0 where
  pub test : List String
  pub interval : Duration
  pub timeout : Duration
  pub retries : ℕ  -- u32

pub data HealthState : Type 0 where
  no_check starting healthy unhealthy : HealthState

pub record BindMount : Type 0 where
  pub host_path : String
  pub container_path : String

pub data OciRuntime : Type 0 where
  runc kata : OciRuntime

pub record NetworkAttachment : Type 0 where
  pub network_name : NetworkHandle
  pub alias : String

pub data PortPublish : Type 0 where
  unpublished ephemeral : PortPublish

pub record ContainerSpec : Type 0 where
  pub name : String
  pub image : String
  pub env : List (String × String)
  pub labels : List (String × String)
  pub port_publish : PortPublish
  pub container_port : ℕ  -- u16
  pub bind_mounts : List BindMount
  pub run_as : Option (ℕ × ℕ)
  pub health_check : Option HealthCheck
  pub runtime : OciRuntime
  pub network : Option NetworkAttachment
  pub command : Option (List String)

pub data ContainerStatus : Type 0 where
  running : (published_port : Option ℕ) (health : Option HealthState) → ContainerStatus
  exited : (exit_code : ℤ) → ContainerStatus
  missing : ContainerStatus

pub record ContainerRuntime (W : Type 0) : Type 0 where
  pub create_and_start : ContainerSpec → Action W DockerError ContainerHandle
  pub inspect : ContainerHandle → Action W DockerError ContainerStatus
  pub stop_and_remove : ContainerHandle → Action W DockerError (Unit {0})
  pub create_network : String → Action W DockerError NetworkHandle
  pub remove_network : NetworkHandle → Action W DockerError (Unit {0})
