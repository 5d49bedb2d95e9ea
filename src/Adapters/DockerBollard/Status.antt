-- ===== src/Adapters/DockerBollard/Status.antt =====
-- src/adapters/docker_bollard.rs: what an inspect response says of a container.
use app_salmon.Base.{ℕ, String, Option, none, some, List, [], ◌∷◌, false, ◌&&◌, if◌then◌else◌}
use app_salmon.Base.Digits.{parse_below}
use app_salmon.Base.Options.{◌>>=◌}
use app_salmon.Base.Int.{ℤ, pos, negsuc, leb_ℤ}
use app_salmon.Containers.{ContainerStatus, running, exited}
use app_salmon.Adapters.DockerBollard.{ContainerInspectResponse, health_state_from}
use mathlib.Core.Option

abbrev parse_u16 : String → Option ℕ
parse_u16 s = parse_below 65536 s

-- `i32::try_from(code).ok()`.
to_i32 : ℤ → Option ℤ
to_i32 value =
    if leb_ℤ (negsuc 2147483647) value && leb_ℤ value (pos 2147483647) then some value else none

abbrev first_of : List (Option String) → Option String
first_of [] = none
first_of (host_port ∷ rest) = host_port

abbrev or_default : {A : Type 0} → A → Option A → A
or_default a none = a
or_default a (some b) = b

unfoldable pub container_status_from_response : ContainerInspectResponse → ContainerStatus
unfolding to_i32 health_state_from
container_status_from_response response =
    if or_default false (response.state >>= λ s. s.is_running)
    then running (first_of response.host_ports >>= parse_u16)
        (Option.map health_state_from (response.state >>= λ s. s.health_status))
    else exited (or_default (negsuc 0) (response.state >>= λ s. s.exit_code >>= to_i32))
