-- ===== src/Docker/Sdk.antt =====
-- What pkg/docker/client.go uses of the Docker SDK, the context and the clock, which are not the
-- repository's: a record of calls, each of which takes the state of the outside to the next. An error
-- is its text, and `none` is nil.
use aether_runner.Base.{String, Bool, Option, List, ◌⊎◌}
use aether_runner.Base.Int.{ℤ}
use aether_runner.Base.Clock.{Time}
use aether_runner.Base.Assoc.{Map}

-- What the client reads of the SDK's answers.
pub record NetworkSettings : Type 0 where
  pub ip_address : String
  pub networks : Map String

pub record Inspection : Type 0 where
  pub status : String
  pub started_at : String
  pub running : Bool
  pub exit_code : ℤ
  pub health : Option String
  pub network : Option NetworkSettings
  pub exposed_ports : List String

pub record Summary : Type 0 where
  pub id : String
  pub labels : Map String

-- What it sends.
pub record DeviceRequest : Type 0 where
  pub driver : String
  pub count : ℤ
  pub device_ids : List String
  pub capabilities : List (List String)

pub record ContainerConfig : Type 0 where
  pub image : String
  pub env : List String
  pub labels : Map String
  pub exposed_ports : List String

pub record HostConfig : Type 0 where
  pub network_mode : String
  pub memory : ℤ
  pub cpu_shares : ℤ
  pub device_requests : List DeviceRequest

-- `pause` is the `select` between the end of the context and a timer of 500 milliseconds.
pub record Sdk (W : Type 0) : Type 0 where
  pub ping : W → W × Option String
  pub image_inspect : W → String → W × Option String
  pub image_pull : W → String → W × Option String
  pub read_response : W → W × Option String
  pub container_create : W → ContainerConfig → HostConfig → W × (String ⊎ String)
  pub container_start : W → String → W × Option String
  pub container_stop : W → String → ℤ → W × Option String
  pub container_remove : W → String → Bool → Bool → W × Option String
  pub container_inspect : W → String → W × (String ⊎ Inspection)
  pub container_list : W → W × (String ⊎ List Summary)
  pub port_int : String → ℤ
  pub parse_nano : String → String ⊎ Time
  pub now : W → Time
  pub pause : W → W × Option String
