-- ===== src/Docker.antt =====
pub mod Labels
pub mod Sdk
pub mod Client
pub mod Mock
-- pkg/docker/client.go: the types that the API and its Docker client share, and the calls of the
-- client as an interface, which the simulated client of pkg/docker/mock_client.go has as well.
use aether_runner.Base.{
  ℕ, String, ◌==◌, Bool, true, false, Option, none, some, List, [], ◌∷◌, ◌⊎◌, if◌then◌else◌,
}
use aether_runner.Base.Int.{ℤ}
use aether_runner.Base.Clock.{Time, Duration}
use aether_runner.Base.Assoc.{Map, lookup}

pub record LaunchOptions : Type 0 where
  pub model_image : String
  pub gpu_count : ℤ
  pub gpu_device_ids : List String
  pub memory : ℤ
  pub cpu_shares : ℤ
  pub network_mode : String
  pub env : List String
  pub labels : Map String
  pub exposed_port : ℤ

pub record ContainerInfo : Type 0 where
  pub id : String
  pub ip_address : String
  pub port : ℤ
  pub status : String
  pub started_at : Time

-- Each call takes the state of the daemon to the next; an error is its text, and `none` is nil.
pub record Docker (W : Type 0) : Type 0 where
  pub pull_image : W → String → W × Option String
  pub launch_container : W → LaunchOptions → W × (String ⊎ ContainerInfo)
  pub wait_for_healthy : W → String → Duration → W × Option String
  pub terminate_container : W → String → W × Option String
  pub get_container_info : W → String → W × (String ⊎ ContainerInfo)
  pub ping : W → Option String

-- `container.Labels[key]`: a missing key reads as the empty text.
unfoldable pub label : Map String → String → String
label labels key = elim (lookup key labels) [ none ↦ "" | some value ↦ value ]

-- The loop over the filter; a nil filter is the empty one.
unfoldable pub matches : Map String → Map String → Bool
matches labels [] = true
matches labels ((key, value) ∷ filter) =
    let rest = matches labels filter in if label labels key == value then rest else false
