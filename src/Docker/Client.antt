-- ===== src/Docker/Client.antt =====
pub mod Daemon
pub mod Launch
pub mod Removal
pub mod Waiting
mod Tests
-- pkg/docker/client.go: the client of a Docker daemon.
-- It is a function of the SDK's calls. An error is its text, and `none` is nil.
use Prim.Native.String.{◌++◌ as ◌<>◌}
use aether_runner.Base.{
  ℕ, zero, suc, ◌+◌, ◌/◌, String, ◌==◌, Bool, true, false, not, ◌&&◌, ◌||◌, Option, none, some,
  List, [], ◌∷◌, ◌⊎◌, inl, inr, if◌then◌else◌,
}
use aether_runner.Base.Int.{ℤ, pos, negsuc, pos_part, eq_ℤ, ltb_ℤ}
use aether_runner.Base.Clock.{Time, Duration, time_add, before}
use aether_runner.Base.Decimal.{itoa}
use aether_runner.Base.Assoc.{Map}
use aether_runner.Docker.Sdk.{
  NetworkSettings, Inspection, Summary, DeviceRequest, ContainerConfig, HostConfig, Sdk,
}
use aether_runner.Docker.{Docker, LaunchOptions, ContainerInfo, matches}

-- "Set defaults"
unfoldable pub with_defaults : LaunchOptions → LaunchOptions
with_defaults opts = record opts {
  exposed_port = if eq_ℤ opts.exposed_port (pos 0) then pos 8000 else opts.exposed_port;
  network_mode = if opts.network_mode == "" then "bridge" else opts.network_mode;
}

unfoldable pub container_config : LaunchOptions → ContainerConfig
container_config opts = record {
  image = opts.model_image;
  env = opts.env;
  labels = opts.labels;
  exposed_ports = (itoa opts.exposed_port <> "/tcp") ∷ [];
}

-- "Configure GPU access": devices by name, all devices (-1), or a number of them.
unfoldable pub gpu_device_requests : ℤ → List String → List DeviceRequest
gpu_device_requests gpu_count (id ∷ ids) =
    record {
      driver = "nvidia";
      count = pos 0;
      device_ids = id ∷ ids;
      capabilities = ("gpu" ∷ []) ∷ [];
    }
    ∷ []
gpu_device_requests gpu_count [] =
    if eq_ℤ gpu_count (pos 0)
    then []
    else record {
      driver = "nvidia";
      count = gpu_count;
      device_ids = [];
      capabilities = ("gpu" ∷ []) ∷ [];
    }
      ∷ []

unfoldable pub host_config : LaunchOptions → HostConfig
host_config opts = record {
  network_mode = opts.network_mode;
  memory = opts.memory;
  cpu_shares = opts.cpu_shares;
  device_requests = gpu_device_requests opts.gpu_count opts.gpu_device_ids;
}

-- The loop over the networks, which stops at the first address.
unfoldable pub first_address : Map String → String → String
first_address [] found = found
first_address ((name, ip) ∷ networks) found =
    let rest = first_address networks found in if ip == "" then rest else ip

unfoldable pub address_of : Option NetworkSettings → String
address_of none = ""
address_of (some n) = first_address n.networks n.ip_address

-- The loop over the exposed ports, which stops at the first that is positive.
unfoldable pub first_port : (String → ℤ) → List String → ℤ
first_port port_int [] = pos 0
first_port port_int (p ∷ ports) =
    let rest = first_port port_int ports in if ltb_ℤ (pos 0) (port_int p) then port_int p else rest

unfoldable pub started_time : String ⊎ Time → Time
started_time (inl err) = 0
started_time (inr t) = t

unfoldable pub first_network : Map String → String ⊎ String
first_network [] = inl "container has no network settings"
first_network ((name, settings) ∷ networks) = inr settings

-- One round of `WaitForHealthy`: the answer to return, or `none` to wait and try again.
unfoldable pub health_answer : String ⊎ Inspection → Option (Option String)
health_answer (inl e) = some (some ("failed to inspect container: " <> e))
health_answer (inr i) =
    if not i.running
    then some (some ("container exited with code " <> itoa i.exit_code))
    else elim i.health [
      | none ↦ some none
      | some status ↦ if status == "healthy" then some none else none
    ]

module _ {W : Type 0} (sdk : Sdk W) where
  unfoldable pub ping : W → W × Option String
  ping w = sdk.ping w

  unfoldable pub pull_image : W → String → W × Option String
  pull_image w image_name =
      let (w₁, missing) = sdk.image_inspect w image_name in
      elim missing [
        | none ↦ (w₁, none)
        | some _ ↦
            let (w₂, err) = sdk.image_pull w₁ image_name in
            elim err [
              | some e ↦ (w₂, some ("failed to pull image " <> image_name <> ": " <> e))
              | none ↦
                  let (w₃, unread) = sdk.read_response w₂ in
                  elim unread [
                    | some e ↦ (w₃, some ("failed to read pull response: " <> e))
                    | none ↦ (w₃, none)
                  ]
            ]
      ]

  unfoldable pub info_of : String → Inspection → ContainerInfo
  info_of container_id i = record {
    id = container_id;
    ip_address = address_of i.network;
    port = first_port sdk.port_int i.exposed_ports;
    status = i.status;
    started_at = if i.started_at == "" then 0 else started_time (sdk.parse_nano i.started_at);
  }

  unfoldable pub get_container_info : W → String → W × (String ⊎ ContainerInfo)
  get_container_info w container_id =
      let (w', answer) = sdk.container_inspect w container_id in
      elim answer [
        | inl e ↦ (w', inl ("failed to inspect container: " <> e))
        | inr i ↦ (w', inr (info_of container_id i))
      ]

  -- `LaunchContainer` from the container that was created on.
  unfoldable pub start_container : W → String → W × (String ⊎ ContainerInfo)
  start_container w id =
      let (w₁, err) = sdk.container_start w id in
      elim err [
        | some e ↦
            ((sdk.container_remove w₁ id true false).0, inl ("failed to start container: " <> e))
        | none ↦
            let (w₂, answer) = get_container_info w₁ id in
            elim answer [
              | inl e ↦ (w₂, inl ("failed to get container info: " <> e))
              | inr info ↦ (w₂, inr info)
            ]
      ]

  unfoldable pub launch_container : W → LaunchOptions → W × (String ⊎ ContainerInfo)
  launch_container w opts =
      if opts.model_image == ""
      then (w, inl "model_image is required")
      else let o = with_defaults opts in
        let (w₁, created) = sdk.container_create w (container_config o) (host_config o) in
        elim created [
          | inl e ↦ (w₁, inl ("failed to create container: " <> e))
          | inr id ↦ start_container w₁ id
        ]

  unfoldable pub stop_container : W → String → ℤ → W × Option String
  stop_container w container_id timeout = sdk.container_stop w container_id timeout

  unfoldable pub remove_container : W → String → Bool → W × Option String
  remove_container w container_id force = sdk.container_remove w container_id force true

  unfoldable pub terminate_container : W → String → W × Option String
  terminate_container w container_id =
      let (w', err) = stop_container w container_id (pos 10) in
      elim err [
        | some e ↦ remove_container w' container_id true
        | none ↦ remove_container w' container_id false
      ]

  -- The loop of `ListGPUContainers`; one that cannot be inspected is left out.
  unfoldable pub list_summaries : W → List Summary → Map String → W × List ContainerInfo
  list_summaries w [] filter = (w, [])
  list_summaries w (c ∷ cs) filter =
      if matches c.labels filter
      then (let (w₁, answer) = get_container_info w c.id in
          let (w₂, infos) = list_summaries w₁ cs filter in
          (w₂, elim answer [ inl e ↦ infos | inr info ↦ info ∷ infos ]))
      else list_summaries w cs filter

  unfoldable pub list_gpu_containers : W → Map String → W × (String ⊎ List ContainerInfo)
  list_gpu_containers w filter =
      let (w₁, answer) = sdk.container_list w in
      elim answer [
        | inl e ↦ (w₁, inl ("failed to list containers: " <> e))
        | inr cs ↦ let (w₂, infos) = list_summaries w₁ cs filter in (w₂, inr infos)
      ]

  -- The loop, for so many rounds at most; `none`: it is still at it.
  unfoldable pub wait_loop : ℕ → Time → W → String → W × Option (Option String)
  wait_loop zero deadline w container_id = (w, none)
  wait_loop (suc rounds) deadline w container_id =
      if before (sdk.now w) deadline
      then (let (w₁, answer) = sdk.container_inspect w container_id in
          elim (health_answer answer) [
            | some result ↦ (w₁, some result)
            | none ↦
                let (w₂, over) = sdk.pause w₁ in
                elim over [
                  | some e ↦ (w₂, some (some e))
                  | none ↦ wait_loop rounds deadline w₂ container_id
                ]
          ])
      else (w, some (some "timeout waiting for container to become healthy"))

  -- A round for every half second, one for the last part of one, and one that meets the deadline.
  abbrev pub rounds_for : Duration → ℕ
  rounds_for timeout = suc (suc (pos_part timeout / 500000000))

  unfoldable pub wait_for_healthy : W → String → Duration → W × Option (Option String)
  wait_for_healthy w container_id timeout =
      wait_loop (rounds_for timeout) (time_add (sdk.now w) timeout) w container_id

  -- The first network that the map's order gives; of its settings the address is kept.
  -- `none`: there are no network settings, and the code reads a field of nil.
  unfoldable pub network_info : W → String → W × Option (String ⊎ String)
  network_info w container_id =
      let (w', answer) = sdk.container_inspect w container_id in
      elim answer [
        | inl e ↦ (w', some (inl ("failed to inspect container: " <> e)))
        | inr i ↦ (w', elim i.network [ none ↦ none | some n ↦ some (first_network n.networks) ])
      ]
