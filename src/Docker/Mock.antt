-- ===== src/Docker/Mock.antt =====
pub mod Containers
mod Tests
-- pkg/docker/mock_client.go: the simulated Docker client, a map of containers.
-- A context is the time that it has left, with the way that Go takes where that and a delay run out
-- together. The twelve characters of a new UUID are an argument.
use Prim.Native.String.{◌++◌ as ◌<>◌}
use aether_runner.Base.{
  ℕ, zero, suc, ◌+◌, ◌/◌, ◌%◌, String, ◌==◌, Bool, true, false, ◌&&◌, ◌||◌, Option, none, some,
  List, [], ◌∷◌, length, ◌⊎◌, inl, inr, if◌then◌else◌, ltb,
}
use aether_runner.Base.Int.{ℤ, pos, ltb_ℤ, eq_ℤ}
use aether_runner.Base.Clock.{Time, Duration}
use aether_runner.Base.Decimal.{itoa}
use aether_runner.Base.Assoc.{Map, lookup, insert, delete}
use aether_runner.Docker.{matches, Docker, LaunchOptions, ContainerInfo}

pub record MockContainer : Type 0 where
  pub id : String
  pub image : String
  pub status : String
  pub ip_address : String
  pub port : ℤ
  pub started_at : Time
  pub labels : Map String
  pub gpu_count : ℤ

pub record MockClient : Type 0 where
  pub containers : Map MockContainer
  pub pull_delay : Duration
  pub start_delay : Duration
  pub fail_pull : Bool
  pub fail_start : Bool

unfoldable pub new_mock_client_with_delays : Duration → Duration → MockClient
new_mock_client_with_delays pull_delay start_delay = record {
  containers = [];
  pull_delay = pull_delay;
  start_delay = start_delay;
  fail_pull = false;
  fail_start = false;
}

-- 100 and 200 milliseconds.
unfoldable pub new_mock_client : MockClient
unfolding new_mock_client_with_delays
new_mock_client = new_mock_client_with_delays (pos 100000000) (pos 200000000)

pub record Context : Type 0 where
  pub left : Duration
  pub ends_first : Bool

-- `select` on the context and a timer: the context's error if it ends first. Where both are ready Go
-- may take either, and the context says which.
unfoldable pub wait_on : Context → Duration → Option String
wait_on ctx delay =
    if ltb_ℤ ctx.left delay || (eq_ℤ ctx.left delay && ctx.ends_first)
    then some "context deadline exceeded"
    else none

unfoldable pub pull_image : Context → MockClient → String → Option String
pull_image ctx c image_name =
    if c.fail_pull
    then some ("simulated pull failure for " <> image_name)
    else wait_on ctx c.pull_delay

unfoldable pub info_of : MockContainer → ContainerInfo
info_of c = record {
  id = c.id;
  ip_address = c.ip_address;
  port = c.port;
  status = c.status;
  started_at = c.started_at;
}

-- The container that a launch makes.
unfoldable pub new_container : Time → String → MockClient → LaunchOptions → MockContainer
new_container now container_id c opts = record {
  id = container_id;
  image = opts.model_image;
  status = "running";
  ip_address = "172.17.0." <> itoa (pos (length c.containers + 2));
  port = if eq_ℤ opts.exposed_port (pos 0) then pos 8000 else opts.exposed_port;
  started_at = now;
  labels = opts.labels;
  gpu_count = opts.gpu_count;
}

unfoldable pub launch_container :
    Context → Time → String → MockClient → LaunchOptions → MockClient × (String ⊎ ContainerInfo)
launch_container ctx now container_id c opts =
    if c.fail_start
    then (c, inl ("simulated start failure for " <> opts.model_image))
    else elim (wait_on ctx c.start_delay) [
      | some err ↦ (c, inl err)
      | none ↦
          let container = new_container now container_id c opts in
          (
            record c { containers = insert container_id container c.containers },
            inr (info_of container),
          )
    ]

abbrev pub not_found : String → String
not_found container_id = "container " <> container_id <> " not found"

unfoldable pub get_container_info : MockClient → String → String ⊎ ContainerInfo
get_container_info c container_id = elim (lookup container_id c.containers) [
  | none ↦ inl (not_found container_id)
  | some container ↦ inr (info_of container)
]

unfoldable pub stop_container : MockClient → String → MockClient × Option String
stop_container c container_id = elim (lookup container_id c.containers) [
  | none ↦ (c, some (not_found container_id))
  | some container ↦ (
    record c {
      containers = insert container_id (record container { status = "exited" }) c.containers;
    },
    none,
  )
]

unfoldable pub remove_container : MockClient → String → MockClient × Option String
remove_container c container_id = (record c { containers = delete container_id c.containers }, none)

-- The error of the stop is not looked at.
unfoldable pub terminate_container : MockClient → String → MockClient × Option String
terminate_container c container_id = remove_container (stop_container c container_id).0 container_id

unfoldable pub wait_for_healthy : Context → MockClient → String → Option String
wait_for_healthy ctx c container_id = elim (lookup container_id c.containers) [
  | none ↦ some (not_found container_id)
  | some container ↦ wait_on ctx (pos 50000000)
]

-- The loop of `ListGPUContainers`.
unfoldable pub list_gpu_containers : Map MockContainer → Map String → List ContainerInfo
list_gpu_containers [] filter = []
list_gpu_containers ((id, container) ∷ containers) filter =
    let rest = list_gpu_containers containers filter in
    if matches container.labels filter then info_of container ∷ rest else rest

unfoldable pub get_container_count : MockClient → ℕ
get_container_count c = length c.containers

unfoldable pub get_container : MockClient → String → Option MockContainer
get_container c container_id = lookup container_id c.containers

-- The simulated client behind the interface, with a supply of IDs: `now` for all its readings of the
-- clock, and one context for all calls.
abbrev pub mock_docker : (ℕ → String) → Time → Context → Docker (MockClient × ℕ)
mock_docker ids now ctx = record {
  pull_image = λ (c, n) image. ((c, n), pull_image ctx c image);
  launch_container = λ (c, n) opts.
      let (c', result) = launch_container ctx now (ids n) c opts in ((c', suc n), result);
  wait_for_healthy = λ (c, n) id timeout. ((c, n), wait_for_healthy ctx c id);
  terminate_container = λ (c, n) id. let (c', err) = terminate_container c id in ((c', n), err);
  get_container_info = λ (c, n) id. ((c, n), get_container_info c id);
  ping = λ c. none;
}
