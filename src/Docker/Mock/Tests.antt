-- ===== src/Docker/Mock/Tests.antt =====
-- A client with one container, another that is launched beside it, and the theorems there.
use aether_runner.Base.{◌≡◌, refl, ◌≢◌, inl, inr, String, true, false, none, [], ◌∷◌, arith}
use aether_runner.Base.Int.{pos}
use aether_runner.Base.Assoc.{Map}
use aether_runner.Docker.{LaunchOptions, ContainerInfo}
use aether_runner.Docker.Mock.{
  MockClient, MockContainer, launch_container, get_container_info, get_container,
  terminate_container, not_found, Context,
}
use aether_runner.Docker.Mock.Containers.{Launched, launch_container-terminate_container}

abbrev old : MockContainer
old = record {
  id = "c-0";
  image = "llama";
  status = "running";
  ip_address = "172.17.0.2";
  port = pos 8000;
  started_at = 1000;
  labels = ("aether.tenant_id", "acme") ∷ [];
  gpu_count = pos 0;
}

abbrev client : MockClient
client = record {
  containers = ("c-0", old) ∷ [];
  pull_delay = pos 100000000;
  start_delay = pos 200000000;
  fail_pull = false;
  fail_start = false;
}

abbrev options : LaunchOptions
options = record {
  model_image = "phi";
  gpu_count = pos 0;
  gpu_device_ids = "GPU-0" ∷ [];
  memory = pos 0;
  cpu_shares = pos 0;
  network_mode = "";
  env = [];
  labels = [];
  exposed_port = pos 0;
}

abbrev one_second : Context
one_second = record { left = pos 1000000000; ends_first = true }

launch_container-terminate_container_example :
    let (c', launched) = launch_container one_second 5000 "c-1" client options in
    let (c'', ended) = terminate_container c' "c-1" in
    ((info : ContainerInfo) × (launched ≡ inr info)
      × Launched "c-1" 5000 client options info
      × (get_container_info c' "c-1" ≡ inr info))
    × ((k : String) → "c-1" ≢ k → get_container c' k ≡ get_container client k)
    × (ended ≡ none)
    × (get_container_info c'' "c-1" ≡ inl (not_found "c-1"))
    × ((k : String) → "c-1" ≢ k → get_container c'' k ≡ get_container client k)
launch_container-terminate_container_example =
    launch_container-terminate_container one_second 5000 "c-1" client options refl (omega arith)

abbrev of_acme : Map String
of_acme = ("aether.tenant_id", "acme") ∷ []
