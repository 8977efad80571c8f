-- ===== src/Docker/Client/Tests.antt =====
-- A daemon to run the client of pkg/docker/client.go on, and examples.
use aether_runner.Base.{
  ◌≡◌, ◌≢◌, refl, ℕ, ◌+◌, inl, inr, String, ◌==◌, Bool, true, false, not, ◌&&◌, ◌||◌, Option, none,
  some, List, [], ◌∷◌, ◌⊎◌, arith, if◌then◌else◌, ltb, eq_iff, ap, ◌↔◌, ◌≤◌, sym, ◌∙◌,
}
use aether_runner.Base.Int.{pos}
use aether_runner.Base.Clock.{time_add}
use aether_runner.Docker.{LaunchOptions, ContainerInfo}
use aether_runner.Docker.Sdk.{Sdk, Inspection}
use aether_runner.Docker.Client.{
  launch_container, terminate_container, wait_for_healthy, start_container, get_container_info,
  info_of, with_defaults, container_config, host_config, wait_loop, address_of, health_answer,
  first_port, started_time,
}
use aether_runner.Docker.Client.Daemon.{Lawful, Stoppable}
use aether_runner.Docker.Client.Removal.{terminate_container-there}
use aether_runner.Docker.Client.Launch.{launch_container-created, launch_container_failed}
use aether_runner.Docker.Client.Waiting.{
  Passes, wait_for_healthy_returns, wait_for_healthy-BecomesHealthy, BecomesHealthy,
}

-- The ids of the containers, and the clock.
abbrev Host : Type 0
Host = List String × ℕ

abbrev holds : List String → String → Bool
holds [] other = false
holds (id ∷ ids) other = id == other || holds ids other

abbrev erase : String → List String → List String
erase id [] = []
erase id (x ∷ xs) = let rest = erase id xs in if x == id then rest else x ∷ rest

holds-erase :
    (id : String) (ids : List String) (other : String)
    → holds (erase id ids) other ≡ (not (id == other) && holds ids other)
holds-erase id [] other = ground arith
holds-erase id (x ∷ xs) other =
    ground (arith, holds-erase id xs other, eq_iff x id, eq_iff id other, eq_iff x other)

-- Healthy from the second second on.
abbrev inspection : ℕ → Inspection
inspection clock = record {
  status = "running";
  started_at = "";
  running = true;
  exit_code = pos 0;
  health = some (if ltb clock 1000000000 then "starting" else "healthy");
  network = none;
  exposed_ports = "8000/tcp" ∷ [];
}

abbrev create : Host → Host × (String ⊎ String)
create (ids, clock) =
    if holds ids "c1" then ((ids, clock), inl "no id is free") else (("c1" ∷ ids, clock), inr "c1")

abbrev remove : Host → String → Host × Option String
remove (ids, clock) id = ((erase id ids, clock), none)

abbrev pause : Host → Host × Option String
pause (ids, clock) = ((ids, clock + 500000000), none)

abbrev inspect : Host → String → Host × (String ⊎ Inspection)
inspect (ids, clock) id = ((ids, clock), inr (inspection clock))

abbrev host_sdk : Sdk Host
host_sdk = record {
  ping = λ w. (w, none);
  image_inspect = λ w image. (w, none);
  image_pull = λ w image. (w, none);
  read_response = λ w. (w, none);
  container_create = λ w config host. create w;
  container_start = λ w id. (w, none);
  container_stop = λ w id seconds. (w, none);
  container_remove = λ w id force volumes. remove w id;
  container_inspect = inspect;
  container_list = λ w. (w, inr []);
  port_int = λ port. pos 8000;
  parse_nano = λ text. inl "not a time";
  now = λ w. w.1;
  pause = pause;
}

create-there :
    (w : Host) (id : String)
    → (create w).1 ≡ inr id
    → (holds w.0 id ≡ false)
      × ((other : String) → holds (create w).0.0 other ≡ (id == other || holds w.0 other))
create-there (ids, clock) id h = (ground arith, λ other. ground arith)

create_refused :
    (w : Host) (err other : String)
    → (create w).1 ≡ inl err
    → holds (create w).0.0 other ≡ holds w.0 other
create_refused (ids, clock) err other h = ground arith

abbrev host_lawful : Lawful host_sdk
host_lawful = record {
  there = λ w. holds w.0;
  created = λ w config host id h. create-there w id h;
  refused = λ w config host err other h. create_refused w err other h;
  started = λ w id other. refl;
  stopped = λ w id seconds other. refl;
  inspected = λ w id other. refl;
  removed = λ w id force volumes other h. holds-erase id w.0 other;
}

-- A daemon that starts no container.
abbrev full_sdk : Sdk Host
full_sdk = record host_sdk { container_start = λ w id. (w, some "no free GPU") }

abbrev full_lawful : Lawful full_sdk
full_lawful = record {
  there = λ w. holds w.0;
  created = λ w config host id h. create-there w id h;
  refused = λ w config host err other h. create_refused w err other h;
  started = λ w id other. refl;
  stopped = λ w id seconds other. refl;
  inspected = λ w id other. refl;
  removed = λ w id force volumes other h. holds-erase id w.0 other;
}

abbrev request : LaunchOptions
request = record {
  model_image = "llm";
  gpu_count = pos 0;
  gpu_device_ids = [];
  memory = pos 0;
  cpu_shares = pos 0;
  network_mode = "";
  env = [];
  labels = [];
  exposed_port = pos 0;
}

abbrev launched : ContainerInfo
launched = record {
  id = "c1";
  ip_address = "";
  port = pos 8000;
  status = "running";
  started_at = 0;
}

launch_request :
    launch_container host_sdk ("c0" ∷ [], 0) request ≡ (("c1" ∷ "c0" ∷ [], 0), inr launched)
unfolding launch_container start_container get_container_info info_of with_defaults container_config
    host_config address_of first_port started_time
launch_request = refl

launch_container-created_example :
    (holds ("c0" ∷ []) "c1" ≡ false)
    × (holds (launch_container host_sdk ("c0" ∷ [], 0) request).0.0 "c0"
        ≡ ("c1" == "c0" || holds ("c0" ∷ []) "c0"))
launch_container-created_example =
    launch_container-created host_sdk host_lawful ("c0" ∷ [], 0) request launched "c0"
      (ap (λ r. r.1) launch_request)

-- A daemon whose containers all run and do not stop in time, and which removes them by force only.
abbrev busy_remove : Host → String → Bool → Host × Option String
busy_remove w id force = if force then remove w id else (w, some "container is running")

abbrev busy_sdk : Sdk Host
busy_sdk = record host_sdk {
  container_stop = λ w id seconds. (w, some "deadline exceeded");
  container_remove = λ w id force volumes. busy_remove w id force;
}

busy_removed :
    (w : Host) (id : String) (force : Bool) (other : String)
    → (busy_remove w id force).1 ≡ none
    → holds (busy_remove w id force).0.0 other ≡ (not (id == other) && holds w.0 other)
busy_removed w id true other h = holds-erase id w.0 other
busy_removed w id false other h = cc

abbrev busy_lawful : Lawful busy_sdk
busy_lawful = record {
  there = λ w. holds w.0;
  created = λ w config host id h. create-there w id h;
  refused = λ w config host err other h. create_refused w err other h;
  started = λ w id other. refl;
  stopped = λ w id seconds other. refl;
  inspected = λ w id other. refl;
  removed = λ w id force volumes other h. busy_removed w id force other h;
}

busy_stops : Stoppable busy_sdk (λ w. holds w.0)
busy_stops = record {
  running = λ w. holds w.0;
  halted = λ w id seconds h. let bad : some "deadline exceeded" ≡ none = h in cc;
  removes_stopped = λ w id volumes h n. let bad : true ≡ false = sym h ∙ n in cc;
  removes_by_force = λ w id volumes h. refl;
}

terminate_container-there_example :
    ((terminate_container busy_sdk ("c1" ∷ "c0" ∷ [], 0) "c1").1 ≡ none)
    × ((other : String)
        → holds (terminate_container busy_sdk ("c1" ∷ "c0" ∷ [], 0) "c1").0.0 other
          ≡ (not ("c1" == other) && holds ("c1" ∷ "c0" ∷ []) other))
terminate_container-there_example =
    terminate_container-there busy_sdk busy_lawful busy_stops ("c1" ∷ "c0" ∷ [], 0) "c1" refl

launch_refused :
    (launch_container full_sdk ([], 0) request).1 ≡ inl "failed to start container: no free GPU"
unfolding launch_container start_container
launch_refused = refl

answered : (w : Host) (id err : String) → (inspect w id).1 ≢ inl err
answered w id err h = cc

launch_container_failed_example : holds (launch_container full_sdk ([], 0) request).0.0 "c1" ≡ false
launch_container_failed_example =
    launch_container_failed full_sdk full_lawful ([], 0) request
      "failed to start container: no free GPU" "c1" (λ w id err _. answered w id err)
      (λ w id _. refl) launch_refused

same_time : (t : ℕ) → t ≤ t
same_time t = omega arith

abbrev host_clock : Passes host_sdk
host_clock = record { pause = λ w h. same_time _; inspect = λ w id. same_time _ }

wait_for_healthy_returns_example :
    (result : Option String) × ((wait_for_healthy host_sdk ("c1" ∷ [], 0) "c1" (pos 30000000000)).1
      ≡ some result)
wait_for_healthy_returns_example =
    wait_for_healthy_returns host_sdk host_clock ("c1" ∷ [], 0) "c1" (pos 30000000000)

wait_for_healthy-BecomesHealthy_example :
    ((wait_for_healthy host_sdk ("c1" ∷ [], 0) "c1" (pos 30000000000)).1 ≡ some none)
    ↔ BecomesHealthy host_sdk (time_add 0 (pos 30000000000)) "c1" ("c1" ∷ [], 0)
wait_for_healthy-BecomesHealthy_example =
    wait_for_healthy-BecomesHealthy host_sdk host_clock ("c1" ∷ [], 0) "c1" (pos 30000000000)

-- Two pauses, and then the container is healthy.
third_time : (wait_for_healthy host_sdk ("c1" ∷ [], 0) "c1" (pos 30000000000)).1 ≡ some none
unfolding wait_for_healthy wait_loop health_answer time_add
third_time = refl

too_late :
    (wait_for_healthy host_sdk ("c1" ∷ [], 0) "c1" (pos 600000000)).1
    ≡ some (some "timeout waiting for container to become healthy")
unfolding wait_for_healthy wait_loop health_answer time_add
too_late = refl
