-- ===== src/Docker/Client/Daemon.antt =====
-- What pkg/docker/client.go relies on of the Docker daemon.
use aether_runner.Base.{◌≡◌, inl, inr, String, ◌==◌, Bool, false, not, ◌&&◌, ◌||◌, none, true}
use aether_runner.Docker.{ℤ}
use aether_runner.Docker.Sdk.{Sdk, ContainerConfig, HostConfig}

-- What the daemon does to the containers it holds, as far as its documentation says: a new
-- container has an id of its own, starting, stopping and inspecting one keeps it, and a removal that
-- succeeds takes it away.
pub record Lawful {W : Type 0} (sdk : Sdk W) : Type 0 where
  pub there : W → String → Bool
  pub created :
      (w : W) (config : ContainerConfig) (host : HostConfig) (id : String)
      → (sdk.container_create w config host).1 ≡ inr id
      → (there w id ≡ false)
        × ((other : String)
            → there (sdk.container_create w config host).0 other ≡ (id == other || there w other))
  pub refused :
      (w : W) (config : ContainerConfig) (host : HostConfig) (err : String) (other : String)
      → (sdk.container_create w config host).1 ≡ inl err
      → there (sdk.container_create w config host).0 other ≡ there w other
  pub started :
      (w : W) (id other : String) → there (sdk.container_start w id).0 other ≡ there w other
  pub stopped :
      (w : W) (id : String) (seconds : ℤ) (other : String)
      → there (sdk.container_stop w id seconds).0 other ≡ there w other
  pub inspected :
      (w : W) (id other : String) → there (sdk.container_inspect w id).0 other ≡ there w other
  pub removed :
      (w : W) (id : String) (force volumes : Bool) (other : String)
      → (sdk.container_remove w id force volumes).1 ≡ none
      → there (sdk.container_remove w id force volumes).0 other
        ≡ (not (id == other) && there w other)

-- What the documentation of the daemon says of the containers that run: a container whose stop is
-- reported as done does not run, one that does not run is removed without force, and any by force.
pub record Stoppable {W : Type 0} (sdk : Sdk W) (there : W → String → Bool) : Type 0 where
  pub running : W → String → Bool
  pub halted :
      (w : W) (id : String) (seconds : ℤ)
      → (sdk.container_stop w id seconds).1 ≡ none
      → running (sdk.container_stop w id seconds).0 id ≡ false
  pub removes_stopped :
      (w : W) (id : String) (volumes : Bool)
      → there w id ≡ true
      → running w id ≡ false
      → (sdk.container_remove w id false volumes).1 ≡ none
  pub removes_by_force :
      (w : W) (id : String) (volumes : Bool)
      → there w id ≡ true
      → (sdk.container_remove w id true volumes).1 ≡ none
