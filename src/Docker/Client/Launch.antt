-- ===== src/Docker/Client/Launch.antt =====
-- LaunchContainer of pkg/docker/client.go: which containers are there afterwards.
use Prim.Native.String.{◌++◌ as ◌<>◌}
use aether_runner.Base.{
  ap, ◌≡◌, ◌≢◌, ◌∙◌, inl, inr, String, ◌==◌, true, false, not, ◌&&◌, ◌||◌, none, ◌⊎◌, arith,
  Bool-cases, eq_iff, eq_refl, outcome,
}
use aether_runner.Docker.{LaunchOptions, ContainerInfo}
use aether_runner.Docker.Sdk.{Sdk}
use aether_runner.Docker.Client.{
  with_defaults, container_config, host_config, info_of, get_container_info, start_container,
  launch_container,
}
use aether_runner.Docker.Client.Daemon.{Lawful}

module _ {W : Type 0} (sdk : Sdk W) (daemon : Lawful sdk) where
  get_container_info-there :
      (w : W) (id other : String)
      → daemon.there (get_container_info sdk w id).0 other ≡ daemon.there w other
  unfolding get_container_info
  get_container_info-there w id other = ground (arith, daemon.inspected w id other)

  get_container_info-id :
      (w : W) (id : String) (info : ContainerInfo)
      → (get_container_info sdk w id).1 ≡ inr info
      → info.id ≡ id
  unfolding get_container_info info_of
  get_container_info-id w id info h = ground arith

  start_container-started :
      (w : W) (id : String) (info : ContainerInfo) (other : String)
      → (start_container sdk w id).1 ≡ inr info
      → (info.id ≡ id) × (daemon.there (start_container sdk w id).0 other ≡ daemon.there w other)
  unfolding start_container
  start_container-started w id info other h =
      let w₁ = (sdk.container_start w id).0 in
      ground (
        arith,
        daemon.started w id other,
        get_container_info-there w₁ id other,
        get_container_info-id w₁ id info,
      )

  start_container_failed :
      (w : W) (id err other : String)
      → daemon.there w id ≡ true
      → ((w : W) (id err : String)
          → daemon.there w id ≡ true
          → (sdk.container_inspect w id).1 ≢ inl err)
      → ((w : W) (id : String)
          → daemon.there w id ≡ true
          → (sdk.container_remove w id true false).1 ≡ none)
      → (start_container sdk w id).1 ≡ inl err
      → daemon.there (start_container sdk w id).0 other
        ≡ (not (id == other) && daemon.there w other)
  unfolding start_container get_container_info
  start_container_failed w id err other made answers removes h =
      let w₁ = (sdk.container_start w id).0 in
      let there : daemon.there w₁ id ≡ true = daemon.started w id id ∙ made in
      elim (outcome (sdk.container_inspect (sdk.container_start w id).0 id).1) [
        | inl (e, i) ↦ absurd (answers w₁ id e there i)
        | inr (_, i) ↦ ground (
          arith,
          i,
          daemon.started w id other,
          daemon.removed w₁ id true false other,
          removes w₁ id there,
        )
      ]

  -- LaunchContainer returns the information of one container that is new, and all others are as before.
  pub launch_container-created :
      (w : W) (opts : LaunchOptions) (info : ContainerInfo) (other : String)
      → (launch_container sdk w opts).1 ≡ inr info
      → (daemon.there w info.id ≡ false)
        × (daemon.there (launch_container sdk w opts).0 other
            ≡ (info.id == other || daemon.there w other))
  unfolding launch_container
  launch_container-created w opts info other h =
      let o = with_defaults opts in
      let config = container_config o in
      let host = host_config o in
      let made = sdk.container_create w config host in
      elim (Bool-cases (opts.model_image == "")) [
        | inl t ↦
            let bad : ◌≡◌ {A = String ⊎ ContainerInfo} (inl "model_image is required") (inr info) =
              rw t at h in
            cc
        | inr t ↦ elim (outcome made.1) [
          | inl (e, c) ↦
              let bad : ◌≡◌ {A = String ⊎ ContainerInfo} (inl ("failed to create container: " <> e))
                  (inr info) =
                rw (t, c) at h in
              cc
          | inr (id, c) ↦
              let started = start_container-started made.0 id info other (rw (t, c) at h) in
              let new = daemon.created w config host id c in
              rw (t, c, started.0, started.1) (new.0, new.1 other)
        ]
      ]

  -- LaunchContainer that returns an error leaves the containers as they were, as long as the daemon answers each inspection of a container that is there and carries out each forced removal of one that is there.
  pub launch_container_failed :
      (w : W) (opts : LaunchOptions) (err other : String)
      → ((w : W) (id err : String)
          → daemon.there w id ≡ true
          → (sdk.container_inspect w id).1 ≢ inl err)
      → ((w : W) (id : String)
          → daemon.there w id ≡ true
          → (sdk.container_remove w id true false).1 ≡ none)
      → (launch_container sdk w opts).1 ≡ inl err
      → daemon.there (launch_container sdk w opts).0 other ≡ daemon.there w other
  unfolding launch_container
  launch_container_failed w opts err other answers removes h =
      let o = with_defaults opts in
      let config = container_config o in
      let host = host_config o in
      let made = sdk.container_create w config host in
      elim (Bool-cases (opts.model_image == "")) [
        | inl t ↦ rw t
        | inr t ↦ elim (outcome made.1) [
          | inl (e, c) ↦ rw (t, c) (daemon.refused w config host e other c)
          | inr (id, c) ↦
              let new = daemon.created w config host id c in
              let there : daemon.there made.0 id ≡ true =
                new.1 id ∙ ap (λ b. b || daemon.there w id) (eq_refl id) in
              let cleaned =
                start_container_failed made.0 id err other there answers removes (rw (t, c) at h) in
              rw (t, c, cleaned) (ground (arith, new.1 other, new.0, eq_iff id other))
        ]
      ]
