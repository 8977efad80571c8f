-- ===== src/Docker/Client/Removal.antt =====
-- TerminateContainer of pkg/docker/client.go: which containers are there afterwards.
use aether_runner.Base.{
  ◌≡◌, ◌∙◌, ap, inl, inr, String, ◌==◌, true, false, not, ◌&&◌, none, Option-cases,
}
use aether_runner.Docker.Sdk.{Sdk}
use aether_runner.Docker.Client.{stop_container, remove_container, terminate_container, pos}
use aether_runner.Docker.Client.Daemon.{Lawful, Stoppable}

module _ {W : Type 0} (sdk : Sdk W) (daemon : Lawful sdk) (stops : Stoppable sdk daemon.there) where
  -- TerminateContainer of a container that is there returns nil, takes it away and leaves every other as it was, whether the daemon stops the container in ten seconds or not, if a container does not run once its stop succeeded, one that is there and does not run is removed without force, and one that is there is removed by force.
  pub terminate_container-there :
      (w : W) (id : String)
      → daemon.there w id ≡ true
      → ((terminate_container sdk w id).1 ≡ none)
        × ((other : String)
            → daemon.there (terminate_container sdk w id).0 other
              ≡ (not (id == other) && daemon.there w other))
  unfolding terminate_container stop_container remove_container
  terminate_container-there w id there =
      let w₁ = (sdk.container_stop w id (pos 10)).0 in
      let still : daemon.there w₁ id ≡ true = daemon.stopped w id (pos 10) id ∙ there in
      elim (Option-cases (sdk.container_stop w id (pos 10)).1) [
        | inl e ↦
            let gone = stops.removes_stopped w₁ id true still (stops.halted w id (pos 10) e) in
            rw (e, terminate_container)
              (
                gone,
                λ other.
                    daemon.removed w₁ id false true other gone
                    ∙ ap (λ b. not (id == other) && b) (daemon.stopped w id (pos 10) other),
              )
        | inr (err, e) ↦
            let gone = stops.removes_by_force w₁ id true still in
            rw (e, terminate_container)
              (
                gone,
                λ other.
                    daemon.removed w₁ id true true other gone
                    ∙ ap (λ b. not (id == other) && b) (daemon.stopped w id (pos 10) other),
              )
      ]
