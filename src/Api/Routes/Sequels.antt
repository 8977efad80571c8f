-- ===== src/Api/Routes/Sequels.antt =====
-- Requests for a worker after the request that created it.
use aether_runner.Base.{String, List, [], ◌∷◌}
use aether_runner.Base.Json.{Json}
use aether_runner.Docker.{Docker}

abbrev pub workers_path : List String
workers_path = "v1" ∷ "workers" ∷ []

abbrev pub worker_path : String → List String
worker_path id = "v1" ∷ "workers" ∷ id ∷ []
