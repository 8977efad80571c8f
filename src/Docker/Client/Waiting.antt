-- ===== src/Docker/Client/Waiting.antt =====
-- WaitForHealthy of pkg/docker/client.go: that the loop ends, and what it waits for.
use aether_runner.Base.{
  refl, ◌≡◌, ℕ, zero, suc, ◌+◌, ◌*◌, ◌/◌, ◌≤◌, ◌<◌, String, Bool, true, false, Option, none, some,
  inr, arith, ◌&&◌, ◌==◌, not, ◌↔◌, ◌≢◌, ◌↔◌, not, Bool-cases, Option-cases, inl, outcome,
}
use aether_runner.Base.Int.{pos, negsuc, pos_part}
use aether_runner.Base.Clock.{Time, Duration, time_add, before}
use aether_runner.Docker.Sdk.{Sdk, Inspection}
use aether_runner.Docker.Client.{health_answer, wait_loop, wait_for_healthy}

-- A running container without a health check, or with one that reports "healthy".
pub is_healthy : Inspection → Bool
is_healthy i = i.running && elim i.health [ none ↦ true | some status ↦ status == "healthy" ]

-- A running container that is not healthy yet.
pub is_starting : Inspection → Bool
is_starting i =
    i.running && elim i.health [ none ↦ false | some status ↦ not (status == "healthy") ]

-- What the loop needs of the clock: a pause that runs to its end takes half a second, and an
-- inspection does not turn the clock back.
pub record Passes {W : Type 0} (sdk : Sdk W) : Type 0 where
  pub pause : (w : W) → (sdk.pause w).1 ≡ none → sdk.now w + 500000000 ≤ sdk.now (sdk.pause w).0
  pub inspect : (w : W) (id : String) → sdk.now w ≤ sdk.now (sdk.container_inspect w id).0

-- From here the container is found healthy before the deadline: at once, or after it is found starting
-- and the context lives through the next pause.
pub data BecomesHealthy {W : Type 0} (sdk : Sdk W) (deadline : Time) (id : String)
    : W → Type 0 where
  found :
      {w : W} (i : Inspection)
      → sdk.now w < deadline
      → (sdk.container_inspect w id).1 ≡ inr i
      → is_healthy i ≡ true
      → BecomesHealthy sdk deadline id w
  waits :
      {w : W} (i : Inspection)
      → sdk.now w < deadline
      → (sdk.container_inspect w id).1 ≡ inr i
      → is_starting i ≡ true
      → (sdk.pause (sdk.container_inspect w id).0).1 ≡ none
      → BecomesHealthy sdk deadline id (sdk.pause (sdk.container_inspect w id).0).0
      → BecomesHealthy sdk deadline id w

health_answer-healthy :
    (i : Inspection) → (health_answer (inr i) ≡ some none) ↔ (is_healthy i ≡ true)
unfolding health_answer is_healthy
health_answer-healthy i = (λ h. ground arith, λ h. ground arith)

health_answer-starting : (i : Inspection) → (health_answer (inr i) ≡ none) ↔ (is_starting i ≡ true)
unfolding health_answer is_starting
health_answer-starting i = (λ h. ground arith, λ h. ground arith)

health_answer_failed :
    (e : String) → (reason : String) × (health_answer (inl e) ≡ some (some reason))
unfolding health_answer
health_answer_failed e = (_, refl)

rounds_for_enough :
    (t : Time) (timeout : Duration)
    → time_add t timeout ≤ t + suc (pos_part timeout / 500000000) * 500000000
unfolding time_add
rounds_for_enough t (pos n) = omega arith
rounds_for_enough t (negsuc n) = omega arith

module _ {W : Type 0} (sdk : Sdk W) (clock : Passes sdk) where
  wait_loop_ends :
      (n : ℕ) (deadline : Time) (w : W) (id : String)
      → deadline ≤ sdk.now w + n * 500000000
      → (wait_loop sdk (suc n) deadline w id).1 ≢ none
  unfolding wait_loop
  wait_loop_ends zero deadline w id h = ground arith
  wait_loop_ends (suc n) deadline w id h =
      let w₁ = (sdk.container_inspect w id).0 in
      ground
        (arith, clock.inspect w id, clock.pause w₁, wait_loop_ends n deadline (sdk.pause w₁).0 id)

  -- WaitForHealthy returns: it makes no more rounds than the model allows for its timeout.
  pub wait_for_healthy_returns :
      (w : W) (id : String) (timeout : Duration)
      → (result : Option String) × ((wait_for_healthy sdk w id timeout).1 ≡ some result)
  unfolding wait_for_healthy
  wait_for_healthy_returns w id timeout =
      elim (Option-cases (wait_for_healthy sdk w id timeout).1) [
        | inl e ↦ absurd (wait_loop_ends _ _ w id (rounds_for_enough (sdk.now w) timeout) e)
        | inr r ↦ r
      ]

  wait_loop-BecomesHealthy :
      (n : ℕ) (deadline : Time) (w : W) (id : String)
      → (wait_loop sdk n deadline w id).1 ≡ some none
      → BecomesHealthy sdk deadline id w
  unfolding wait_loop
  wait_loop-BecomesHealthy zero deadline w id h = cc
  wait_loop-BecomesHealthy (suc n) deadline w id h =
      let w₁ = (sdk.container_inspect w id).0 in
      elim (Bool-cases (before (sdk.now w) deadline)) [
        | inr late ↦
            let bad : ◌≡◌ {A = Option (Option String)}
                (some (some "timeout waiting for container to become healthy")) (some none) =
              rw late at h in
            cc
        | inl early ↦
            let soon : sdk.now w < deadline = ground arith in
            elim (outcome (sdk.container_inspect w id).1) [
              | inl (e, a) ↦ absurd (ground (arith, a, early, h, (health_answer_failed e).1))
              | inr (i, a) ↦ elim (Option-cases (health_answer (inr i))) [
                | inl y ↦ elim (Option-cases (sdk.pause w₁).1) [
                  | inl p ↦
                      let later =
                        wait_loop-BecomesHealthy n deadline (sdk.pause w₁).0 id
                          (rw (early, a, y, p) at h) in
                      waits i soon a ((health_answer-starting i).0 y) p later
                  | inr (e, p) ↦ absurd (ground (arith, a, early, h, y, p))
                ]
                | inr (r, y) ↦
                    found i soon a ((health_answer-healthy i).0 (ground (arith, a, early, h, y)))
              ]
            ]
      ]

  BecomesHealthy-wait_loop :
      (n : ℕ) (deadline : Time) (w : W) (id : String)
      → deadline ≤ sdk.now w + n * 500000000
      → BecomesHealthy sdk deadline id w
      → (wait_loop sdk (suc n) deadline w id).1 ≡ some none
  unfolding wait_loop
  BecomesHealthy-wait_loop n deadline w id h (found i t a y) =
      ground (arith, (health_answer-healthy i).1 y, a)
  BecomesHealthy-wait_loop zero deadline w id h (waits i t a y p later) = absurd (omega arith)
  BecomesHealthy-wait_loop (suc n) deadline w id h (waits i t a y p later) =
      let w₁ = (sdk.container_inspect w id).0 in
      ground (
        arith,
        (health_answer-starting i).1 y,
        a,
        p,
        clock.inspect w id,
        clock.pause w₁ p,
        BecomesHealthy-wait_loop n deadline (sdk.pause w₁).0 id,
      )

  -- WaitForHealthy returns nil exactly if the container is found healthy before the deadline, after
  -- rounds that find it starting and pauses that the context lives through.
  pub wait_for_healthy-BecomesHealthy :
      (w : W) (id : String) (timeout : Duration)
      → ((wait_for_healthy sdk w id timeout).1 ≡ some none)
        ↔ BecomesHealthy sdk (time_add (sdk.now w) timeout) id w
  unfolding wait_for_healthy
  wait_for_healthy-BecomesHealthy w id timeout = (
    wait_loop-BecomesHealthy _ _ w id,
    BecomesHealthy-wait_loop _ _ w id (rounds_for_enough (sdk.now w) timeout),
  )
