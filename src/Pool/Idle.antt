-- ===== src/Pool/Idle.antt =====
-- `checkIdleWorkers`: whom it terminates, when terminating one worker leaves the others alone.
use aether_runner.Base.{
  ◌≡◌, refl, sym, ap, ◌∙◌, ◌≢◌, inl, inr, String, ◌==◌, Bool, ◌&&◌, List, [], ◌∷◌, Bool-cases, All,
}
use aether_runner.Base.Clock.{Time, Duration}
use aether_runner.Base.Assoc.{Map, Distinct, keys}
use aether_runner.Worker.{WorkerState, get_status, status_idle}
use aether_runner.Pool.{Ref, Heap}
use aether_runner.Pool.Health.{Terminator, check_idle_workers, visit_idle, is_idle_too_long}
use aether_runner.Base.Select.{select}

abbrev pub expired : Time → Duration → Heap → Ref → Bool
expired now timeout h r = (get_status (h r) == status_idle) && is_idle_too_long now timeout (h r)

-- The registry keeps each worker under its own ID.
abbrev pub Keyed : Heap → Map Ref → Type 0
Keyed h = All (λ e. (h e.1).worker_id ≡ e.0)

module _ {S Err : Type 0} (t : Terminator S Err) where
  -- The calls of the terminating function for some workers, one after the other.
  unfoldable pub terminate_each : S → List String → S
  terminate_each s [] = s
  terminate_each s (id ∷ ids) = terminate_each (t.terminate s id).0 ids

module _ {S Err : Type 0} (t : Terminator S Err)
    (alone : (s : S) (id : String) (r : Ref)
      → (t.heap s r).worker_id ≢ id
      → t.heap (t.terminate s id).0 r ≡ t.heap s r) where
  abbrev Same : Heap → S → Map Ref → Type 0
  Same h s = All (λ e. t.heap s e.1 ≡ h e.1)

  All-keys-map : (k : String) (ws : Map Ref) → All (λ i. i ≢ k) (keys ws) → All (λ e. e.0 ≢ k) ws
  All-keys-map k [] a = tt
  All-keys-map k ((j, q) ∷ ws) a = (a.0, All-keys-map k ws a.1)

  terminate-Same :
      (h : Heap) (s : S) (k : String) (ws : Map Ref)
      → Keyed h ws
      → All (λ i. i ≢ k) (keys ws)
      → Same h s ws
      → Same h (t.terminate s k).0 ws
  terminate-Same h s k [] key a same = tt
  terminate-Same h s k ((j, q) ∷ ws) key a same = (
    alone s k q (λ e. a.0 (sym key.0 ∙ ap (λ (w : WorkerState). w.worker_id) (sym same.0) ∙ e))
        ∙ same.0,
    terminate-Same h s k ws key.1 a.1 same.1,
  )

  check_idle_from :
      (now : Time) (timeout : Duration) (h : Heap) (s : S) (ws : Map Ref)
      → Keyed h ws
      → Distinct ws
      → Same h s ws
      → check_idle_workers t now timeout s ws
        ≡ terminate_each t s (select (expired now timeout h) (λ r. (h r).worker_id) ws)
  unfolding check_idle_workers visit_idle select terminate_each
  check_idle_from now timeout h s [] key d same = refl
  check_idle_from now timeout h s ((k, r) ∷ ws) key d same =
      elim (Bool-cases (get_status (h r) == status_idle)) [
        | inr n ↦ rw (same.0, n) (check_idle_from now timeout h s ws key.1 d.1 same.1)
        | inl i ↦ elim (Bool-cases (is_idle_too_long now timeout (h r))) [
          | inr n ↦ rw (same.0, i, n) (check_idle_from now timeout h s ws key.1 d.1 same.1)
          | inl e ↦
              rw (same.0, i, e, key.0)
                (check_idle_from now timeout h (t.terminate s k).0 ws key.1 d.1
                  (terminate-Same h s k ws key.1 d.0 same.1))
        ]
      ]

  -- If terminating a worker changes no worker with another ID, and workers are registered under their own distinct IDs, `checkIdleWorkers` calls the terminating function for exactly the workers that were idle too long when it began, in the order of the visit.
  pub check_idle_workers-select :
      (now : Time) (timeout : Duration) (s : S) (ws : Map Ref)
      → Keyed (t.heap s) ws
      → Distinct ws
      → check_idle_workers t now timeout s ws
        ≡ terminate_each t s
            (select (expired now timeout (t.heap s)) (λ r. (t.heap s r).worker_id) ws)
  check_idle_workers-select now timeout s ws key d =
      check_idle_from now timeout (t.heap s) s ws key d (same_start ws)
    where
      same_start : (vs : Map Ref) → Same (t.heap s) s vs
      same_start [] = tt
      same_start (e ∷ vs) = (refl, same_start vs)
