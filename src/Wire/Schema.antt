-- ===== src/Wire/Schema.antt =====
-- What `Validate` of pkg/orchestrator/wire.go asks of a message. It is stricter than the schema in SPEC.md, which takes an amount of 0 and empty names.
use aether_runner.Base.{
  ◌≡◌, refl, sym, ◌∙◌, ◌↔◌, ◌≢◌, ◌⊎◌, inl, inr, String, ◌==◌, eq_iff, true, false, Option, none,
  some, List, [], ◌∷◌, arith, Bool-cases, Option-cases, text_cases, Memᴰ,
}
use aether_runner.Base.Int.{pos, leb_ℤ, ◌<ℤ◌, leb_ℤ→lt, leb_ℤ→le}
use aether_runner.Base.Clock.{Time}
use aether_runner.Worker.{allows}
use aether_runner.Wire.{
  WireWorkerState, WireModel, WireMetrics, WireError, Rfc3339, valid_statuses, validate,
  validate_model, validate_metrics, validate_last_request_at, validate_uuid, match_uuid, group,
  hex_run,
}
use aether_runner.Wire.Uuid.{IsUuid, validate_uuid-IsUuid}

-- What is asked of a model, and of a time.
abbrev pub ModelConforms : Option WireModel → Type 0
ModelConforms none = Unit
ModelConforms (some m) = (m.name ≢ "") × (pos 0 <ℤ m.vram_requirement)

module _ (clock : Rfc3339) where
  abbrev pub TimeConforms : Option String → Type 0
  TimeConforms none = Unit
  TimeConforms (some text) = (t : Time) × (clock.parse text ≡ inr t)

  abbrev pub MetricsConform : Option WireMetrics → Type 0
  MetricsConform none = Unit
  MetricsConform (some m) = TimeConforms m.last_request_at

  pub record Conforms (w : WireWorkerState) : Type 0 where
    pub worker_id : IsUuid w.worker_id
    pub tenant_id : w.tenant_id ≢ ""
    pub status : Memᴰ w.status valid_statuses
    pub model : ModelConforms w.model
    pub metrics : MetricsConform w.metrics

allows_sound : (xs : List String) (s : String) → allows xs s ≡ true → Memᴰ s xs
unfolding allows
allows_sound [] s e = cc
allows_sound (x ∷ xs) s e = elim (text_cases x s) [
  | inl (q, _) ↦ Memᴰ.head (sym q)
  | inr (_, t) ↦ Memᴰ.tail (allows_sound xs s (rw t at e))
]

allows_complete : {s : String} {xs : List String} → Memᴰ s xs → allows xs s ≡ true
unfolding allows
allows_complete {s} (Memᴰ.head {x} e) = rw ((eq_iff x s).1 (sym e))
allows_complete {s} (Memᴰ.tail {x} m) = elim (text_cases x s) [
  | inl (_, t) ↦ rw t
  | inr (_, t) ↦ rw t (allows_complete m)
]

pub allows-Memᴰ : (xs : List String) (s : String) → (allows xs s ≡ true) ↔ Memᴰ s xs
allows-Memᴰ xs s = (allows_sound xs s, allows_complete)

no_empty : ¬ (allows valid_statuses "" ≡ true)
unfolding allows
no_empty e = let bad : false ≡ true = e in cc

pub text_no : (s t : String) → s ≢ t → (s == t) ≡ false
text_no s t n = elim (text_cases s t) [ inl (e, _) ↦ absurd (n e) | inr (_, q) ↦ q ]

empty_is_no_uuid : (s : String) → s ≡ "" → validate_uuid s ≡ false
unfolding validate_uuid match_uuid group hex_run
empty_is_no_uuid s e = rw e refl

validate_model-ModelConforms : (m : Option WireModel) → (validate_model m ≡ none) ↔ ModelConforms m
unfolding validate_model
validate_model-ModelConforms none = (λ _. tt, λ _. refl)
validate_model-ModelConforms (some m) = elim (text_cases m.name "") [
  | inl (e, t) ↦ (
    λ h. let bad : some WireError.model_name_required ≡ none = rw t at h in cc,
    λ c. absurd (c.0 e),
  )
  | inr (n, t) ↦ elim (Bool-cases (leb_ℤ m.vram_requirement (pos 0))) [
    | inl u ↦ (
      λ h. let bad : some WireError.model_vram_not_positive ≡ none = rw (t, u) at h in cc,
      λ c. absurd (omega (arith, leb_ℤ→le m.vram_requirement (pos 0) u, c.1)),
    )
    | inr u ↦ (λ h. (n, leb_ℤ→lt m.vram_requirement (pos 0) u), λ c. rw (t, u))
  ]
]

validate_last_request_at-TimeConforms :
    (clock : Rfc3339) (o : Option String)
    → (validate_last_request_at clock o ≡ none) ↔ TimeConforms clock o
unfolding validate_last_request_at
validate_last_request_at-TimeConforms clock none = (λ _. tt, λ _. refl)
validate_last_request_at-TimeConforms clock (some text) = go (clock.parse text) refl
  where
    go :
        (r : String ⊎ Time)
        → clock.parse text ≡ r
        → (validate_last_request_at clock (some text) ≡ none) ↔ TimeConforms clock (some text)
    go (inl err) e = (
      λ h.
          let bad : some (WireError.last_request_at_format err) ≡ none =
            rw (e, validate_last_request_at) at h in
          cc,
      λ (t, q). let bad : inl err ≡ inr t = sym e ∙ q in cc,
    )
    go (inr t) e = (λ h. (t, e), λ c. rw (e, validate_last_request_at))

validate_metrics-MetricsConform :
    (clock : Rfc3339) (m : Option WireMetrics)
    → (validate_metrics clock m ≡ none) ↔ MetricsConform clock m
unfolding validate_metrics
validate_metrics-MetricsConform clock none = (λ _. tt, λ _. refl)
validate_metrics-MetricsConform clock (some m) =
    validate_last_request_at-TimeConforms clock m.last_request_at

-- `Validate` returns nil exactly for a worker with a UUID, a tenant, one of the five statuses, a named model of a positive amount if it has a model, and a last request that parses as RFC 3339 if it has one.
pub validate-Conforms :
    (clock : Rfc3339) (w : WireWorkerState) → (validate clock w ≡ none) ↔ Conforms clock w
unfolding validate
validate-Conforms clock w = (to, from)
  where
    no : {A : Type 0} {e : WireError} → some e ≡ none → A
    no h = cc

    uuid : validate_uuid w.worker_id ≡ true → (w.worker_id == "") ≡ false
    uuid u = elim (text_cases w.worker_id "") [
      | inl (e, _) ↦ let bad : false ≡ true = sym (empty_is_no_uuid w.worker_id e) ∙ u in cc
      | inr (_, t) ↦ t
    ]

    known : Memᴰ w.status valid_statuses → (w.status == "") ≡ false
    known m = elim (text_cases w.status "") [
      | inr (_, t) ↦ t
      | inl (e, _) ↦
          let bad : allows valid_statuses "" ≡ true = rw e at (allows_complete m) in
          absurd (no_empty bad)
    ]

    from : Conforms clock w → validate clock w ≡ none
    from c =
        let u = (validate_uuid-IsUuid w.worker_id).1 c.worker_id in
        let t = text_no w.tenant_id "" c.tenant_id in
        rw (
          uuid u,
          u,
          t,
          known c.status,
          allows_complete c.status,
          (validate_model-ModelConforms w.model).1 c.model,
          (validate_metrics-MetricsConform clock w.metrics).1 c.metrics,
        )

    to : validate clock w ≡ none → Conforms clock w
    to h = elim (Bool-cases (w.worker_id == "")) [
      | inl a ↦ no (rw a at h)
      | inr a ↦ elim (Bool-cases (validate_uuid w.worker_id)) [
        | inr u ↦ no (rw (a, u) at h)
        | inl u ↦ elim (text_cases w.tenant_id "") [
          | inl (_, t) ↦ no (rw (a, u, t) at h)
          | inr (n, t) ↦ elim (Bool-cases (w.status == "")) [
            | inl s ↦ no (rw (a, u, t, s) at h)
            | inr s ↦ elim (Bool-cases (allows valid_statuses w.status)) [
              | inr k ↦ no (rw (a, u, t, s, k) at h)
              | inl k ↦ elim (Option-cases (validate_model w.model)) [
                | inr (x, m) ↦ no (rw (a, u, t, s, k, m) at h)
                | inl m ↦ record {
                  worker_id = (validate_uuid-IsUuid w.worker_id).0 u;
                  tenant_id = n;
                  status = allows_sound valid_statuses w.status k;
                  model = (validate_model-ModelConforms w.model).0 m;
                  metrics =
                      (validate_metrics-MetricsConform clock w.metrics).0
                        (rw (a, u, t, s, k, m) at h);
                }
              ]
            ]
          ]
        ]
      ]
    ]
