-- ===== src/Wire/Exchange.antt =====
-- `FromWire`: what a message may change.
use aether_runner.Base.{
  ◌≡◌, refl, sym, ◌∙◌, ◌≢◌, ◌⊎◌, inl, inr, String, Option, none, some, Option-cases, text_ne,
}
use aether_runner.Base.Clock.{Time}
use aether_runner.Worker.{WorkerState, status_running, status_terminating}
use aether_runner.Worker.Transitions.{Edge, launch, come_up, go_idle, resume, end}
use aether_runner.Wire.{
  WireWorkerState, wire_state_is_nil, invalid_wire_state, Rfc3339, validate, from_wire,
}
use aether_runner.Wire.Schema.{Conforms, validate-Conforms}

-- What only the message may not change: the worker's identity, its container and its history.
pub record SameIdentity (w w' : WorkerState) : Type 0 where
  pub worker_id : w'.worker_id ≡ w.worker_id
  pub tenant_id : w'.tenant_id ≡ w.tenant_id
  pub container_id : w'.container_id ≡ w.container_id
  pub created_at : w'.created_at ≡ w.created_at
  pub last_heartbeat : w'.last_heartbeat ≡ w.last_heartbeat

-- `FromWire` returns nil exactly for a message that is there and conforms. It then takes over the status, whatever the worker's own was, and sets the time of the update; otherwise the worker is as it was. Identity, tenant, container, creation and last heartbeat never change.
pub from_wire_lem :
    (clock : Rfc3339) (now : Time) (w : WorkerState) (message : Option WireWorkerState)
    → let (w', e) = from_wire clock now w message in
      (((wire : WireWorkerState) × (message ≡ some wire)
          × Conforms clock wire
          × (e ≡ none)
          × (w'.status ≡ wire.status)
          × (w'.updated_at ≡ now))
        ⊎ (((wire : WireWorkerState) → message ≡ some wire → ¬ Conforms clock wire)
            × (e ≢ none)
            × (w' ≡ w)))
      × SameIdentity w w'
unfolding from_wire
from_wire_lem clock now w none = (
  inr (
    λ wire h. let bad : none ≡ some wire = h in cc,
    λ h. let bad : some wire_state_is_nil ≡ none = h in cc,
    refl,
  ),
  record {
    worker_id = refl;
    tenant_id = refl;
    container_id = refl;
    created_at = refl;
    last_heartbeat = refl;
  },
)
from_wire_lem clock now w (some wire) = elim (Option-cases (validate clock wire)) [
  | inl v ↦
      rw (v, from_wire)
        (
          inl (wire, refl, (validate-Conforms clock wire).0 v, refl, refl, refl),
          record {
            worker_id = refl;
            tenant_id = refl;
            container_id = refl;
            created_at = refl;
            last_heartbeat = refl;
          },
        )
  | inr (x, v) ↦
      rw (v, from_wire)
        (
          inr (
            λ q h c.
                let same : wire ≡ q = cc in
                let ok : validate clock wire ≡ none =
                  (validate-Conforms clock wire).1 (rw same c) in
                let bad : some x ≡ none = sym v ∙ ok in cc,
            λ h. let bad : some (invalid_wire_state x) ≡ none = h in cc,
            refl,
          ),
          record {
            worker_id = refl;
            tenant_id = refl;
            container_id = refl;
            created_at = refl;
            last_heartbeat = refl;
          },
        )
]

terminating_is_final : (s : String) → ¬ Edge status_terminating s
terminating_is_final s (launch p _) = text_ne "TERMINATING" "PENDING" refl p
terminating_is_final s (come_up p _) = text_ne "TERMINATING" "STARTING" refl p
terminating_is_final s (go_idle p _) = text_ne "TERMINATING" "RUNNING" refl p
terminating_is_final s (resume p _) = text_ne "TERMINATING" "IDLE" refl p
terminating_is_final s (end (inl p) _) = text_ne "TERMINATING" "PENDING" refl p
terminating_is_final s (end (inr (inl p)) _) = text_ne "TERMINATING" "STARTING" refl p
terminating_is_final s (end (inr (inr (inl p))) _) = text_ne "TERMINATING" "RUNNING" refl p
terminating_is_final s (end (inr (inr (inr p))) _) = text_ne "TERMINATING" "IDLE" refl p

-- A conforming message that says RUNNING takes a worker out of TERMINATING, which the transition table of state.go forbids.
pub from_wire_revives :
    (clock : Rfc3339) (now : Time) (w : WorkerState) (wire : WireWorkerState)
    → Conforms clock wire
    → wire.status ≡ status_running
    → w.status ≡ status_terminating
    → ((from_wire clock now w (some wire)).0.status ≡ status_running)
      × (¬ Edge w.status status_running)
unfolding from_wire
from_wire_revives clock now w wire c r t =
    let v = (validate-Conforms clock wire).1 c in
    (rw (v, from_wire) r, λ edge. terminating_is_final status_running (rw t at edge))
