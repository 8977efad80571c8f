-- ===== src/Worker/Transitions.antt =====
-- The state machine of a worker: the transition table of pkg/orchestrator/state.go as a relation. It has
-- arrows to TERMINATING that the table of SPEC.md lacks.
use aether_runner.Base.{
  ◌≡◌, sym, ◌⊎◌, ◌↔◌, inl, inr, eq_iff, Bool, true, false, none, some, [], ◌∷◌, arith, text_cases,
}
use aether_runner.Base.Assoc.{lookup}
use aether_runner.Worker.{
  WorkerStatus, WorkerState, status_pending, status_starting, status_running, status_idle,
  status_terminating, valid_transitions, allows, is_valid_transition,
}

-- The moves that the table has.
pub data Edge (s t : WorkerStatus) : Type 0 where
  launch : s ≡ status_pending → t ≡ status_starting → Edge s t
  come_up : s ≡ status_starting → t ≡ status_running → Edge s t
  go_idle : s ≡ status_running → t ≡ status_idle → Edge s t
  resume : s ≡ status_idle → t ≡ status_running → Edge s t
  end :
      (s ≡ status_pending) ⊎ (s ≡ status_starting) ⊎ (s ≡ status_running) ⊎ (s ≡ status_idle)
      → t ≡ status_terminating
      → Edge s t

-- Which row of the table a status has.
data Row (s : WorkerStatus) : Type 0 where
  at_pending : s ≡ status_pending → Row s
  at_starting : s ≡ status_starting → Row s
  at_running : s ≡ status_running → Row s
  at_idle : s ≡ status_idle → Row s
  at_terminating : s ≡ status_terminating → Row s
  no_row : lookup s valid_transitions ≡ none → Row s

row : (s : WorkerStatus) → Row s
unfolding lookup
row s = elim (text_cases status_pending s) [
  | inl (e, _) ↦ at_pending (sym e)
  | inr (_, a) ↦ elim (text_cases status_starting s) [
    | inl (e, _) ↦ at_starting (sym e)
    | inr (_, b) ↦ elim (text_cases status_running s) [
      | inl (e, _) ↦ at_running (sym e)
      | inr (_, c) ↦ elim (text_cases status_idle s) [
        | inl (e, _) ↦ at_idle (sym e)
        | inr (_, d) ↦ elim (text_cases status_terminating s) [
          | inl (e, _) ↦ at_terminating (sym e)
          | inr (_, x) ↦ no_row (rw (a, b, c, d, x))
        ]
      ]
    ]
  ]
]

allows_pair : (a b t : WorkerStatus) → allows (a ∷ b ∷ []) t ≡ true → (t ≡ a) ⊎ (t ≡ b)
unfolding allows
allows_pair a b t h = ground (arith, eq_iff a t, eq_iff b t)

allowed : WorkerStatus → WorkerStatus → Bool
unfolding lookup allows
allowed s t = elim (lookup s valid_transitions) [ none ↦ false | some ts ↦ allows ts t ]

allowed→Edge : (s t : WorkerStatus) → Row s → allowed s t ≡ true → Edge s t
unfolding allowed
allowed→Edge s t (at_pending e) h =
    elim (allows_pair status_starting status_terminating t (rw e at h)) [
      | inl p ↦ launch e p
      | inr p ↦ end (inl e) p
    ]
allowed→Edge s t (at_starting e) h =
    elim (allows_pair status_running status_terminating t (rw e at h)) [
      | inl p ↦ come_up e p
      | inr p ↦ end (inr (inl e)) p
    ]
allowed→Edge s t (at_running e) h =
    elim (allows_pair status_idle status_terminating t (rw e at h)) [
      | inl p ↦ go_idle e p
      | inr p ↦ end (inr (inr (inl e))) p
    ]
allowed→Edge s t (at_idle e) h =
    elim (allows_pair status_running status_terminating t (rw e at h)) [
      | inl p ↦ resume e p
      | inr p ↦ end (inr (inr (inr e))) p
    ]
allowed→Edge s t (at_terminating e) h = let bad : false ≡ true = rw e at h in cc
allowed→Edge s t (no_row e) h = let bad : false ≡ true = rw (e, allowed) at h in cc

Edge→allowed : (s t : WorkerStatus) → Edge s t → allowed s t ≡ true
unfolding allowed
Edge→allowed s t (launch p q) = rw (p, q)
Edge→allowed s t (come_up p q) = rw (p, q)
Edge→allowed s t (go_idle p q) = rw (p, q)
Edge→allowed s t (resume p q) = rw (p, q)
Edge→allowed s t (end (inl p) q) = rw (p, q)
Edge→allowed s t (end (inr (inl p)) q) = rw (p, q)
Edge→allowed s t (end (inr (inr (inl p))) q) = rw (p, q)
Edge→allowed s t (end (inr (inr (inr p))) q) = rw (p, q)

-- The table of transitions as a relation.
pub is_valid_transition-Edge :
    (w : WorkerState) (t : WorkerStatus) → (is_valid_transition w t ≡ true) ↔ Edge w.status t
unfolding is_valid_transition allowed
is_valid_transition-Edge w t = (allowed→Edge w.status t (row w.status), Edge→allowed w.status t)
