-- ===== src/Worker/History.antt =====
-- A worker under any sequence of calls of `TransitionTo`, and what it logs on the way.
use aether_runner.Base.{
  ◌≡◌, refl, sym, ◌∙◌, ◌≢◌, ◌⊎◌, inl, inr, Bool, true, false, none, List, [], ◌∷◌, ◌++◌, Bool-cases,
  Memᴰ, text_ne, ◌||◌, ◌==◌, Option-cases,
}
use aether_runner.Base.Clock.{Time, time_sub, milliseconds, Duration}
use aether_runner.Worker.{
  WorkerStatus, WorkerState, StateTransitionEvent, status_pending, status_starting, status_running,
  status_idle, status_terminating, is_valid_transition, transition_to, log_transition,
  can_accept_work, refresh_for_json, ℤ,
}
use aether_runner.Worker.Transitions.{
  Edge, launch, come_up, go_idle, resume, end, is_valid_transition-Edge,
}

-- The state that an accepted transition leaves.
abbrev pub moved : Time → WorkerState → WorkerStatus → WorkerState
moved now w t = record w { status = t; updated_at = now }

abbrev pub entry : Time → Time → WorkerState → WorkerStatus → StateTransitionEvent
entry now at w t =
    log_transition at (moved now w t) w.status t (milliseconds (time_sub now w.updated_at))

-- `TransitionTo` makes a move that the table of state.go has, sets the time and logs one entry; for any other it returns an error, and neither changes the worker nor logs.
pub transition_to_lem :
    (now at : Time) (w : WorkerState) (t : WorkerStatus)
    → let o = transition_to now at w t in
      (Edge w.status t
        × (o.error ≡ none)
        × (o.worker ≡ moved now w t)
        × (o.logged ≡ entry now at w t ∷ []))
      ⊎ ((¬ Edge w.status t) × (o.error ≢ none) × (o.worker ≡ w) × (o.logged ≡ []))
unfolding transition_to
transition_to_lem now at w t = elim (Bool-cases (is_valid_transition w t)) [
  | inl e ↦ rw e (inl ((is_valid_transition-Edge w t).0 e, refl, refl, refl))
  | inr e ↦ rw e (
      inr (
        λ g. let bad : false ≡ true = sym e ∙ (is_valid_transition-Edge w t).1 g in cc,
        λ p. cc,
        refl,
        refl,
      ))
]

-- One call: the two readings of the clock, and the status asked for.
abbrev pub Attempt : Type 0
Attempt = Time × Time × WorkerStatus

-- Every caller's calls, in the order in which they take the lock, and the whole log.
unfoldable pub run : WorkerState → List Attempt → WorkerState × List StateTransitionEvent
run w [] = (w, [])
run w ((now, at, t) ∷ calls) =
    let o = transition_to now at w t in let (w', log) = run o.worker calls in (w', o.logged ++ log)

-- The log is a path of moves that the table has, from `s` to `t`.
pub data Chain : WorkerStatus → List StateTransitionEvent → WorkerStatus → Type 0 where
  done : {s t : WorkerStatus} → s ≡ t → Chain s [] t
  move :
      {s t : WorkerStatus} (e : StateTransitionEvent) {es : List StateTransitionEvent}
      → e.from_state ≡ s
      → Edge s e.to_state
      → Chain e.to_state es t
      → Chain s (e ∷ es) t

-- The log of any sequence of calls of `TransitionTo` is a path from the first status to the last along moves that the transition table of state.go has.
pub run-Chain :
    (w : WorkerState) (calls : List Attempt) → Chain w.status (run w calls).1 (run w calls).0.status
unfolding run log_transition
run-Chain w [] = done refl
run-Chain w ((now, at, t) ∷ calls) = elim (transition_to_lem now at w t) [
  | inl (g, _, p, q) ↦ rw (p, q) (move (entry now at w t) refl g (run-Chain (moved now w t) calls))
  | inr (_, _, p, q) ↦ rw (p, q) (run-Chain w calls)
]

pub Edge-ne-terminating : {s t : WorkerStatus} → Edge s t → s ≢ status_terminating
Edge-ne-terminating (launch p q) e = text_ne _ _ refl (sym p ∙ e)
Edge-ne-terminating (come_up p q) e = text_ne _ _ refl (sym p ∙ e)
Edge-ne-terminating (go_idle p q) e = text_ne _ _ refl (sym p ∙ e)
Edge-ne-terminating (resume p q) e = text_ne _ _ refl (sym p ∙ e)
Edge-ne-terminating (end (inl p) q) e = text_ne _ _ refl (sym p ∙ e)
Edge-ne-terminating (end (inr (inl p)) q) e = text_ne _ _ refl (sym p ∙ e)
Edge-ne-terminating (end (inr (inr (inl p))) q) e = text_ne _ _ refl (sym p ∙ e)
Edge-ne-terminating (end (inr (inr (inr p))) q) e = text_ne _ _ refl (sym p ∙ e)

-- Under any sequence of calls of `TransitionTo` a terminating worker stays as it is and logs nothing.
pub run_terminal :
    (w : WorkerState) (calls : List Attempt) → w.status ≡ status_terminating → run w calls ≡ (w, [])
unfolding run
run_terminal w [] h = refl
run_terminal w ((now, at, t) ∷ calls) h = elim (transition_to_lem now at w t) [
  | inl (g, _, _, _) ↦ absurd (Edge-ne-terminating g h)
  | inr (_, _, p, q) ↦ rw (p, q, run_terminal w calls h)
]

-- A path that starts at a terminating worker is empty.
Chain-terminating :
    {s t : WorkerStatus} {es : List StateTransitionEvent}
    → Chain s es t
    → s ≡ status_terminating
    → t ≡ status_terminating
Chain-terminating (done e) h = sym e ∙ h
Chain-terminating (move e p g c) h = absurd (Edge-ne-terminating g h)

abbrev ready : WorkerStatus → Bool
ready s = s == status_running || s == status_idle

first_launch :
    {s t : WorkerStatus} {es : List StateTransitionEvent}
    → Chain s es t
    → s ≡ status_pending
    → ready t ≡ true
    → (e : StateTransitionEvent) × Memᴰ e es
      × (e.from_state ≡ status_pending)
      × (e.to_state ≡ status_starting)
first_launch (done e) h r = let bad : false ≡ true = rw (sym e ∙ h) at r in cc
first_launch (move e p (launch a b) c) h r = (e, Memᴰ.head refl, p ∙ h, b)
first_launch (move e p (come_up a b) c) h r = absurd (text_ne _ _ refl (sym a ∙ h))
first_launch (move e p (go_idle a b) c) h r = absurd (text_ne _ _ refl (sym a ∙ h))
first_launch (move e p (resume a b) c) h r = absurd (text_ne _ _ refl (sym a ∙ h))
first_launch (move e p (end a b) c) h r =
    let bad : false ≡ true = rw (Chain-terminating c b) at r in cc

-- A worker that was pending and can accept work after a sequence of calls of `TransitionTo` has logged its way from PENDING to STARTING.
pub accepting-launched :
    (w : WorkerState) (calls : List Attempt)
    → w.status ≡ status_pending
    → can_accept_work (run w calls).0 ≡ true
    → (e : StateTransitionEvent) × Memᴰ e (run w calls).1
      × (e.from_state ≡ status_pending)
      × (e.to_state ≡ status_starting)
unfolding can_accept_work
accepting-launched w calls h r = first_launch (run-Chain w calls) h r

-- A report of a worker changes its metrics only.
pub refresh_for_json-same :
    (whole_seconds : Duration → ℤ) (now : Time) (w : WorkerState)
    → ((refresh_for_json whole_seconds now w).model ≡ w.model)
      × ((refresh_for_json whole_seconds now w).status ≡ w.status)
unfolding refresh_for_json
refresh_for_json-same whole_seconds now w = elim (Option-cases w.metrics) [
  | inl e ↦ (rw (e, refresh_for_json) refl, rw (e, refresh_for_json) refl)
  | inr (m, e) ↦ (rw (e, refresh_for_json) refl, rw (e, refresh_for_json) refl)
]
