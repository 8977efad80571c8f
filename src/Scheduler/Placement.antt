-- ===== src/Scheduler/Placement.antt =====
-- `Schedule`: which GPU it chooses, and when it finds none.
use aether_runner.Base.{
  ◌≡◌, ◌⊎◌, inl, inr, String, Bool, true, false, Option, none, some, List, [], ◌∷◌, ◌++◌, arith,
  Bool-cases, Memᴰ, All, All-append, All-append_left, All-append_right, All-map, All-self, All-Memᴰ,
}
use aether_runner.Base.Int.{ℤ, ◌≤ℤ◌, ◌<ℤ◌, leb_ℤ, leb_ℤ→le, leb_ℤ→lt}
use aether_runner.Base.Assoc.{Map}
use aether_runner.Scheduler.{
  GpuResidency, Scheduler, ScheduleResult, Candidates, available, is_loaded, classify, collect,
  to_result, schedule,
}
use aether_runner.Scheduler.Sorting.{no_candidate, best, first_candidate-Best}

-- A GPU with room for the model, whose weights it holds (`true`) or not (`false`).
abbrev pub Suits : String → ℤ → Bool → GpuResidency → Type 0
Suits model v warm g = (v ≤ℤ available g) × (is_loaded g model ≡ warm)

abbrev side : Bool → Candidates → List GpuResidency
side true (warm, cold) = warm
side false (warm, cold) = cold

-- One round appends the GPU to its side of the candidates, or leaves that side alone.
side-classify :
    (model : String) (v : ℤ) (b : Bool) (g : GpuResidency) (cs : Candidates)
    → (Suits model v b g × (side b (classify model v g cs) ≡ side b cs ++ g ∷ []))
      ⊎ ((Suits model v b g → ⊥) × (side b (classify model v g cs) ≡ side b cs))
unfolding classify
side-classify model v true g (warm, cold) = ground arith
side-classify model v false g (warm, cold) = ground arith

module _ (P : GpuResidency → Type 0) (model : String) (v : ℤ) (b : Bool) where
  -- What holds of the suitable GPUs holds of the candidates collected, and the other way round.
  All-classify :
      (g : GpuResidency) (cs : Candidates)
      → (Suits model v b g → P g)
      → All P (side b cs)
      → All P (side b (classify model v g cs))
  All-classify g cs f h = elim (side-classify model v b g cs) [
    | inl (s, e) ↦ rw e (All-append P (side b cs) (g ∷ []) h (f s, tt))
    | inr (_, e) ↦ rw e h
  ]

  All-of_classify :
      (g : GpuResidency) (cs : Candidates)
      → All P (side b (classify model v g cs))
      → (Suits model v b g → P g) × All P (side b cs)
  All-of_classify g cs h = elim (side-classify model v b g cs) [
    | inl (_, e) ↦
        let k : All P (side b cs ++ g ∷ []) = rw e at h in
        (
          λ _. (All-append_right P (side b cs) (g ∷ []) k).0,
          All-append_left P (side b cs) (g ∷ []) k,
        )
    | inr (n, e) ↦ (λ s. absurd (n s), rw e at h)
  ]

  All-collect :
      (gpus : Map GpuResidency) (cs : Candidates)
      → All (λ e. Suits model v b e.1 → P e.1) gpus
      → All P (side b cs)
      → All P (side b (collect model v gpus cs))
  unfolding collect
  All-collect [] cs f h = h
  All-collect ((u, g) ∷ gpus) cs f h =
      All-collect gpus (classify model v g cs) f.1 (All-classify g cs f.0 h)

  All-of_collect :
      (gpus : Map GpuResidency) (cs : Candidates)
      → All P (side b (collect model v gpus cs))
      → All (λ e. Suits model v b e.1 → P e.1) gpus × All P (side b cs)
  unfolding collect
  All-of_collect [] cs h = (tt, h)
  All-of_collect ((u, g) ∷ gpus) cs h =
      let (later, front) = All-of_collect gpus (classify model v g cs) h in
      let (p, ps) = All-of_classify g cs front in ((p, later), ps)

-- What a caller may rely on: no GPU has room, or the chosen one has room, has most of it among its
-- kind, and is cold only if no warm one has room.
pub data Choice (gpus : Map GpuResidency) (model : String) (v : ℤ) (o : Option ScheduleResult)
    : Type 0 where
  nothing : o ≡ none → All (λ e. available e.1 <ℤ v) gpus → Choice gpus model v o
  chosen :
      (uuid : String) (g : GpuResidency) (warm : Bool)
      → Memᴰ (uuid, g) gpus
      → Suits model v warm g
      → o ≡ some (to_result warm g)
      → All (λ e. Suits model v warm e.1 → available e.1 ≤ℤ available g) gpus
      → (warm ≡ false → All (λ e. Suits model v true e.1 → ⊥) gpus)
      → Choice gpus model v o

module _ (gpus : Map GpuResidency) (model : String) (v : ℤ) where
  abbrev candidates : Bool → List GpuResidency
  candidates b = side b (collect model v gpus ([], []))

  abbrev Entry : Bool → GpuResidency → Type 0
  Entry b g = (uuid : String) × Memᴰ (uuid, g) gpus × Suits model v b g

  side_nil : (b : Bool) (P : GpuResidency → Type 0) → All P (side b ([], []))
  side_nil true P = tt
  side_nil false P = tt

  candidate-Entry : (b : Bool) (g : GpuResidency) → Memᴰ g (candidates b) → Entry b g
  candidate-Entry b g m = All-Memᴰ (Entry b) m (
      All-collect (Entry b) model v b gpus ([], [])
        (All-map (λ e. Memᴰ e gpus) (λ e. Suits model v b e.1 → Entry b e.1) gpus
          (λ e i s. (e.0, i, s)) (All-self gpus))
        (side_nil b (Entry b)))

  candidates_bound :
      (b : Bool) (P : GpuResidency → Type 0)
      → All P (candidates b)
      → All (λ e. Suits model v b e.1 → P e.1) gpus
  candidates_bound b P h = (All-of_collect P model v b gpus ([], []) h).0

no_room :
    (model : String) (v : ℤ) (gpus : Map GpuResidency)
    → All (λ e. Suits model v true e.1 → ⊥) gpus
    → All (λ e. Suits model v false e.1 → ⊥) gpus
    → All (λ e. available e.1 <ℤ v) gpus
no_room model v [] h k = tt
no_room model v ((u, g) ∷ gpus) h k = (
  elim (Bool-cases (leb_ℤ v (available g))) [
    | inr full ↦ leb_ℤ→lt v (available g) full
    | inl room ↦ elim (Bool-cases (is_loaded g model)) [
      | inl l ↦ absurd (h.0 (leb_ℤ→le v (available g) room, l))
      | inr l ↦ absurd (k.0 (leb_ℤ→le v (available g) room, l))
    ]
  ],
  no_room model v gpus h.1 k.1,
)

-- `Schedule` returns nil exactly when no GPU has room. Otherwise it returns the data of a registered GPU with room; of the GPUs with room that agree with it on holding the model none has more memory available; and it returns a cold one only if no GPU with room holds the model.
pub schedule-Choice :
    (s : Scheduler) (model : String) (v : ℤ) → Choice s.gpus model v (schedule s model v)
unfolding schedule
schedule-Choice s model v = elim (first_candidate-Best true (candidates s.gpus model v true)) [
  | best g m e top ↦
      let (uuid, i, suits) = candidate-Entry s.gpus model v true g m in
      chosen uuid g true i suits (rw e)
        (candidates_bound s.gpus model v true (λ h. available h ≤ℤ available g) top) (λ p. cc)
  | no_candidate w e ↦
      let no_warm = candidates_bound s.gpus model v true (λ h. ⊥) (rw w tt) in
      elim (first_candidate-Best false (candidates s.gpus model v false)) [
        | best g m f top ↦
            let (uuid, i, suits) = candidate-Entry s.gpus model v false g m in
            chosen uuid g false i suits (rw (e, f))
              (candidates_bound s.gpus model v false (λ h. available h ≤ℤ available g) top)
              (λ p. no_warm)
        | no_candidate c f ↦ nothing (rw (e, f)) (
            no_room model v s.gpus no_warm
              (candidates_bound s.gpus model v false (λ h. ⊥) (rw c tt)))
      ]
]
