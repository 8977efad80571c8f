-- ===== src/Scheduler/Agreement.antt =====
-- `Schedule` beside the other questions about room: `HasAvailableGPU`, `CanSliceGPU`, `Allocate`,
-- and `Schedule` itself when the map is visited in another order.
use aether_runner.Base.{
  ◌≡◌, refl, sym, ◌∙◌, ap, ◌≢◌, ◌↔◌, inl, inr, String, Bool, true, false, Option, none, some, [],
  ◌∷◌, arith, Bool-cases, Memᴰ, All, All-Memᴰ,
}
use aether_runner.Base.Int.{ℤ, ◌≤ℤ◌, ◌<ℤ◌, leb_ℤ, ltb_ℤ, le→leb_ℤ, le→ltb_ℤ, eq_of_parts}
use aether_runner.Base.Assoc.{Map, lookup, Distinct, lookup-Memᴰ}
use aether_runner.Scheduler.{
  GpuResidency, Scheduler, ScheduleResult, available, to_result, schedule, has_available_gpu,
  can_slice_gpu, allocate,
}
use aether_runner.Scheduler.Placement.{Suits, Choice, nothing, chosen, schedule-Choice}

has_available_gpu_of_mem :
    (v : ℤ) {e : String × GpuResidency} {gpus : Map GpuResidency}
    → Memᴰ e gpus
    → v ≤ℤ available e.1
    → has_available_gpu gpus v ≡ true
unfolding has_available_gpu
has_available_gpu_of_mem v (Memᴰ.head {x} {xs} p) h = rw (le→leb_ℤ v (available x.1) (rw p at h))
has_available_gpu_of_mem v (Memᴰ.tail {x} m) h = elim (Bool-cases (leb_ℤ v (available x.1))) [
  | inl e ↦ rw e
  | inr e ↦ rw e (has_available_gpu_of_mem v m h)
]

has_available_gpu_of_none :
    (v : ℤ) (gpus : Map GpuResidency)
    → All (λ e. available e.1 <ℤ v) gpus
    → has_available_gpu gpus v ≡ false
unfolding has_available_gpu
has_available_gpu_of_none v [] h = refl
has_available_gpu_of_none v ((u, g) ∷ gpus) h = ground (arith, has_available_gpu_of_none v gpus h.1)

-- `HasAvailableGPU` says yes exactly when `Schedule` finds a GPU, whatever the model.
pub has_available_gpu-schedule :
    (s : Scheduler) (model : String) (v : ℤ)
    → (has_available_gpu s.gpus v ≡ true) ↔ (schedule s model v ≢ none)
has_available_gpu-schedule s model v = elim (schedule-Choice s model v) [
  | nothing e h ↦ (
    λ p. let bad : false ≡ true = sym (has_available_gpu_of_none v s.gpus h) ∙ p in cc,
    λ n. absurd (n e),
  )
  | chosen u g b m suits e top warm ↦ (λ p q. cc, λ n. has_available_gpu_of_mem v m suits.0)
]

-- What a caller sees of a result that does not depend on which of two equal GPUs was taken.
abbrev pub quality : Option ScheduleResult → Option (Bool × ℤ)
quality none = none
quality (some r) = some (r.is_warm_start, r.available_ram)

abbrev pub SameEntries : Map GpuResidency → Map GpuResidency → Type 0
SameEntries a b = (e : String × GpuResidency) → Memᴰ e a ↔ Memᴰ e b

same_best :
    (model : String) (v : ℤ) (warm : Bool) {a b : Map GpuResidency} {u u' : String}
    {g g' : GpuResidency}
    → SameEntries a b
    → Memᴰ (u, g) a
    → Memᴰ (u', g') b
    → Suits model v warm g
    → Suits model v warm g'
    → All (λ e. Suits model v warm e.1 → available e.1 ≤ℤ available g) a
    → All (λ e. Suits model v warm e.1 → available e.1 ≤ℤ available g') b
    → available g ≡ available g'
same_best model v warm {g} {g'} same m m' s s' top top' =
    let up : available g ≤ℤ available g' =
      All-Memᴰ (λ e. Suits model v warm e.1 → available e.1 ≤ℤ available g') ((same _).0 m) top'
        s in
    let down : available g' ≤ℤ available g =
      All-Memᴰ (λ e. Suits model v warm e.1 → available e.1 ≤ℤ available g) ((same _).1 m') top
        s' in
    eq_of_parts (available g) (available g') (omega arith)

module _ (model : String) (v : ℤ) {a b : Map GpuResidency} {o p : Option ScheduleResult} where
  same_quality : SameEntries a b → Choice a model v o → Choice b model v p → quality o ≡ quality p
  unfolding to_result
  same_quality same (nothing e _) (nothing f _) = rw (e, f)
  same_quality same (nothing e h) (chosen u g w m s _ _ _) =
      absurd (omega (arith, s.0, All-Memᴰ (λ e. available e.1 <ℤ v) ((same (u, g)).1 m) h))
  same_quality same (chosen u g w m s _ _ _) (nothing e h) =
      absurd (omega (arith, s.0, All-Memᴰ (λ e. available e.1 <ℤ v) ((same (u, g)).0 m) h))
  same_quality same (chosen u g true m s e top _) (chosen u' g' false m' s' e' top' cold) =
      absurd (All-Memᴰ (λ e. Suits model v true e.1 → ⊥) ((same (u, g)).0 m) (cold refl) s)
  same_quality same (chosen u g false m s e top cold) (chosen u' g' true m' s' e' top' _) =
      absurd (All-Memᴰ (λ e. Suits model v true e.1 → ⊥) ((same (u', g')).1 m') (cold refl) s')
  same_quality same (chosen u g true m s e top _) (chosen u' g' true m' s' e' top' _) =
      rw (e, e', to_result)
        (ap (λ (x : ℤ). some (true, x)) (same_best model v true same m m' s s' top top'))
  same_quality same (chosen u g false m s e top _) (chosen u' g' false m' s' e' top' _) =
      rw (e, e', to_result)
        (ap (λ (x : ℤ). some (false, x)) (same_best model v false same m m' s s' top top'))

-- Visits of `Schedule` to the same entries in different orders give results that agree in being nil, in being warm and in the memory available.
pub schedule_order :
    (s t : Scheduler) (model : String) (v : ℤ)
    → SameEntries s.gpus t.gpus
    → quality (schedule s model v) ≡ quality (schedule t model v)
schedule_order s t model v same =
    same_quality model v same (schedule-Choice s model v) (schedule-Choice t model v)

-- The map's keys are distinct, and each GPU carries its key as its UUID.
pub record IsKeyed (gpus : Map GpuResidency) : Type 0 where
  pub distinct : Distinct gpus
  pub uuids : All (λ e. e.1.gpu_uuid ≡ e.0) gpus

uuid_of : Option ScheduleResult → String
uuid_of none = ""
uuid_of (some r) = r.gpu_uuid

uuid_of-to_result :
    (warm : Bool) (g : GpuResidency) → uuid_of (some (to_result warm g)) ≡ g.gpu_uuid
unfolding uuid_of to_result
uuid_of-to_result warm g = refl

-- What `Schedule` promises holds at once afterwards, if GPUs are kept under their own UUIDs: the GPU that it names can be sliced by the amount, and `Allocate` for that amount succeeds on it for any worker.
pub schedule-allocate :
    (s : Scheduler) (model worker_id : String) (v : ℤ) (r : ScheduleResult)
    → IsKeyed s.gpus
    → schedule s model v ≡ some r
    → (can_slice_gpu s r.gpu_uuid v ≡ true) × ((allocate s r.gpu_uuid worker_id model v).1 ≡ true)
unfolding can_slice_gpu allocate uuid_of
schedule-allocate s model worker_id v r k h = elim (schedule-Choice s model v) [
  | nothing e _ ↦ let bad : none ≡ some r = sym e ∙ h in cc
  | chosen uuid g warm m suits e _ _ ↦
      let named : r.gpu_uuid ≡ uuid =
        ap uuid_of (sym h ∙ e)
        ∙ uuid_of-to_result warm g
        ∙ All-Memᴰ (λ p. p.1.gpu_uuid ≡ p.0) m k.uuids in
      let found : lookup r.gpu_uuid s.gpus ≡ some g = rw named (lookup-Memᴰ m k.distinct) in
      let room : leb_ℤ v (available g) ≡ true = le→leb_ℤ v (available g) suits.0 in
      let enough : ltb_ℤ (available g) v ≡ false = le→ltb_ℤ v (available g) suits.0 in
      (rw (found, can_slice_gpu, room), rw (found, allocate, enough))
]
