-- ===== src/Scheduler/Accounting.antt =====
-- The books of the scheduler: what `RegisterGPU`, `Allocate` and `Release` keep true of each GPU.
use aether_runner.Base.{
  ◌≡◌, refl, ◌⊎◌, ◌∙◌, inl, inr, String, some, arith, ◌<◌, Bool-cases, Option-cases, All, All-Memᴰ,
  if◌then◌else◌, false, true,
}
use aether_runner.Base.Int.{ℤ, pos, pos_part, ◌≤ℤ◌, ◌+ℤ◌, ◌-ℤ◌, ltb_ℤ, ltb_ℤ→le, int_laws}
use aether_runner.Base.Machine.{half_range, add64_exact, sub64_exact, sub64, add64}
use aether_runner.Base.Assoc.{lookup, insert, insert-Distinct, All-insert, Memᴰ-lookup}
use aether_runner.Scheduler.{
  GpuResidency, Scheduler, available, register_gpu, reserve, allocate, free, release,
}
use aether_runner.Scheduler.Agreement.{IsKeyed}

-- 0 ≤ allocated ≤ total, and the total is an `int`.
pub record IsSound (g : GpuResidency) : Type 0 where
  pub allocated_nonneg : pos 0 ≤ℤ g.allocated_vram
  pub allocated_le : g.allocated_vram ≤ℤ g.total_vram_mb
  pub total_fits : pos_part g.total_vram_mb < half_range

pub record Inv (s : Scheduler) : Type 0 where
  pub keyed : IsKeyed s.gpus
  pub sound : All (λ e. IsSound e.1) s.gpus

-- On a sound GPU the subtraction does not wrap.
pub available_exact :
    (g : GpuResidency) → IsSound g → available g ≡ g.total_vram_mb -ℤ g.allocated_vram
unfolding available
available_exact g h =
    sub64_exact g.total_vram_mb g.allocated_vram
      (omega (int_laws, h.allocated_nonneg, h.allocated_le))

-- A reservation that passes the check is an exact sum.
pub reserve_exact :
    (g : GpuResidency) (w m : String) (v : ℤ)
    → IsSound g
    → pos 0 ≤ℤ v
    → v ≤ℤ available g
    → (reserve g w m v).allocated_vram ≡ g.allocated_vram +ℤ v
unfolding reserve
reserve_exact g w m v h p r =
    let room : v ≤ℤ g.total_vram_mb -ℤ g.allocated_vram = rw (available_exact g h) at r in
    add64_exact g.allocated_vram v
      (omega (int_laws, h.allocated_nonneg, h.allocated_le, h.total_fits))

pub reserve-IsSound :
    (g : GpuResidency) (w m : String) (v : ℤ)
    → IsSound g
    → pos 0 ≤ℤ v
    → v ≤ℤ available g
    → IsSound (reserve g w m v)
unfolding reserve
reserve-IsSound g w m v h p r =
    let room : v ≤ℤ g.total_vram_mb -ℤ g.allocated_vram = rw (available_exact g h) at r in
    let exact : add64 g.allocated_vram v ≡ g.allocated_vram +ℤ v = reserve_exact g w m v h p r in
    record {
      allocated_nonneg = rw exact (omega int_laws);
      allocated_le = rw exact (omega int_laws);
      total_fits = h.total_fits;
    }

-- Of what is freed no more is taken off than there is.
pub free_exact :
    (g : GpuResidency) (w : String) (v : ℤ)
    → IsSound g
    → pos 0 ≤ℤ v
    → pos_part v < half_range
    → (free g w v).allocated_vram
      ≡ (if ltb_ℤ (g.allocated_vram -ℤ v) (pos 0) then pos 0 else g.allocated_vram -ℤ v)
unfolding free
free_exact g w v h p f =
    let exact : sub64 g.allocated_vram v ≡ g.allocated_vram -ℤ v =
      sub64_exact g.allocated_vram v
        (omega (int_laws, h.allocated_nonneg, h.allocated_le, h.total_fits)) in
    rw exact

cut_bounds :
    (a v t : ℤ)
    → pos 0 ≤ℤ a
    → a ≤ℤ t
    → pos 0 ≤ℤ v
    → let r = if ltb_ℤ (a -ℤ v) (pos 0) then pos 0 else a -ℤ v in (pos 0 ≤ℤ r) × (r ≤ℤ t)
cut_bounds a v t p q r = elim (Bool-cases (ltb_ℤ (a -ℤ v) (pos 0))) [
  | inl e ↦ rw e (omega int_laws, omega int_laws)
  | inr e ↦ rw e (ltb_ℤ→le (a -ℤ v) (pos 0) e, omega int_laws)
]

pub free-IsSound :
    (g : GpuResidency) (w : String) (v : ℤ)
    → IsSound g
    → pos 0 ≤ℤ v
    → pos_part v < half_range
    → IsSound (free g w v)
unfolding free
free-IsSound g w v h p f =
    let (low, high) =
      cut_bounds g.allocated_vram v g.total_vram_mb h.allocated_nonneg h.allocated_le p in
    record {
      allocated_nonneg = rw (free_exact g w v h p f) low;
      allocated_le = rw (free_exact g w v h p f) high;
      total_fits = h.total_fits;
    }

-- Registering a GPU, also over one that is there, with a total that is at least 0 and fits in 64 bits keeps the map keyed and every GPU's books within its memory.
pub register_gpu-Inv :
    (s : Scheduler) (uuid : String) (index total : ℤ)
    → Inv s
    → pos 0 ≤ℤ total
    → pos_part total < half_range
    → Inv (register_gpu s uuid index total)
unfolding register_gpu
register_gpu-Inv s uuid index total v p f = record {
  keyed = record {
    distinct = insert-Distinct uuid _ s.gpus v.keyed.distinct;
    uuids = All-insert (λ e. e.1.gpu_uuid ≡ e.0) uuid _ s.gpus refl v.keyed.uuids;
  };
  sound =
      All-insert (λ e. IsSound e.1) uuid _ s.gpus
        (record { allocated_nonneg = omega arith; allocated_le = omega arith; total_fits = f })
        v.sound;
}

-- A write over the GPU that the map holds under a key.
write-Inv :
    (s : Scheduler) (uuid : String) (g g' : GpuResidency)
    → Inv s
    → lookup uuid s.gpus ≡ some g
    → g'.gpu_uuid ≡ g.gpu_uuid
    → IsSound g'
    → Inv (record s { gpus = insert uuid g' s.gpus })
write-Inv s uuid g g' v e same sound = record {
  keyed = record {
    distinct = insert-Distinct uuid g' s.gpus v.keyed.distinct;
    uuids =
        All-insert (λ p. p.1.gpu_uuid ≡ p.0) uuid g' s.gpus
          (same ∙ All-Memᴰ (λ p. p.1.gpu_uuid ≡ p.0) (Memᴰ-lookup uuid g s.gpus e) v.keyed.uuids)
          v.keyed.uuids;
  };
  sound = All-insert (λ p. IsSound p.1) uuid g' s.gpus sound v.sound;
}

pub found-IsSound :
    (s : Scheduler) (uuid : String) (g : GpuResidency)
    → Inv s
    → lookup uuid s.gpus ≡ some g
    → IsSound g
found-IsSound s uuid g v e = All-Memᴰ (λ p. IsSound p.1) (Memᴰ-lookup uuid g s.gpus e) v.sound

-- `Allocate` on both branches: it refuses, or it writes the reservation on a GPU with room.
pub allocate_cases :
    (s : Scheduler) (uuid worker_id model : String) (v : ℤ)
    → (allocate s uuid worker_id model v ≡ (s, false))
      ⊎ ((g : GpuResidency) × (lookup uuid s.gpus ≡ some g)
          × (v ≤ℤ available g)
          × (allocate s uuid worker_id model v
              ≡ (record s { gpus = insert uuid (reserve g worker_id model v) s.gpus }, true)))
unfolding allocate
allocate_cases s uuid worker_id model v = elim (Option-cases (lookup uuid s.gpus)) [
  | inl e ↦ inl (rw (e, allocate))
  | inr (g, e) ↦ elim (Bool-cases (ltb_ℤ (available g) v)) [
    | inl full ↦ inl (rw (e, allocate, full))
    | inr room ↦ inr (g, e, ltb_ℤ→le (available g) v room, rw (e, allocate, room))
  ]
]

-- `Allocate` of an amount that is at least 0 keeps the map keyed and every GPU's books within its memory, whether it succeeds or not.
pub allocate-Inv :
    (s : Scheduler) (uuid worker_id model : String) (v : ℤ)
    → Inv s
    → pos 0 ≤ℤ v
    → Inv (allocate s uuid worker_id model v).0
unfolding reserve
allocate-Inv s uuid worker_id model v i p = elim (allocate_cases s uuid worker_id model v) [
  | inl q ↦ rw q i
  | inr (g, e, room, q) ↦ rw q (
      write-Inv s uuid g (reserve g worker_id model v) i e refl
        (reserve-IsSound g worker_id model v (found-IsSound s uuid g i e) p room))
]

-- `Release` of an amount that is at least 0 and fits in 64 bits keeps the map keyed and every GPU's books within its memory, also where it is more than is allocated.
pub release-Inv :
    (s : Scheduler) (uuid worker_id : String) (v : ℤ)
    → Inv s
    → pos 0 ≤ℤ v
    → pos_part v < half_range
    → Inv (release s uuid worker_id v)
unfolding release free
release-Inv s uuid worker_id v i p f = elim (Option-cases (lookup uuid s.gpus)) [
  | inl e ↦ rw (e, release) i
  | inr (g, e) ↦
      rw (e, release)
        (write-Inv s uuid g (free g worker_id v) i e refl
          (free-IsSound g worker_id v (found-IsSound s uuid g i e) p f))
]
