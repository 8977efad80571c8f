-- ===== src/Scheduler/Books.antt =====
-- `Allocate` and `Release` against the ledger: as long as workers give back what they hold, the
-- books of every GPU are the sum of its leases.
use aether_runner.Base.{
  ◌≡◌, sym, ap, ◌∙◌, ◌≢◌, inl, inr, String, true, false, none, some, List, [], ◌∷◌, ◌++◌, arith,
  Bool-cases, Option-cases, All, All-map, All-Memᴰ, text_cases, eq_refl, ◌<◌, if◌then◌else◌,
  All-map₂,
}
use aether_runner.Base.Int.{
  ℤ, pos, pos_part, ◌≤ℤ◌, ◌<ℤ◌, ◌+ℤ◌, ◌-ℤ◌, ltb_ℤ, le→ltb_ℤ, int_laws, +ℤ-ℤ_cancel, neg_part,
}
use aether_runner.Base.Machine.{half_range}
use aether_runner.Base.Assoc.{
  Map, lookup, insert, lookup-insert, All-insert_apart, Memᴰ-lookup, missing-All,
}
use aether_runner.Scheduler.{
  GpuResidency, Scheduler, available, reserve, allocate, free, release, without_worker,
}
use aether_runner.Scheduler.Accounting.{
  IsSound, Inv, allocate_cases, reserve_exact, free_exact, found-IsSound, release-Inv,
}
use aether_runner.Scheduler.Ledger.{
  Lease, on, total, held, close, close-NonNeg, NonNeg, Agrees, Books, on-append_self, on-append_ne,
  total-append, workers-append, total-on-close, workers-on-close, on-close_ne, total_nonneg,
  held_nonneg,
}

-- The lease that a successful `Allocate` opens.
abbrev pub lease : String → String → ℤ → Lease
lease uuid worker_id v = record { gpu = uuid; worker = worker_id; vram = v }

-- A lease on another GPU changes no books here.
Agrees-other :
    (ls : List Lease) (l : Lease) (e : String × GpuResidency)
    → e.0 ≢ l.gpu
    → Agrees ls e
    → Agrees (ls ++ l ∷ []) e
Agrees-other ls l (uuid, g) n a = elim (text_cases l.gpu uuid) [
  | inl (p, _) ↦ absurd (n (sym p))
  | inr (_, t) ↦ rw (on-append_ne uuid ls l t) a
]

Agrees-reserve :
    (ls : List Lease) (uuid w m : String) (v : ℤ) (g : GpuResidency)
    → IsSound g
    → pos 0 ≤ℤ v
    → v ≤ℤ available g
    → Agrees ls (uuid, g)
    → Agrees (ls ++ lease uuid w v ∷ []) (uuid, reserve g w m v)
unfolding reserve
Agrees-reserve ls uuid w m v g s p r a =
    rw (on-append_self uuid ls (lease uuid w v) (eq_refl uuid), total-append, workers-append)
      (reserve_exact g w m v s p r ∙ ap (λ x. x +ℤ v) a.0, ap (λ ws. ws ++ w ∷ []) a.1)

-- On sound GPUs whose books agree with a ledger, a successful `Allocate` of an amount of at least 0 leaves books that agree with the ledger with one lease more, at its end.
pub allocate-Books :
    (s : Scheduler) (ls : List Lease) (uuid w m : String) (v : ℤ)
    → Inv s
    → Books s ls
    → pos 0 ≤ℤ v
    → (allocate s uuid w m v).1 ≡ true
    → Books (allocate s uuid w m v).0 (ls ++ lease uuid w v ∷ [])
allocate-Books s ls uuid w m v i b p h = elim (allocate_cases s uuid w m v) [
  | inl q ↦ let bad : false ≡ true = rw q at h in cc
  | inr (g, e, room, q) ↦
      let l = lease uuid w v in
      rw q (
        All-insert_apart (Agrees (ls ++ l ∷ [])) uuid (reserve g w m v) s.gpus i.keyed.distinct
          (Agrees-reserve ls uuid w m v g (found-IsSound s uuid g i e) p room
            (All-Memᴰ (Agrees ls) (Memᴰ-lookup uuid g s.gpus e) b))
          (All-map (Agrees ls) (λ x. x.0 ≢ uuid → Agrees (ls ++ l ∷ []) x) s.gpus
            (λ x a n. Agrees-other ls l x n a) b))
]

-- `Allocate` that fails changes nothing
pub allocate_fails :
    (s : Scheduler) (uuid w m : String) (v : ℤ)
    → (allocate s uuid w m v).1 ≡ false
    → (allocate s uuid w m v).0 ≡ s
unfolding allocate
allocate_fails s uuid w m v h = ground arith

Agrees-free :
    (ls : List Lease) (uuid w : String) (g : GpuResidency)
    → IsSound g
    → NonNeg ls
    → Agrees ls (uuid, g)
    → Agrees (close uuid w ls) (uuid, free g w (held uuid w ls))
unfolding free
Agrees-free ls uuid w g s n a =
    let left = total (on uuid (close uuid w ls)) in
    let h = held uuid w ls in
    let split : g.allocated_vram ≡ left +ℤ h = a.0 ∙ total-on-close uuid w ls in
    let rest_nonneg : pos 0 ≤ℤ left =
      total_nonneg uuid (close uuid w ls) (close-NonNeg uuid w ls n) in
    let h_nonneg : pos 0 ≤ℤ h = held_nonneg uuid w ls n in
    let exact : g.allocated_vram -ℤ h ≡ left = ap (λ x. x -ℤ h) split ∙ +ℤ-ℤ_cancel left h in
    let freed =
      free_exact g w h s h_nonneg (omega (int_laws, ap pos_part split, ap neg_part split)) in
    (
      freed ∙ rw (exact, le→ltb_ℤ (pos 0) left rest_nonneg),
      ap (without_worker w) a.1 ∙ sym (workers-on-close uuid w ls),
    )

release_missing :
    (s : Scheduler) (uuid w : String) (v : ℤ) → lookup uuid s.gpus ≡ none → release s uuid w v ≡ s
unfolding release
release_missing s uuid w v e = rw (e, release)

-- A worker holds no more than its GPU has allocated.
held_fits :
    (ls : List Lease) (uuid w : String) (g : GpuResidency)
    → IsSound g
    → NonNeg ls
    → Agrees ls (uuid, g)
    → pos_part (held uuid w ls) < half_range
held_fits ls uuid w g s n a =
    let left = total (on uuid (close uuid w ls)) in
    let split : g.allocated_vram ≡ left +ℤ held uuid w ls = a.0 ∙ total-on-close uuid w ls in
    let rest_nonneg : pos 0 ≤ℤ left =
      total_nonneg uuid (close uuid w ls) (close-NonNeg uuid w ls n) in
    omega (
      int_laws,
      ap pos_part split,
      ap neg_part split,
      s.allocated_le,
      s.total_fits,
      held_nonneg uuid w ls n,
    )

pub release-held-Inv :
    (s : Scheduler) (ls : List Lease) (uuid w : String)
    → Inv s
    → NonNeg ls
    → Books s ls
    → Inv (release s uuid w (held uuid w ls))
release-held-Inv s ls uuid w i n b = elim (Option-cases (lookup uuid s.gpus)) [
  | inl e ↦ rw (release_missing s uuid w (held uuid w ls) e) i
  | inr (g, e) ↦ release-Inv s uuid w (held uuid w ls) i (held_nonneg uuid w ls n) (
      held_fits ls uuid w g (found-IsSound s uuid g i e) n
        (All-Memᴰ (Agrees ls) (Memᴰ-lookup uuid g s.gpus e) b))
]

Agrees-close :
    (ls : List Lease) (uuid w : String) (e : String × GpuResidency)
    → e.0 ≢ uuid
    → Agrees ls e
    → Agrees (close uuid w ls) e
Agrees-close ls uuid w (other, g) n a = rw (on-close_ne uuid other w ls n) a

-- A GPU that the map does not hold has a key that no entry has.
Books-missing :
    (s : Scheduler) (ls : List Lease) (uuid w : String)
    → lookup uuid s.gpus ≡ none
    → Books s ls
    → Books s (close uuid w ls)
Books-missing s ls uuid w e b =
    All-map₂ (λ x. x.0 ≢ uuid) (Agrees ls) (Agrees (close uuid w ls)) s.gpus
      (λ x n a. Agrees-close ls uuid w x n a) (missing-All uuid s.gpus e) b

-- On sound GPUs and a ledger of amounts of at least 0 that the books agree with, `Release` of exactly what the worker holds leaves books that agree with the ledger without that worker's leases on that GPU.
pub release-Books :
    (s : Scheduler) (ls : List Lease) (uuid w : String)
    → Inv s
    → NonNeg ls
    → Books s ls
    → Books (release s uuid w (held uuid w ls)) (close uuid w ls)
unfolding release
release-Books s ls uuid w i n b = elim (Option-cases (lookup uuid s.gpus)) [
  | inl e ↦ rw (e, release) (Books-missing s ls uuid w e b)
  | inr (g, e) ↦
      rw (e, release)
        (All-insert_apart (Agrees (close uuid w ls)) uuid (free g w (held uuid w ls)) s.gpus
          i.keyed.distinct
          (Agrees-free ls uuid w g (found-IsSound s uuid g i e) n
            (All-Memᴰ (Agrees ls) (Memᴰ-lookup uuid g s.gpus e) b))
          (All-map (Agrees ls) (λ x. x.0 ≢ uuid → Agrees (close uuid w ls) x) s.gpus
            (λ x a m. Agrees-close ls uuid w x m a) b))
]

cut_changes :
    (a v : ℤ) → pos 0 <ℤ a → pos 0 <ℤ v → (if ltb_ℤ (a -ℤ v) (pos 0) then pos 0 else a -ℤ v) ≢ a
cut_changes a v p q e = elim (Bool-cases (ltb_ℤ (a -ℤ v) (pos 0))) [
  | inl t ↦
      let zero_a : pos 0 ≡ a = rw t at e in omega (arith, p, ap pos_part zero_a, ap neg_part zero_a)
  | inr t ↦
      let same : a -ℤ v ≡ a = rw t at e in
      omega (int_laws, p, q, ap pos_part same, ap neg_part same)
]

-- A worker that holds nothing on a sound GPU with something allocated (its lease is closed already) and gives back a positive amount once more leaves books that are not the sum of the leases.
pub release_twice :
    (s : Scheduler) (ls : List Lease) (uuid w : String) (g : GpuResidency) (v : ℤ)
    → Inv s
    → Books s ls
    → lookup uuid s.gpus ≡ some g
    → held uuid w ls ≡ pos 0
    → pos 0 <ℤ v
    → pos_part v < half_range
    → pos 0 <ℤ g.allocated_vram
    → ¬ Books (release s uuid w v) (close uuid w ls)
unfolding release
release_twice s ls uuid w g v i b e h p f a after =
    let sound = found-IsSound s uuid g i e in
    let held_by : Agrees ls (uuid, g) = All-Memᴰ (Agrees ls) (Memᴰ-lookup uuid g s.gpus e) b in
    let g' = free g w v in
    let entries : Map GpuResidency = insert uuid g' s.gpus in
    let new : All (Agrees (close uuid w ls)) entries = rw (e, release) at after in
    let written : lookup uuid entries ≡ some g' =
      lookup-insert uuid uuid g' s.gpus ∙ rw (eq_refl uuid) in
    let freed : Agrees (close uuid w ls) (uuid, g') =
      All-Memᴰ (Agrees (close uuid w ls)) (Memᴰ-lookup uuid g' entries written) new in
    let left = total (on uuid (close uuid w ls)) in
    let split : g.allocated_vram ≡ left +ℤ pos 0 =
      held_by.0 ∙ total-on-close uuid w ls ∙ ap (λ x. left +ℤ x) h in
    let same : left ≡ g.allocated_vram = omega (int_laws, ap pos_part split, ap neg_part split) in
    cut_changes g.allocated_vram v a p
      (sym (free_exact g w v sound (omega arith) f) ∙ freed.0 ∙ same)
