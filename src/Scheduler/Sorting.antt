-- ===== src/Scheduler/Sorting.antt =====
-- The sorting of candidates: it loses no GPU, and the first one has the most memory available.
use aether_runner.Base.{
  ◌≡◌, refl, Bool, Option, none, some, List, [], ◌∷◌, arith, inl, inr, Bool-cases, Memᴰ, All,
  All-self,
}
use aether_runner.Base.Int.{ℤ, ◌≤ℤ◌, ltb_ℤ}
use aether_runner.Scheduler.{
  GpuResidency, ScheduleResult, available, more_available, insert_sorted, sort_slice,
  first_candidate, to_result,
}

-- What holds of every GPU that is sorted holds of every GPU in the result, and the other way round.
module _ (P : GpuResidency → Type 0) where
  All-insert_sorted :
      (x : GpuResidency) (gs : List GpuResidency) → P x → All P gs → All P (insert_sorted x gs)
  unfolding insert_sorted
  All-insert_sorted x [] p h = (p, tt)
  All-insert_sorted x (g ∷ gs) p h = elim (Bool-cases (more_available x g)) [
    | inl e ↦ rw e (p, h)
    | inr e ↦ rw e (h.0, All-insert_sorted x gs p h.1)
  ]

  All-of_insert_sorted :
      (x : GpuResidency) (gs : List GpuResidency) → All P (insert_sorted x gs) → P x × All P gs
  unfolding insert_sorted
  All-of_insert_sorted x [] h = h
  All-of_insert_sorted x (g ∷ gs) h = elim (Bool-cases (more_available x g)) [
    | inl e ↦ rw e at h
    | inr e ↦
        let later : P g × All P (insert_sorted x gs) = rw e at h in
        let (p, ps) = All-of_insert_sorted x gs later.1 in (p, (later.0, ps))
  ]

  pub All-sort_slice :
      (sorted gs : List GpuResidency) → All P sorted → All P gs → All P (sort_slice sorted gs)
  unfolding sort_slice
  All-sort_slice sorted [] h k = h
  All-sort_slice sorted (g ∷ gs) h k =
      All-sort_slice (insert_sorted g sorted) gs (All-insert_sorted g sorted k.0 h) k.1

  pub All-of_sort_slice :
      (sorted gs : List GpuResidency) → All P (sort_slice sorted gs) → All P sorted × All P gs
  unfolding sort_slice
  All-of_sort_slice sorted [] h = (h, tt)
  All-of_sort_slice sorted (g ∷ gs) h =
      let (front, back) = All-of_sort_slice (insert_sorted g sorted) gs h in
      let (p, ps) = All-of_insert_sorted g sorted front in (ps, (p, back))

-- Along the list the available memory never grows.
abbrev Descending : List GpuResidency → Type 0
Descending [] = Unit
Descending (g ∷ gs) = All (λ h. available h ≤ℤ available g) gs × Descending gs

All-mono :
    (a b : ℤ) (gs : List GpuResidency)
    → a ≤ℤ b
    → All (λ h. available h ≤ℤ a) gs
    → All (λ h. available h ≤ℤ b) gs
All-mono a b [] l h = tt
All-mono a b (g ∷ gs) l h = (omega arith, All-mono a b gs l h.1)

insert_sorted-Descending :
    (x : GpuResidency) (gs : List GpuResidency) → Descending gs → Descending (insert_sorted x gs)
unfolding insert_sorted more_available
insert_sorted-Descending x [] d = (tt, tt)
insert_sorted-Descending x (g ∷ gs) d = elim (Bool-cases (ltb_ℤ (available g) (available x))) [
  | inl e ↦ rw e ((ground arith, All-mono (available g) (available x) gs (ground arith) d.0), d)
  | inr e ↦ rw e (
    All-insert_sorted (λ h. available h ≤ℤ available g) x gs (ground arith) d.0,
    insert_sorted-Descending x gs d.1,
  )
]

sort_slice-Descending :
    (sorted gs : List GpuResidency) → Descending sorted → Descending (sort_slice sorted gs)
unfolding sort_slice
sort_slice-Descending sorted [] d = d
sort_slice-Descending sorted (g ∷ gs) d =
    sort_slice-Descending (insert_sorted g sorted) gs (insert_sorted-Descending g sorted d)

pub data Best (is_warm : Bool) (gs : List GpuResidency) (o : Option ScheduleResult) : Type 0 where
  no_candidate : gs ≡ [] → o ≡ none → Best is_warm gs o
  best :
      (g : GpuResidency)
      → Memᴰ g gs
      → o ≡ some (to_result is_warm g)
      → All (λ h. available h ≤ℤ available g) gs
      → Best is_warm gs o

not_empty : (x : GpuResidency) (gs : List GpuResidency) → All (λ h. ⊥) (sort_slice [] (x ∷ gs)) → ⊥
not_empty x gs h = (All-of_sort_slice (λ h. ⊥) [] (x ∷ gs) h).1.0

head-Best :
    (is_warm : Bool) (x : GpuResidency) (xs sorted : List GpuResidency)
    → sort_slice [] (x ∷ xs) ≡ sorted
    → Best is_warm (x ∷ xs) (first_candidate is_warm sorted)
unfolding first_candidate
head-Best is_warm x xs [] e = absurd (not_empty x xs (rw e tt))
head-Best is_warm x xs (g ∷ gs) e =
    let placed : All (λ h. Memᴰ h (x ∷ xs)) (g ∷ gs) =
      rw e at (All-sort_slice (λ h. Memᴰ h (x ∷ xs)) [] (x ∷ xs) tt (All-self (x ∷ xs))) in
    let order : Descending (g ∷ gs) = rw e at (sort_slice-Descending [] (x ∷ xs) tt) in
    let top : All (λ h. available h ≤ℤ available g) (sort_slice [] (x ∷ xs)) =
      rw e (omega arith, order.0) in
    best g placed.0 refl (All-of_sort_slice (λ h. available h ≤ℤ available g) [] (x ∷ xs) top).1

-- The first of the sorted candidates is one of them, and no other has more memory available.
pub first_candidate-Best :
    (is_warm : Bool) (gs : List GpuResidency)
    → Best is_warm gs (first_candidate is_warm (sort_slice [] gs))
unfolding first_candidate sort_slice
first_candidate-Best is_warm [] = no_candidate refl refl
first_candidate-Best is_warm (x ∷ xs) = head-Best is_warm x xs (sort_slice [] (x ∷ xs)) refl
