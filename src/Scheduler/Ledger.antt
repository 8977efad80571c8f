-- ===== src/Scheduler/Ledger.antt =====
-- What the books of the scheduler stand for: a ledger of leases, each an amount that one worker
-- holds on one GPU. `Allocate` opens a lease and `Release` of what a worker holds closes it.
use aether_runner.Base.{
  ◌≡◌, refl, ◌≢◌, inl, inr, String, ◌==◌, eq_iff, true, false, ◌&&◌, List, [], ◌∷◌, ◌++◌, arith,
  Bool-cases, All, if◌then◌else◌,
}
use aether_runner.Base.Int.{ℤ, pos, ◌≤ℤ◌, ◌+ℤ◌, int_laws}
use aether_runner.Scheduler.{GpuResidency, Scheduler, without_worker}

pub record Lease : Type 0 where
  pub gpu : String
  pub worker : String
  pub vram : ℤ

-- The leases on one GPU.
unfoldable pub on : String → List Lease → List Lease
on uuid [] = []
on uuid (l ∷ ls) = let rest = on uuid ls in if l.gpu == uuid then l ∷ rest else rest

unfoldable pub total : List Lease → ℤ
total [] = pos 0
total (l ∷ ls) = l.vram +ℤ total ls

unfoldable pub workers : List Lease → List String
workers [] = []
workers (l ∷ ls) = l.worker ∷ workers ls

-- What a worker holds on a GPU, and the ledger without it.
unfoldable pub held : String → String → List Lease → ℤ
held uuid w [] = pos 0
held uuid w (l ∷ ls) =
    let rest = held uuid w ls in if l.gpu == uuid && l.worker == w then l.vram +ℤ rest else rest

unfoldable pub close : String → String → List Lease → List Lease
close uuid w [] = []
close uuid w (l ∷ ls) =
    let rest = close uuid w ls in if l.gpu == uuid && l.worker == w then rest else l ∷ rest

abbrev pub NonNeg : List Lease → Type 0
NonNeg = All (λ l. pos 0 ≤ℤ l.vram)

-- A GPU's books agree with the ledger.
abbrev pub Agrees : List Lease → String × GpuResidency → Type 0
Agrees ls (uuid, g) =
    (g.allocated_vram ≡ total (on uuid ls)) × (g.active_workers ≡ workers (on uuid ls))

abbrev pub Books : Scheduler → List Lease → Type 0
Books s ls = All (Agrees ls) s.gpus

-- A lease that is opened shows on its own GPU only.
pub on-append_self :
    (uuid : String) (ls : List Lease) (l : Lease)
    → (l.gpu == uuid) ≡ true
    → on uuid (ls ++ l ∷ []) ≡ on uuid ls ++ l ∷ []
unfolding on
on-append_self uuid [] l h = rw h
on-append_self uuid (k ∷ ls) l h = ground (arith, on-append_self uuid ls l h)

pub on-append_ne :
    (uuid : String) (ls : List Lease) (l : Lease)
    → (l.gpu == uuid) ≡ false
    → on uuid (ls ++ l ∷ []) ≡ on uuid ls
unfolding on
on-append_ne uuid [] l h = rw h
on-append_ne uuid (k ∷ ls) l h = ground (arith, on-append_ne uuid ls l h)

pub total-append : (ls : List Lease) (l : Lease) → total (ls ++ l ∷ []) ≡ total ls +ℤ l.vram
unfolding total
total-append [] l = omega int_laws
total-append (k ∷ ls) l = rw (total-append ls l) (omega int_laws)

pub workers-append :
    (ls : List Lease) (l : Lease) → workers (ls ++ l ∷ []) ≡ workers ls ++ l.worker ∷ []
unfolding workers
workers-append [] l = refl
workers-append (k ∷ ls) l = rw (workers-append ls l)

pub total-on-close :
    (uuid w : String) (ls : List Lease)
    → total (on uuid ls) ≡ total (on uuid (close uuid w ls)) +ℤ held uuid w ls
unfolding total on close held
total-on-close uuid w [] = omega int_laws
total-on-close uuid w (l ∷ ls) = elim (Bool-cases (l.gpu == uuid)) [
  | inr a ↦ rw (a, a) (total-on-close uuid w ls)
  | inl a ↦ elim (Bool-cases (l.worker == w)) [
    | inl b ↦ rw (a, b, total-on-close uuid w ls) (omega int_laws)
    | inr b ↦ rw (a, b, a, total-on-close uuid w ls) (omega int_laws)
  ]
]

pub workers-on-close :
    (uuid w : String) (ls : List Lease)
    → workers (on uuid (close uuid w ls)) ≡ without_worker w (workers (on uuid ls))
unfolding workers on close without_worker
workers-on-close uuid w [] = refl
workers-on-close uuid w (l ∷ ls) = ground (arith, workers-on-close uuid w ls)

pub on-close_ne :
    (uuid other w : String) (ls : List Lease)
    → other ≢ uuid
    → on other (close uuid w ls) ≡ on other ls
unfolding on close
on-close_ne uuid other w [] n = refl
on-close_ne uuid other w (l ∷ ls) n =
    ground (arith, on-close_ne uuid other w ls n, eq_iff l.gpu uuid, eq_iff l.gpu other)

pub total_nonneg : (uuid : String) (ls : List Lease) → NonNeg ls → pos 0 ≤ℤ total (on uuid ls)
unfolding total on
total_nonneg uuid [] h = omega arith
total_nonneg uuid (l ∷ ls) h = elim (Bool-cases (l.gpu == uuid)) [
  | inl a ↦ rw a (omega (int_laws, h.0, total_nonneg uuid ls h.1))
  | inr a ↦ rw a (total_nonneg uuid ls h.1)
]

pub held_nonneg : (uuid w : String) (ls : List Lease) → NonNeg ls → pos 0 ≤ℤ held uuid w ls
unfolding held
held_nonneg uuid w [] h = omega arith
held_nonneg uuid w (l ∷ ls) h = elim (Bool-cases (l.gpu == uuid && l.worker == w)) [
  | inl a ↦ rw a (omega (int_laws, h.0, held_nonneg uuid w ls h.1))
  | inr a ↦ rw a (held_nonneg uuid w ls h.1)
]

pub close-NonNeg : (uuid w : String) (ls : List Lease) → NonNeg ls → NonNeg (close uuid w ls)
unfolding close
close-NonNeg uuid w [] h = tt
close-NonNeg uuid w (l ∷ ls) h = elim (Bool-cases (l.gpu == uuid && l.worker == w)) [
  | inl a ↦ rw a (close-NonNeg uuid w ls h.1)
  | inr a ↦ rw a (h.0, close-NonNeg uuid w ls h.1)
]
