-- ===== src/Scheduler/History.antt =====
-- The scheduler under any interleaving of its callers, each call one step.
use aether_runner.Base.{
  ◌≡◌, refl, inl, inr, String, Bool, true, false, List, [], ◌∷◌, ◌++◌, ◌<◌, All-map, All-append,
  Bool-cases, ◌≢◌,
}
use aether_runner.Base.Int.{ℤ, pos, pos_part, ◌≤ℤ◌}
use aether_runner.Base.Machine.{half_range}
use aether_runner.Base.Assoc.{All-insert_apart}
use aether_runner.Scheduler.{Scheduler, new_scheduler, register_gpu, allocate, release}
use aether_runner.Scheduler.Accounting.{Inv, register_gpu-Inv, allocate-Inv}
use aether_runner.Scheduler.Ledger.{
  Lease, on, total, workers, held, close, NonNeg, Agrees, Books, close-NonNeg,
}
use aether_runner.Scheduler.Books.{
  lease, allocate-Books, release-Books, allocate_fails, release-held-Inv,
}

-- The ledger after an `Allocate` that returned `done`.
abbrev opened : Bool → List Lease → Lease → List Lease
opened true ls l = ls ++ l ∷ []
opened false ls l = ls

-- A GPU is registered while nobody holds a lease on it, an amount is not negative, and a worker gives back what it holds.
pub data Step (s : Scheduler) (ls : List Lease) (s' : Scheduler) (ls' : List Lease) : Type 0 where
  registers :
      (uuid : String) (index mb : ℤ)
      → on uuid ls ≡ []
      → pos 0 ≤ℤ mb
      → pos_part mb < half_range
      → s' ≡ register_gpu s uuid index mb
      → ls' ≡ ls
      → Step s ls s' ls'
  allocates :
      (uuid w m : String) (v : ℤ)
      → pos 0 ≤ℤ v
      → s' ≡ (allocate s uuid w m v).0
      → ls' ≡ opened (allocate s uuid w m v).1 ls (lease uuid w v)
      → Step s ls s' ls'
  releases :
      (uuid w : String)
      → s' ≡ release s uuid w (held uuid w ls)
      → ls' ≡ close uuid w ls
      → Step s ls s' ls'

pub data Reach : Scheduler → List Lease → Type 0 where
  start : Reach new_scheduler []
  next : {s s' : Scheduler} {ls ls' : List Lease} → Reach s ls → Step s ls s' ls' → Reach s' ls'

pub record Holds (s : Scheduler) (ls : List Lease) : Type 0 where
  pub inv : Inv s
  pub nonneg : NonNeg ls
  pub books : Books s ls

register_gpu-Books :
    (s : Scheduler) (ls : List Lease) (uuid : String) (index mb : ℤ)
    → Inv s
    → Books s ls
    → on uuid ls ≡ []
    → Books (register_gpu s uuid index mb) ls
unfolding register_gpu total workers
register_gpu-Books s ls uuid index mb i b e =
    All-insert_apart (Agrees ls) uuid _ s.gpus i.keyed.distinct (rw e (refl, refl))
      (All-map (Agrees ls) (λ x. x.0 ≢ uuid → Agrees ls x) s.gpus (λ x a n. a) b)

allocate-Holds :
    (s : Scheduler) (ls : List Lease) (uuid w m : String) (v : ℤ)
    → Holds s ls
    → pos 0 ≤ℤ v
    → Holds (allocate s uuid w m v).0 (opened (allocate s uuid w m v).1 ls (lease uuid w v))
allocate-Holds s ls uuid w m v h p = elim (Bool-cases (allocate s uuid w m v).1) [
  | inl done ↦ record {
    inv = allocate-Inv s uuid w m v h.inv p;
    nonneg = rw done (All-append (λ l. pos 0 ≤ℤ l.vram) ls (lease uuid w v ∷ []) h.nonneg (p, tt));
    books = rw done (allocate-Books s ls uuid w m v h.inv h.books p done);
  }
  | inr failed ↦ rw (failed, allocate_fails s uuid w m v failed) h
]

Step-Holds : {s s' : Scheduler} {ls ls' : List Lease} → Step s ls s' ls' → Holds s ls → Holds s' ls'
Step-Holds {s} {s'} {ls} {ls'} (registers uuid index mb e p f a b) h =
    rw (a, b)
      (record {
        inv = register_gpu-Inv s uuid index mb h.inv p f;
        nonneg = h.nonneg;
        books = register_gpu-Books s ls uuid index mb h.inv h.books e;
      })
Step-Holds {s} {s'} {ls} {ls'} (allocates uuid w m v p a b) h =
    rw (a, b) (allocate-Holds s ls uuid w m v h p)
Step-Holds {s} {s'} {ls} {ls'} (releases uuid w a b) h =
    rw (a, b)
      (record {
        inv = release-held-Inv s ls uuid w h.inv h.nonneg h.books;
        nonneg = close-NonNeg uuid w ls h.nonneg;
        books = release-Books s ls uuid w h.inv h.nonneg h.books;
      })

new_scheduler-Holds : Holds new_scheduler []
unfolding new_scheduler
new_scheduler-Holds = record {
  inv = record { keyed = record { distinct = tt; uuids = tt }; sound = tt };
  nonneg = tt;
  books = tt;
}

-- After any history of the scheduler in which a GPU is registered with a total of at least 0 while nobody has a lease on it, amounts are at least 0 and workers give back exactly what they hold, the memory allocated on each GPU is the sum of the leases on it, between 0 and the GPU's total, and its workers are those of the leases in order.
pub Reach-Holds : {s : Scheduler} {ls : List Lease} → Reach s ls → Holds s ls
Reach-Holds start = new_scheduler-Holds
Reach-Holds (next r st) = Step-Holds st (Reach-Holds r)
