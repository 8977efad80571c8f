-- ===== src/Selection/Passes.antt =====
-- The passes of `SelectWorker` and `SelectWorkerForModel` as searches for a first match.
use aether_runner.Base.{
  ◌≡◌, refl, sym, ◌∙◌, ◌↔◌, inl, inr, String, ◌==◌, Bool, true, false, ◌&&◌, Option, none, some,
  List, [], ◌∷◌, arith, if◌then◌else◌, Bool-cases, Memᴰ, All, eq_iff,
}
use aether_runner.Base.Int.{ℤ, leb_ℤ, ◌≤ℤ◌, leb_ℤ→le, le→leb_ℤ}
use aether_runner.Worker.{WorkerState, get_status, status_idle, GpuAssignment}
use aether_runner.Pool.{Ref, Heap, has_model}
use aether_runner.Selection.{first_warm, first_idle, first_idle_with_room, has_room}

unfoldable pub first_match : (Ref → Bool) → List Ref → Option Ref
first_match test [] = none
first_match test (r ∷ rs) = let rest = first_match test rs in if test r then some r else rest

abbrev pub warm : Heap → String → Ref → Bool
warm h model_name r = (get_status (h r) == status_idle) && has_model (h r).model model_name

abbrev pub idle : Heap → Ref → Bool
idle h r = get_status (h r) == status_idle

abbrev pub roomy : Heap → ℤ → Ref → Bool
roomy h v r = (get_status (h r) == status_idle) && has_room (h r).gpu_assignment v

pub first_warm-first_match :
    (h : Heap) (rs : List Ref) (model_name : String)
    → first_warm h rs model_name ≡ first_match (warm h model_name) rs
unfolding first_warm first_match
first_warm-first_match h [] model_name = refl
first_warm-first_match h (r ∷ rs) model_name =
    ground (arith, first_warm-first_match h rs model_name)

pub first_idle-first_match : (h : Heap) (rs : List Ref) → first_idle h rs ≡ first_match (idle h) rs
unfolding first_idle first_match
first_idle-first_match h [] = refl
first_idle-first_match h (r ∷ rs) = rw (first_idle-first_match h rs)

pub first_idle_with_room-first_match :
    (h : Heap) (rs : List Ref) (v : ℤ) → first_idle_with_room h rs v ≡ first_match (roomy h v) rs
unfolding first_idle_with_room first_match
first_idle_with_room-first_match h [] v = refl
first_idle_with_room-first_match h (r ∷ rs) v =
    ground (arith, first_idle_with_room-first_match h rs v)

-- What a search says of the list.
pub data First (P : Ref → Type 0) (rs : List Ref) (o : Option Ref) : Type 0 where
  nowhere : o ≡ none → All (λ r. ¬ P r) rs → First P rs o
  here : (r : Ref) → o ≡ some r → Memᴰ r rs → P r → First P rs o

pub first_match-First :
    (P : Ref → Type 0) (test : Ref → Bool) (rs : List Ref)
    → ((r : Ref) → (test r ≡ true) ↔ P r)
    → First P rs (first_match test rs)
unfolding first_match
first_match-First P test [] d = nowhere refl tt
first_match-First P test (r ∷ rs) d = elim (Bool-cases (test r)) [
  | inl t ↦ here r (rw (t, first_match)) (Memᴰ.head refl) ((d r).0 t)
  | inr t ↦ elim (first_match-First P test rs d) [
    | nowhere e a ↦
        nowhere (rw (t, first_match) e) (λ q. let bad : false ≡ true = sym t ∙ (d r).1 q in cc, a)
    | here q e m p ↦ here q (rw (t, first_match) e) (Memᴰ.tail m) p
  ]
]

-- An idle worker, one that also holds the model, and one whose GPU share is large enough.
abbrev pub IsIdle : WorkerState → Type 0
IsIdle w = w.status ≡ status_idle

abbrev pub HasModel : String → WorkerState → Type 0
HasModel model_name w = IsIdle w × (has_model w.model model_name ≡ true)

abbrev pub HasRoom : ℤ → WorkerState → Type 0
HasRoom v w =
    IsIdle w × ((g : GpuAssignment) × (w.gpu_assignment ≡ some g) × (v ≤ℤ g.memory_allocated_mb))

pub idle-IsIdle : (h : Heap) (r : Ref) → (idle h r ≡ true) ↔ IsIdle (h r)
unfolding get_status
idle-IsIdle h r = eq_iff (h r).status status_idle

and_iff :
    {P Q : Type 0} (a b : Bool) → ((a ≡ true) ↔ P) → ((b ≡ true) ↔ Q) → ((a && b) ≡ true) ↔ (P × Q)
and_iff true true p q = (λ e. (p.0 e, q.0 e), λ _. refl)
and_iff true false p q = (λ e. let bad : false ≡ true = e in cc, λ x. q.1 x.1)
and_iff false b p q = (λ e. let bad : false ≡ true = e in cc, λ x. p.1 x.0)

pub warm-HasModel :
    (h : Heap) (model_name : String) (r : Ref)
    → (warm h model_name r ≡ true) ↔ HasModel model_name (h r)
warm-HasModel h model_name r =
    and_iff (idle h r) (has_model (h r).model model_name) (idle-IsIdle h r) (λ e. e, λ e. e)

has_room_iff :
    (o : Option GpuAssignment) (v : ℤ)
    → (has_room o v ≡ true) ↔ ((g : GpuAssignment) × (o ≡ some g) × (v ≤ℤ g.memory_allocated_mb))
unfolding has_room
has_room_iff none v =
    (λ e. let bad : false ≡ true = e in cc, λ (g, e, _). let bad : none ≡ some g = e in cc)
has_room_iff (some g) v = (λ e. (g, refl, leb_ℤ→le v g.memory_allocated_mb e), back)
  where
    back :
        ((q : GpuAssignment) × (some g ≡ some q) × (v ≤ℤ q.memory_allocated_mb))
        → leb_ℤ v g.memory_allocated_mb ≡ true
    back (q, e, l) = let same : q ≡ g = cc in le→leb_ℤ v g.memory_allocated_mb (rw same at l)

pub roomy-HasRoom : (h : Heap) (v : ℤ) (r : Ref) → (roomy h v r ≡ true) ↔ HasRoom v (h r)
roomy-HasRoom h v r =
    and_iff (idle h r) (has_room (h r).gpu_assignment v) (idle-IsIdle h r)
      (has_room_iff (h r).gpu_assignment v)
