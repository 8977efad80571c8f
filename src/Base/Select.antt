-- ===== src/Base/Select.antt =====
-- The shape that the loops over maps share: the entries that pass a test, each mapped.
use mathlib.Core.Path.{◌≡◌, refl, ap, subst}
use mathlib.Core.Logic.{◌↔◌, inl, inr}
use mathlib.Core.Bool.{Bool, true}
use mathlib.Core.List.{List, [], ◌∷◌, Memᴰ}
use Prim.Native.String.{String}
use aether_runner.Base.Tests.{if◌then◌else◌, Bool-cases}
use aether_runner.Base.Assoc.{Map}

module _ {V B : Type 0} (test : V → Bool) (f : V → B) where
  unfoldable pub select : Map V → List B
  select [] = []
  select ((id, r) ∷ ws) = let rest = select ws in if test r then f r ∷ rest else rest

  abbrev pub Selected : Map V → B → Type 0
  Selected ws b = (id : String) × (r : V) × Memᴰ (id, r) ws × (test r ≡ true) × (b ≡ f r)

  pub select_sound : (ws : Map V) (b : B) → Memᴰ b (select ws) → Selected ws b
  unfolding select
  select_sound [] b m = elim m [ ]
  select_sound ((id, r) ∷ ws) b m = elim (Bool-cases (test r)) [
    | inl t ↦ split (select_sound ws b) t (rw t at m)
    | inr t ↦ later (select_sound ws b (rw t at m))
  ]
    where
      later : Selected ws b → Selected ((id, r) ∷ ws) b
      later (k, q, i, t, e) = (k, q, Memᴰ.tail i, t, e)

      split :
          (Memᴰ b (select ws) → Selected ws b)
          → test r ≡ true
          → Memᴰ b (f r ∷ select ws)
          → Selected ((id, r) ∷ ws) b
      split ih t (Memᴰ.head e) = (id, r, Memᴰ.head refl, t, e)
      split ih t (Memᴰ.tail i) = later (ih i)

  pub select_complete :
      (b : B) (r : V)
      → test r ≡ true
      → b ≡ f r
      → {id : String} {ws : Map V} → Memᴰ (id, r) ws
      → Memᴰ b (select ws)
  unfolding select
  select_complete b r t e (Memᴰ.head {x} p) =
      let same : r ≡ x.1 = ap (λ (q : String × V). q.1) p in
      rw (subst (λ q. test q ≡ true) same t) (Memᴰ.head (subst (λ q. b ≡ f q) same e))
  select_complete b r t e (Memᴰ.tail {x} m) = elim (Bool-cases (test x.1)) [
    | inl s ↦ rw s (Memᴰ.tail (select_complete b r t e m))
    | inr s ↦ rw s (select_complete b r t e m)
  ]

  -- The loop returns what it makes of the entries with the property that the test decides.
  pub select-mem :
      (P : V → Type 0)
      → ((r : V) → (test r ≡ true) ↔ P r)
      → (ws : Map V) (b : B)
      → Memᴰ b (select ws) ↔ ((id : String) × (r : V) × Memᴰ (id, r) ws × P r × (b ≡ f r))
  select-mem P d ws b = (to, λ (id, r, m, p, e). select_complete b r ((d r).1 p) e m)
    where
      to : Memᴰ b (select ws) → (id : String) × (r : V) × Memᴰ (id, r) ws × P r × (b ≡ f r)
      to m = let (id, r, i, t, e) = select_sound ws b m in (id, r, i, (d r).0 t, e)
