-- ===== src/Base/Assoc.antt =====
-- Go's maps with text keys, as lists of entries in the order in which a `range` visits them.
-- Go leaves that order open; a statement that holds for every list holds for every order.
use mathlib.Core.Path.{◌≡◌, refl, sym, ap, ap₂, subst}
use mathlib.Core.Logic.{◌≢◌, inl, inr}
use mathlib.Core.Option.{Option, none, some}
use mathlib.Core.List.{List, [], ◌∷◌, Memᴰ}
use native.Mathlib.Omega.{arith}
use text.Mathlib.Text.{◌==◌}
use text.Mathlib.TextEquality.{eq_iff}
use Prim.Native.String.{String}
use aether_runner.Base.Tests.{if◌then◌else◌, text_cases}
use aether_runner.Base.Lists.{All}

abbrev pub Map {ℓ} : Type ℓ → Type ℓ
Map V = List (String × V)

module _ {ℓ} {V : Type ℓ} where
  -- `v, ok := m[k]`
  unfoldable pub lookup : String → Map V → Option V
  lookup k [] = none
  lookup k ((j, v) ∷ m) = if j == k then some v else lookup k m

  -- `m[k] = v`
  unfoldable pub insert : String → V → Map V → Map V
  insert key v [] = (key, v) ∷ []
  insert key v ((j, w) ∷ entries) =
      let rest = insert key v entries in if j == key then (key, v) ∷ entries else (j, w) ∷ rest

  -- `delete(m, k)`
  unfoldable pub delete : String → Map V → Map V
  delete k [] = []
  delete k ((j, v) ∷ m) = let rest = delete k m in if j == k then rest else (j, v) ∷ rest

  abbrev pub keys : Map V → List String
  keys [] = []
  keys ((k, v) ∷ m) = k ∷ keys m

  -- Reading after a write: the new value under its key, else what was there.
  pub lookup-insert :
      (written read : String) (new : V) (old : Map V)
      → lookup read (insert written new old)
        ≡ (if written == read then some new else lookup read old)
  unfolding insert lookup
  lookup-insert written read new [] = refl
  lookup-insert written read new ((key, kept) ∷ entries) =
      let rest = lookup-insert written read new entries in
      ground (arith, rest, eq_iff key read, eq_iff key written, eq_iff written read)

  pub lookup-delete :
      (k j : String) (m : Map V) → lookup j (delete k m) ≡ (if k == j then none else lookup j m)
  unfolding lookup delete
  lookup-delete k j [] = ground arith
  lookup-delete k j ((i, w) ∷ m) =
      ground (arith, eq_iff k j, eq_iff i k, eq_iff i j, lookup-delete k j m)

  -- Every key stands once, as in a map.
  abbrev pub Distinct : Map V → Type 0
  Distinct [] = Unit
  Distinct ((k, v) ∷ m) = All (λ j. j ≢ k) (keys m) × Distinct m

  All-keys :
      (P : String → Type 0) {k : String} {v : V} {m : Map V} → Memᴰ (k, v) m → All P (keys m) → P k
  All-keys P (Memᴰ.head {x} e) h = subst P (sym (ap (λ (q : String × V). q.0) e)) h.0
  All-keys P (Memᴰ.tail i) h = All-keys P i h.1

  -- The entry of a map under its key is what a lookup finds.
  pub lookup-Memᴰ :
      {k : String} {v : V} {m : Map V} → Memᴰ (k, v) m → Distinct m → lookup k m ≡ some v
  unfolding lookup
  lookup-Memᴰ {k} {v} (Memᴰ.head {x} e) d =
      let p : x.0 ≡ k = sym (ap (λ (q : String × V). q.0) e) in
      let q : x.1 ≡ v = sym (ap (λ (q : String × V). q.1) e) in
      ground (arith, (eq_iff x.0 k).1 p, q)
  lookup-Memᴰ {k} {v} (Memᴰ.tail {x} {xs} i) d =
      let apart : k ≢ x.0 = All-keys (λ j. j ≢ x.0) i d.0 in
      elim (text_cases x.0 k) [
        | inl (e, _) ↦ absurd (apart (sym e))
        | inr (_, e) ↦ rw e (lookup-Memᴰ i d.1)
      ]

  pub Memᴰ-lookup : (k : String) (v : V) (m : Map V) → lookup k m ≡ some v → Memᴰ (k, v) m
  unfolding lookup
  Memᴰ-lookup k v [] h = cc
  Memᴰ-lookup k v ((j, w) ∷ m) h = elim (text_cases j k) [
    | inl (e, t) ↦
        let found : some w ≡ some v = rw t at h in
        let q : v ≡ w = cc in Memᴰ.head (ap₂ (λ a b. (a, b)) (sym e) q)
    | inr (_, t) ↦ Memᴰ.tail (Memᴰ-lookup k v m (rw t at h))
  ]

  keys-insert-All :
      (P : String → Type 0) (k : String) (v : V) (m : Map V)
      → P k
      → All P (keys m)
      → All P (keys (insert k v m))
  unfolding insert
  keys-insert-All P k v [] p h = (p, tt)
  keys-insert-All P k v ((j, w) ∷ m) p h = elim (text_cases j k) [
    | inl (_, t) ↦ rw t (p, h.1)
    | inr (_, t) ↦ rw t (h.0, keys-insert-All P k v m p h.1)
  ]

  -- A write keeps the keys apart.
  pub insert-Distinct : (k : String) (v : V) (m : Map V) → Distinct m → Distinct (insert k v m)
  unfolding insert
  insert-Distinct k v [] d = (tt, tt)
  insert-Distinct k v ((j, w) ∷ m) d = elim (text_cases j k) [
    | inl (e, t) ↦ rw t (subst (λ x. All (λ i. i ≢ x) (keys m)) e d.0, d.1)
    | inr (n, t) ↦
        rw t (keys-insert-All (λ i. i ≢ j) k v m (λ p. n (sym p)) d.0, insert-Distinct k v m d.1)
  ]

module _ {ℓ} {V : Type ℓ} where
  -- No entry stands under a key that a lookup does not find.
  pub missing-All :
      (k : String) (m : Map V) → lookup k m ≡ none → All (λ (e : String × V). e.0 ≢ k) m
  unfolding lookup
  missing-All k [] h = tt
  missing-All k ((j, w) ∷ m) h = elim (text_cases j k) [
    | inl (_, t) ↦ let bad : some w ≡ none = rw t at h in cc
    | inr (n, t) ↦ (n, missing-All k m (rw t at h))
  ]

module _ {ℓ κ} {V : Type ℓ} (P : String × V → Type κ) where
  -- What holds of all entries and of the one that is written holds of all entries afterwards.
  pub All-insert : (k : String) (v : V) (m : Map V) → P (k, v) → All P m → All P (insert k v m)
  unfolding insert
  All-insert k v [] p h = (p, tt)
  All-insert k v ((j, w) ∷ m) p h = elim (text_cases j k) [
    | inl (_, t) ↦ rw t (p, h.1)
    | inr (_, t) ↦ rw t (h.0, All-insert k v m p h.1)
  ]

  pub All-delete : (k : String) (m : Map V) → All P m → All P (delete k m)
  unfolding delete
  All-delete k [] h = tt
  All-delete k ((j, w) ∷ m) h = elim (text_cases j k) [
    | inl (_, t) ↦ rw t (All-delete k m h.1)
    | inr (_, t) ↦ rw t (h.0, All-delete k m h.1)
  ]

  apart_from :
      (k : String) (m : Map V) → All (λ i. i ≢ k) (keys m) → All (λ e. e.0 ≢ k → P e) m → All P m
  apart_from k [] d h = tt
  apart_from k ((j, w) ∷ m) d h = (h.0 d.0, apart_from k m d.1 h.1)

  -- With the keys apart a write changes no other entry.
  pub All-insert_apart :
      (k : String) (v : V) (m : Map V)
      → Distinct m
      → P (k, v)
      → All (λ e. e.0 ≢ k → P e) m
      → All P (insert k v m)
  unfolding insert
  All-insert_apart k v [] d p h = (p, tt)
  All-insert_apart k v ((j, w) ∷ m) d p h = elim (text_cases j k) [
    | inl (e, t) ↦ rw t (p, apart_from k m (subst (λ x. All (λ i. i ≢ x) (keys m)) e d.0) h.1)
    | inr (n, t) ↦ rw t (h.0 n, All-insert_apart k v m d.1 p h.1)
  ]

module _ {ℓ} {V : Type ℓ} where
  pub delete_missing : (k : String) (m : Map V) → lookup k m ≡ none → delete k m ≡ m
  unfolding lookup delete
  delete_missing k [] h = refl
  delete_missing k ((j, w) ∷ m) h = elim (text_cases j k) [
    | inl (_, t) ↦ let bad : some w ≡ none = rw t at h in cc
    | inr (_, t) ↦ rw (t, delete_missing k m (rw t at h))
  ]

  delete-keys-All :
      (P : String → Type 0) (k : String) (m : Map V) → All P (keys m) → All P (keys (delete k m))
  unfolding delete
  delete-keys-All P k [] h = tt
  delete-keys-All P k ((j, w) ∷ m) h = elim (text_cases j k) [
    | inl (_, t) ↦ rw t (delete-keys-All P k m h.1)
    | inr (_, t) ↦ rw t (h.0, delete-keys-All P k m h.1)
  ]

  -- A deletion keeps the keys apart.
  pub delete-Distinct : (k : String) (m : Map V) → Distinct m → Distinct (delete k m)
  unfolding delete
  delete-Distinct k [] d = tt
  delete-Distinct k ((j, w) ∷ m) d = elim (text_cases j k) [
    | inl (_, t) ↦ rw t (delete-Distinct k m d.1)
    | inr (_, t) ↦ rw t (delete-keys-All (λ i. i ≢ j) k m d.0, delete-Distinct k m d.1)
  ]

  -- A key that stands at the head alone is not found further down.
  pub apart-lookup : (k : String) (m : Map V) → All (λ i. i ≢ k) (keys m) → lookup k m ≡ none
  unfolding lookup
  apart-lookup k [] h = refl
  apart-lookup k ((j, w) ∷ m) h = elim (text_cases j k) [
    | inl (e, _) ↦ absurd (h.0 e)
    | inr (_, t) ↦ rw t (apart-lookup k m h.1)
  ]
