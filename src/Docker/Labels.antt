-- ===== src/Docker/Labels.antt =====
-- The filter by labels that both Docker clients have.
use aether_runner.Base.{◌≡◌, refl, ◌↔◌, inl, inr, String, true, false, [], ◌∷◌, All, text_cases}
use aether_runner.Base.Assoc.{Map}
use aether_runner.Docker.{label, matches}

-- Every label of the filter is there.
abbrev pub Carries : Map String → Map String → Type 0
Carries labels filter = All (λ e. label labels e.0 ≡ e.1) filter

pub matches-Carries :
    (labels filter : Map String) → (matches labels filter ≡ true) ↔ Carries labels filter
unfolding matches
matches-Carries labels [] = (λ _. tt, λ _. refl)
matches-Carries labels ((key, value) ∷ filter) = elim (text_cases (label labels key) value) [
  | inl (e, t) ↦
      rw t
        (λ h. (e, (matches-Carries labels filter).0 h), λ a. (matches-Carries labels filter).1 a.1)
  | inr (n, t) ↦ rw t (λ h. let bad : false ≡ true = h in cc, λ a. absurd (n a.0))
]
