-- ===== src/Wire/Uuid.antt =====
-- `ValidateUUID` against the form of a UUID: five groups of hexadecimal digits and hyphens between.
use aether_runner.Base.{
  ℕ, zero, suc, ◌≡◌, refl, sym, ap, ◌∙◌, ◌↔◌, ◌≤◌, ◌⊎◌, inl, inr, String, Bool, true, false, Option,
  none, some, List, [], ◌∷◌, ◌++◌, arith, length, All, Bool-cases, ◌>>=◌, >>=-some, nat_eq,
  nat_eq_iff,
}
use aether_runner.Base.Decimal.{runes}
use aether_runner.Wire.{is_hex, hex_run, dash, at_end, group, match_uuid, validate_uuid}

-- A digit, or a letter from a to f in either case.
abbrev pub IsHex : ℕ → Type 0
IsHex c = ((b'0' ≤ c) × (c ≤ b'9')) ⊎ ((b'a' ≤ c) × (c ≤ b'f')) ⊎ ((b'A' ≤ c) × (c ≤ b'F'))

-- A group of so many digits.
pub record Hex (n : ℕ) (cs : List ℕ) : Type 0 where
  pub size : length cs ≡ n
  pub digits : All IsHex cs

pub record IsUuid (s : String) : Type 0 where
  pub time_low : List ℕ
  pub time_mid : List ℕ
  pub time_high : List ℕ
  pub clock_seq : List ℕ
  pub node : List ℕ
  pub widths : Hex 8 time_low × Hex 4 time_mid × Hex 4 time_high × Hex 4 clock_seq × Hex 12 node
  pub text :
      runes s
      ≡ time_low ++ b'-' ∷ (time_mid ++ b'-' ∷ (time_high ++ b'-' ∷ (clock_seq ++ b'-' ∷ node)))

is_hex-IsHex : (c : ℕ) → (is_hex c ≡ true) ↔ IsHex c
unfolding is_hex
is_hex-IsHex c = (λ e. ground arith, λ h. ground arith)

hex_run_sound :
    (n : ℕ) (cs rest : List ℕ)
    → hex_run n cs ≡ some rest
    → (g : List ℕ) × Hex n g × (cs ≡ g ++ rest)
unfolding hex_run
hex_run_sound zero cs rest e =
    let same : cs ≡ rest = cc in ([], record { size = refl; digits = tt }, same)
hex_run_sound (suc n) [] rest e = cc
hex_run_sound (suc n) (c ∷ cs) rest e = elim (Bool-cases (is_hex c)) [
  | inr t ↦ let bad : none ≡ some rest = rw t at e in cc
  | inl t ↦
      let (g, h, q) = hex_run_sound n cs rest (rw t at e) in
      (
        c ∷ g,
        record { size = ap suc h.size; digits = ((is_hex-IsHex c).0 t, h.digits) },
        ap (λ x. c ∷ x) q,
      )
]

hex_run_complete : (n : ℕ) (g rest : List ℕ) → Hex n g → hex_run n (g ++ rest) ≡ some rest
unfolding hex_run
hex_run_complete zero [] rest h = refl
hex_run_complete zero (c ∷ g) rest h =
    let s : suc (length g) ≡ zero = h.size in absurd (omega (arith, s))
hex_run_complete (suc n) [] rest h = let s : zero ≡ suc n = h.size in absurd (omega (arith, s))
hex_run_complete (suc n) (c ∷ g) rest h =
    let s : suc (length g) ≡ suc n = h.size in
    rw ((is_hex-IsHex c).1 h.digits.0)
      (hex_run_complete n g rest (record { size = omega (arith, s); digits = h.digits.1 }))

dash_sound : (cs rest : List ℕ) → dash cs ≡ some rest → cs ≡ b'-' ∷ rest
unfolding dash
dash_sound [] rest e = cc
dash_sound (c ∷ cs) rest e = elim (Bool-cases (nat_eq c b'-')) [
  | inl t ↦
      let q : some cs ≡ some rest = rw t at e in
      let same : cs ≡ rest = cc in rw ((nat_eq_iff c b'-').0 t, same)
  | inr t ↦ let bad : none ≡ some rest = rw t at e in cc
]

group_sound :
    (n : ℕ) (cs rest : List ℕ)
    → group n cs ≡ some rest
    → (g : List ℕ) × Hex n g × (cs ≡ g ++ b'-' ∷ rest)
unfolding group
group_sound n cs rest e =
    let (a, p, q) = >>=-some (hex_run n cs) dash e in
    let (g, h, w) = hex_run_sound n cs a p in (g, h, w ∙ ap (λ x. g ++ x) (dash_sound a rest q))

group_complete : (n : ℕ) (g rest : List ℕ) → Hex n g → group n (g ++ b'-' ∷ rest) ≡ some rest
unfolding group dash
group_complete n g rest h = rw (hex_run_complete n g (b'-' ∷ rest) h) refl

append_nil : (g : List ℕ) → g ++ [] ≡ g
append_nil [] = refl
append_nil (c ∷ g) = ap (λ x. c ∷ x) (append_nil g)

at_end-nil : (cs : List ℕ) → at_end cs ≡ true → cs ≡ []
unfolding at_end
at_end-nil [] e = refl
at_end-nil (c ∷ cs) e = cc

-- One group more.
next_group :
    (n : ℕ) (cs : List ℕ) (f : List ℕ → Option (List ℕ)) (rest : List ℕ)
    → (group n cs >>= f) ≡ some rest
    → (g : List ℕ) × (cs' : List ℕ) × Hex n g × (cs ≡ g ++ b'-' ∷ cs') × (f cs' ≡ some rest)
next_group n cs f rest e =
    let (a, p, q) = >>=-some (group n cs) f e in
    let (g, h, w) = group_sound n cs a p in (g, a, h, w, q)

behind : (g : List ℕ) {x y : List ℕ} → x ≡ y → (g ++ b'-' ∷ x) ≡ (g ++ b'-' ∷ y)
behind g e = ap (λ x. g ++ b'-' ∷ x) e

matched-IsUuid : (s : String) → match_uuid (runes s) ≡ some [] → IsUuid s
unfolding match_uuid
matched-IsUuid s e =
    let (a, r₁, ha, ea, e₁) = next_group 8 (runes s) _ [] e in
    let (b, r₂, hb, eb, e₂) = next_group 4 r₁ _ [] e₁ in
    let (c, r₃, hc, ec, e₃) = next_group 4 r₂ _ [] e₂ in
    let (d, r₄, hd, ed, e₄) = next_group 4 r₃ _ [] e₃ in
    let (g, hg, eg) = hex_run_sound 12 r₄ [] e₄ in
    let tail : r₄ ≡ g = eg ∙ append_nil g in
    record {
      time_low = a;
      time_mid = b;
      time_high = c;
      clock_seq = d;
      node = g;
      widths = (ha, hb, hc, hd, hg);
      text = ea ∙ behind a (eb ∙ behind b (ec ∙ behind c (ed ∙ behind d tail)));
    }

unfoldable accepts : Option (List ℕ) → Bool
accepts none = false
accepts (some rest) = at_end rest

accepts-nil : (o : Option (List ℕ)) → accepts o ≡ true → o ≡ some []
unfolding accepts
accepts-nil none e = cc
accepts-nil (some rest) e = ap some (at_end-nil rest e)

matches : (s : String) → IsUuid s → match_uuid (runes s) ≡ some []
unfolding match_uuid
matches s u =
    let (ha, hb, hc, hd, hg) = u.widths in
    let last : hex_run 12 u.node ≡ some [] =
      ap (hex_run 12) (sym (append_nil u.node)) ∙ hex_run_complete 12 u.node [] hg in
    rw
      (
        u.text,
        group_complete 8 u.time_low _ ha,
        group_complete 4 u.time_mid _ hb,
        group_complete 4 u.time_high _ hc,
        group_complete 4 u.clock_seq _ hd,
      )
      last

-- `ValidateUUID` accepts exactly the texts of five groups of 8, 4, 4, 4 and 12 hexadecimal digits, in either case, with hyphens between them and nothing before or after.
pub validate_uuid-IsUuid : (s : String) → (validate_uuid s ≡ true) ↔ IsUuid s
unfolding validate_uuid accepts at_end
validate_uuid-IsUuid s = (
  λ e. matched-IsUuid s (accepts-nil (match_uuid (runes s)) e),
  λ u. rw (matches s u, validate_uuid) refl,
)
