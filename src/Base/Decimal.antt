-- ===== src/Base/Decimal.antt =====
pub mod Reading
-- Go's decimal numbers: `%d` and `strconv.Itoa` print them, `strconv.Atoi` reads them.
use Prim.Native.Char.{code}
use Prim.Native.Nat.{ℕ, zero, suc, ◌+◌, ◌-◌, ◌*◌, ◌/◌, ◌%◌, ◌≤◌, ◌<◌}
use Prim.Native.String.{String, ◌++◌ as ◌<>◌}
use mathlib.Core.Path.{◌≡◌, refl, sym, ap, ◌∙◌}
use mathlib.Core.Logic.{◌≢◌, inl, inr}
use mathlib.Core.Bool.{Bool, true, false, ◌&&◌, ◌||◌}
use mathlib.Core.Option.{Option, none, some}
use mathlib.Core.List.{List, [], ◌∷◌, ◌++◌}
use native.Mathlib.Omega.{arith}
use aether_runner.Base.Tests.{ltb, leb, nat_eq, if◌then◌else◌, Bool-cases}
use aether_runner.Base.Options.{◌>>=◌}
use aether_runner.Base.Int.{ℤ, pos, negsuc}
use aether_runner.Base.Machine.{half_range}

-- The code points of a text.
abbrev pub runes : String → List ℕ
runes String.[] = []
runes (String.◌∷◌ rune text) = let rest = runes text in code rune ∷ rest

abbrev pub digit_texts : List String
digit_texts = "0" ∷ "1" ∷ "2" ∷ "3" ∷ "4" ∷ "5" ∷ "6" ∷ "7" ∷ "8" ∷ "9" ∷ []

unfoldable pub digit_text : ℕ → List String → String
digit_text n [] = ""
digit_text zero (t ∷ ts) = t
digit_text (suc n) (t ∷ ts) = digit_text n ts

-- A number has no more digits than itself and one, so that much fuel is enough.
unfoldable pub decimal_from : ℕ → ℕ → String
unfolding digit_text
decimal_from zero n = ""
decimal_from (suc fuel) n =
    let front = decimal_from fuel (n / 10) in
    let last = digit_text (n % 10) digit_texts in if ltb n 10 then last else front <> last

unfoldable pub decimal : ℕ → String
unfolding decimal_from
decimal n = decimal_from (suc n) n

-- Fuel above the number prints the same text.
pub decimal_from_fuel : (f g n : ℕ) → n < f → n < g → decimal_from f n ≡ decimal_from g n
unfolding decimal_from
decimal_from_fuel zero g n p q = absurd (omega (arith, p))
decimal_from_fuel (suc f) zero n p q = absurd (omega (arith, q))
decimal_from_fuel (suc f) (suc g) n p q = elim (Bool-cases (ltb n 10)) [
  | inl small ↦ rw small
  | inr big ↦
      let large : 10 ≤ n = ground arith in
      rw (big, decimal_from_fuel f g (n / 10) (omega (arith, large, p)) (omega (arith, large, q)))
]

unfoldable pub itoa : ℤ → String
unfolding decimal
itoa (pos n) = decimal n
itoa (negsuc n) = "-" <> decimal (suc n)

abbrev pub is_digit : ℕ → Bool
is_digit c = leb b'0' c && leb c b'9'

-- The number that digits spell behind n; no number of a text is larger than Go's checks let it be.
unfoldable pub read_digits : List ℕ → ℕ → Option ℕ
read_digits [] n = some n
read_digits (c ∷ cs) n =
    let rest = read_digits cs (n * 10 + (c - b'0')) in if is_digit c then rest else none

unfoldable pub read_number : List ℕ → Option ℕ
unfolding read_digits
read_number [] = none
read_number (c ∷ cs) = read_digits (c ∷ cs) 0

abbrev pub as_positive : ℕ → Option ℤ
as_positive n = if ltb n half_range then some (pos n) else none

abbrev pub as_negative : ℕ → Option ℤ
as_negative zero = some (pos 0)
as_negative (suc n) = if ltb n half_range then some (negsuc n) else none

-- A sign, if any, and digits, within 64 bits; `none` is an error.
unfoldable pub read_int : List ℕ → Option ℤ
unfolding read_number
read_int [] = none
read_int (c ∷ cs) =
    if nat_eq c b'-'
    then read_number cs >>= as_negative
    else if nat_eq c b'+'
    then read_number cs >>= as_positive
    else read_number (c ∷ cs) >>= as_positive

unfoldable pub atoi : String → Option ℤ
unfolding read_int
atoi s = read_int (runes s)
