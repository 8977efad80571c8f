-- ===== src/Base/Decimal/Reading.antt =====
-- What `Itoa` prints, `Atoi` reads.
use Prim.Native.Char.{code}
use Prim.Native.Nat.{ℕ, zero, suc, ◌+◌, ◌-◌, ◌*◌, ◌/◌, ◌%◌, ◌≤◌, ◌<◌}
use Prim.Native.String.append
use Prim.Native.String.{String, ◌++◌ as ◌<>◌}
use mathlib.Core.Path.{◌≡◌, refl, ap, ◌∙◌}
use mathlib.Core.Logic.{◌≢◌, inl, inr}
use mathlib.Core.Bool.{false}
use mathlib.Core.Option.{none, some}
use mathlib.Core.List.{List, [], ◌∷◌, ◌++◌}
use native.Mathlib.Omega.{arith}
use aether_runner.Base.Tests.{ltb, nat_eq, Bool-cases}
use aether_runner.Base.Options.{◌>>=◌}
use aether_runner.Base.Int.{ℤ, pos, negsuc}
use aether_runner.Base.Machine.{InRange}
use aether_runner.Base.Decimal.{
  runes, digit_text, digit_texts, decimal_from, decimal, itoa, is_digit, read_digits, read_number,
  as_positive, as_negative, read_int, atoi, Option,
}

pub runes-append : (s t : String) → runes (s <> t) ≡ runes s ++ runes t
runes-append String.[] t = rw append.nil
runes-append (String.◌∷◌ c s) t = rw (append.cons c s t) (ap (λ x. code c ∷ x) (runes-append s t))

read_digits-append :
    (xs ys : List ℕ) (n : ℕ) → read_digits (xs ++ ys) n ≡ (read_digits xs n >>= read_digits ys)
unfolding read_digits
read_digits-append [] ys n = refl
read_digits-append (c ∷ xs) ys n = elim (Bool-cases (is_digit c)) [
  | inl e ↦ rw e (read_digits-append xs ys (n * 10 + (c - b'0')))
  | inr e ↦ rw e
]

one_digit : (d : ℕ) → d < 10 → runes (digit_text d digit_texts) ≡ (b'0' + d) ∷ []
unfolding digit_text
one_digit zero h = refl
one_digit (suc zero) h = refl
one_digit (suc (suc zero)) h = refl
one_digit (suc (suc (suc zero))) h = refl
one_digit (suc (suc (suc (suc zero)))) h = refl
one_digit (suc (suc (suc (suc (suc zero))))) h = refl
one_digit (suc (suc (suc (suc (suc (suc zero)))))) h = refl
one_digit (suc (suc (suc (suc (suc (suc (suc zero))))))) h = refl
one_digit (suc (suc (suc (suc (suc (suc (suc (suc zero)))))))) h = refl
one_digit (suc (suc (suc (suc (suc (suc (suc (suc (suc zero))))))))) h = refl
one_digit (suc (suc (suc (suc (suc (suc (suc (suc (suc (suc d)))))))))) h =
    absurd (omega (arith, h))

append-ne-nil : (xs : List ℕ) (c : ℕ) → (xs ++ c ∷ []) ≢ []
append-ne-nil [] c e = cc
append-ne-nil (x ∷ xs) c e = cc

last_digit : (d n : ℕ) → d < 10 → read_digits ((b'0' + d) ∷ []) n ≡ some (n * 10 + d)
unfolding read_digits
last_digit d n h = ground arith

decimal_from-read :
    (f n : ℕ)
    → n < f
    → (read_digits (runes (decimal_from f n)) 0 ≡ some n) × (runes (decimal_from f n) ≢ [])
unfolding decimal_from
decimal_from-read zero n h = absurd (omega (arith, h))
decimal_from-read (suc f) n h =
    let d = n % 10 in
    let last = one_digit d (omega arith) in
    elim (Bool-cases (ltb n 10)) [
      | inl small ↦
          let same : 0 * 10 + n % 10 ≡ n = ground arith in
          rw (small, last) (last_digit d 0 (omega arith) ∙ ap some same, λ e. cc)
      | inr big ↦
          let large : 10 ≤ n = ground arith in
          let (ih, _) = decimal_from-read f (n / 10) (omega (arith, large, h)) in
          let front = runes (decimal_from f (n / 10)) in
          let same : n / 10 * 10 + n % 10 ≡ n = omega arith in
          rw (big, runes-append (decimal_from f (n / 10)) (digit_text d digit_texts), last)
            (
              read_digits-append front ((b'0' + d) ∷ []) 0
                  ∙ ap (λ o. o >>= read_digits ((b'0' + d) ∷ [])) ih
                  ∙ last_digit d (n / 10) (omega arith)
                  ∙ ap some same,
              append-ne-nil front (b'0' + d),
            )
    ]

-- A text of digits is read as a number, and as a positive integer.
read_number-digits :
    (cs : List ℕ) (n : ℕ)
    → read_digits cs 0 ≡ some n
    → cs ≢ []
    → (read_number cs ≡ some n) × (read_int cs ≡ as_positive n)
unfolding read_number read_int read_digits
read_number-digits [] n e h = absurd (h refl)
read_number-digits (c ∷ cs) n e h = elim (Bool-cases (is_digit c)) [
  | inr no_digit ↦ let bad : none ≡ some n = rw no_digit at e in cc
  | inl digit ↦
      let minus : nat_eq c b'-' ≡ false = ground arith in
      let plus : nat_eq c b'+' ≡ false = ground arith in (e, rw (minus, plus, e))
]

-- Every integer of 64 bits is read back from its print.
pub atoi-itoa : (z : ℤ) → InRange z → atoi (itoa z) ≡ some z
unfolding atoi itoa decimal read_int
atoi-itoa (pos n) h =
    let (e, ne) = decimal_from-read (suc n) n (omega arith) in
    (read_number-digits (runes (decimal_from (suc n) n)) n e ne).1 ∙ ground arith
atoi-itoa (negsuc n) h =
    let (e, ne) = decimal_from-read (suc (suc n)) (suc n) (omega arith) in
    let digits = runes (decimal_from (suc (suc n)) (suc n)) in
    rw (runes-append "-" (decimal_from (suc (suc n)) (suc n)))
      (ap (λ o. o >>= as_negative) (read_number-digits digits (suc n) e ne).0 ∙ ground arith)

as_positive-InRange : (n : Option ℕ) (z : ℤ) → (n >>= as_positive) ≡ some z → InRange z
as_positive-InRange none z h = cc
as_positive-InRange (some n) z h = ground arith

as_negative-InRange : (n : Option ℕ) (z : ℤ) → (n >>= as_negative) ≡ some z → InRange z
as_negative-InRange none z h = cc
as_negative-InRange (some zero) z h = ground arith
as_negative-InRange (some (suc n)) z h = ground arith

read_int-InRange : (cs : List ℕ) (z : ℤ) → read_int cs ≡ some z → InRange z
unfolding read_int
read_int-InRange [] z h = cc
read_int-InRange (c ∷ cs) z h = elim (Bool-cases (nat_eq c b'-')) [
  | inl e ↦ as_negative-InRange (read_number cs) z (rw e at h)
  | inr e ↦ elim (Bool-cases (nat_eq c b'+')) [
    | inl f ↦ as_positive-InRange (read_number cs) z (rw (e, f) at h)
    | inr f ↦ as_positive-InRange (read_number (c ∷ cs)) z (rw (e, f) at h)
  ]
]

-- What is read fits in 64 bits.
pub atoi-InRange : (s : String) (z : ℤ) → atoi s ≡ some z → InRange z
unfolding atoi
atoi-InRange s z h = read_int-InRange (runes s) z h
