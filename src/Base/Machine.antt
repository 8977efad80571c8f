-- ===== src/Base/Machine.antt =====
-- Go's `int` and `int64`, 64 bits wide: sums and differences wrap around.
use Prim.Native.Nat.{ℕ, ◌-◌, ◌%◌, ◌≤◌, ◌<◌}
use mathlib.Core.Path.{◌≡◌}
use native.Mathlib.Omega.{arith}
use aether_runner.Base.Tests.{ltb, if◌then◌else◌}
use aether_runner.Base.Int.{ℤ, pos, negsuc, pos_part, neg_part, ◌+ℤ◌, ◌-ℤ◌}

-- 2 ^ 63 and 2 ^ 64.
abbrev pub half_range : ℕ
half_range = 9223372036854775808

abbrev pub full_range : ℕ
full_range = 18446744073709551616

-- The value of an integer in 64 bits, two's complement.
unfoldable pub wrap : ℤ → ℤ
wrap (pos n) =
    let r = n % full_range in if ltb r half_range then pos r else negsuc (full_range - 1 - r)
wrap (negsuc n) =
    let r = n % full_range in if ltb r half_range then negsuc r else pos (full_range - 1 - r)

abbrev pub InRange : ℤ → Type 0
InRange a = (pos_part a < half_range) × (neg_part a ≤ half_range)

pub wrap_id : (a : ℤ) → InRange a → wrap a ≡ a
unfolding wrap
wrap_id (pos n) h = ground arith
wrap_id (negsuc n) h = ground arith

pub wrap-InRange : (a : ℤ) → InRange (wrap a)
unfolding wrap
wrap-InRange (pos n) = ground arith
wrap-InRange (negsuc n) = ground arith

unfoldable pub add64 : ℤ → ℤ → ℤ
add64 a b = wrap (a +ℤ b)

unfoldable pub sub64 : ℤ → ℤ → ℤ
sub64 a b = wrap (a -ℤ b)

-- A sum or difference that fits is exact.
pub add64_exact : (a b : ℤ) → InRange (a +ℤ b) → add64 a b ≡ a +ℤ b
unfolding add64
add64_exact a b h = wrap_id (a +ℤ b) h

pub sub64_exact : (a b : ℤ) → InRange (a -ℤ b) → sub64 a b ≡ a -ℤ b
unfolding sub64
sub64_exact a b h = wrap_id (a -ℤ b) h

pub wrap-wrap_add : (a : ℤ) (k : ℕ) → wrap (wrap a +ℤ pos k) ≡ wrap (a +ℤ pos k)
unfolding wrap ◌+ℤ◌
wrap-wrap_add (pos n) k = ground arith
wrap-wrap_add (negsuc n) k = ground arith
