-- ===== src/Base/Clock.antt =====
-- Go's package time, as far as the sources use it: instants, durations and their differences.
-- An instant is a number of nanoseconds since the zero time, which is 0.
use Prim.Native.Nat.{ℕ, ◌+◌, ◌-◌, ◌/◌}
use mathlib.Core.Bool.{Bool}
use aether_runner.Base.Tests.{leb, ltb, if◌then◌else◌}
use aether_runner.Base.Int.{ℤ, pos, negsuc, sub_ℕ, ltb_ℤ}
use aether_runner.Base.Machine.{half_range}

abbrev pub Time : Type 0
Time = ℕ

-- A `time.Duration`, in nanoseconds.
abbrev pub Duration : Type 0
Duration = ℤ

-- `t.IsZero()`
abbrev pub is_zero : Time → Bool
is_zero t = leb t 0

-- `t.Sub(u)`: a difference that no Duration holds is cut off at the nearest one.
unfoldable pub time_sub : Time → Time → Duration
time_sub t u =
    let d = sub_ℕ t u in
    if ltb_ℤ d (negsuc (half_range - 1))
    then negsuc (half_range - 1)
    else if ltb_ℤ (pos (half_range - 1)) d
    then pos (half_range - 1)
    else d

-- `d.Milliseconds()`: Go's division drops the fraction.
unfoldable pub milliseconds : Duration → ℤ
milliseconds (pos n) = pos (n / 1000000)
milliseconds (negsuc n) = sub_ℕ 0 ((n + 1) / 1000000)

-- `t.Add(d)`, not before the zero time.
unfoldable pub time_add : Time → Duration → Time
time_add t (pos n) = t + n
time_add t (negsuc n) = t - n - 1

-- `t.Before(u)`
abbrev pub before : Time → Time → Bool
before t u = ltb t u
