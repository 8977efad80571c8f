-- ===== src/Base/Json/Reading.antt =====
-- What the readers of Base/Json make of what the writers wrote.
use mathlib.Core.Path.{◌≡◌, refl}
use mathlib.Core.Option.{Option, some}
use mathlib.Core.List.{List, [], ◌∷◌}
use native.Mathlib.Omega.{arith}
use aether_runner.Base.Int.{ℤ}
use aether_runner.Base.Lists.{All}
use aether_runner.Base.Machine.{InRange}
use aether_runner.Base.Json.{
  Json, number, in_range, read_int, write_items, read_items, write_list, read_list,
}

pub read_int-number : (z old : ℤ) → InRange z → read_int (number z) old ≡ some z
unfolding read_int in_range
read_int-number z old h = ground arith

module _ {A : Type 0} (write : A → Json) (read : Json → Option A) where
  read_items-write_items :
      (xs : List A)
      → All (λ x. read (write x) ≡ some x) xs
      → read_items read (write_items write xs) ≡ some xs
  unfolding read_items write_items
  read_items-write_items [] h = refl
  read_items-write_items (x ∷ xs) h = rw (h.0, read_items-write_items xs h.1)

  pub read_list-write_list :
      (xs : List A)
      → All (λ x. read (write x) ≡ some x) xs
      → read_list read (write_list write xs) ≡ some xs
  unfolding read_list write_list
  read_list-write_list xs h = read_items-write_items xs h
