-- ===== src/Base/Json.antt =====
pub mod Reading
-- Go's package encoding/json between structs and values: a JSON text is modelled by the value it
-- stands for, and `none` is the error of `json.Unmarshal`.
use Prim.Native.Nat.{zero, suc, ℕ, ◌+◌, suc, ◌/◌, ◌*◌, ◌%◌}
use package.text.Mathlib.Text.{◌==◌}
use Prim.Native.String.{String}
use mathlib.Core.Bool.{Bool, true, false, ◌&&◌, ◌||◌}
use mathlib.Core.Option.{Option, none, some}
use mathlib.Core.List.{List, [], ◌∷◌}
use aether_runner.Base.Tests.{leb, ltb, nat_eq, if◌then◌else◌}
use aether_runner.Base.Options.{◌>>=◌}
use aether_runner.Base.Int.{ℤ, pos_part, neg_part, pos, negsuc, sub_ℕ}
use aether_runner.Base.Machine.{half_range}
use aether_runner.Base.Decimal.{runes}

-- `number` is a literal without fraction and exponent, `real` any other as it is written.
mutual
  pub data Json : Type 0 where
    null : Json
    boolean : Bool → Json
    number : ℤ → Json
    real : String → Json
    text : String → Json
    array : Items → Json
    object : Members → Json

  pub data Items : Type 0 where
    nil : Items
    cons : Json → Items → Items

  pub data Members : Type 0 where
    end : Members
    member : String → Json → Members → Members

-- A member with `omitempty`, left out if its value is empty.
unfoldable pub omit_if : Bool → String → Json → Members → Members
omit_if true key value rest = rest
omit_if false key value rest = member key value rest

-- A nil pointer with `omitempty` is left out.
unfoldable pub omit_nil : {A : Type 0} → (A → Json) → String → Option A → Members → Members
omit_nil write key none rest = rest
omit_nil write key (some x) rest = member key (write x) rest

unfoldable pub write_items : {A : Type 0} → (A → Json) → List A → Items
write_items write [] = nil
write_items write (x ∷ xs) = cons (write x) (write_items write xs)

unfoldable pub write_list : {A : Type 0} → (A → Json) → List A → Json
write_list write xs = array (write_items write xs)

-- Keys are compared without regard to case, ſ and the Kelvin sign included.
unfoldable pub fold_rune : ℕ → ℕ
fold_rune c =
    if leb b'A' c && leb c b'Z'
    then c + 32
    else if nat_eq c 0x17f
    then b's'
    else if nat_eq c 0x212a
    then b'k'
    else c

unfoldable pub same_runes : List ℕ → List ℕ → Bool
same_runes [] [] = true
same_runes (c ∷ cs) (d ∷ ds) = nat_eq (fold_rune c) (fold_rune d) && same_runes cs ds
same_runes _ _ = false

unfoldable pub same_key : String → String → Bool
unfolding same_runes fold_rune
same_key key name = same_runes (runes key) (runes name)

unfoldable pub in_range : ℤ → Bool
in_range z = ltb (pos_part z) half_range && leb (neg_part z) half_range

-- Each reader takes the value that is there; null leaves it.
unfoldable pub read_text : Json → String → Option String
read_text null old = some old
read_text (text s) old = some s
read_text _ old = none

unfoldable pub read_bool : Json → Bool → Option Bool
read_bool null old = some old
read_bool (boolean b) old = some b
read_bool _ old = none

unfoldable pub read_int : Json → ℤ → Option ℤ
read_int null old = some old
read_int (number z) old = if in_range z then some z else none
read_int _ old = none

module _ {A : Type 0} where
  -- The members in order, each into the field it names; a later one overwrites.
  unfoldable pub read_members : (String → Json → A → Option A) → Members → A → Option A
  read_members into end x = some x
  read_members into (member key value rest) x = into key value x >>= λ y. read_members into rest y

  unfoldable pub read_struct : (String → Json → A → Option A) → Json → A → Option A
  read_struct into null x = some x
  read_struct into (object members) x = read_members into members x
  read_struct into _ x = none

  unfoldable pub read_items : (Json → Option A) → Items → Option (List A)
  read_items read nil = some []
  read_items read (cons j js) = read j >>= λ x. read_items read js >>= λ xs. some (x ∷ xs)

  -- null makes a slice nil, which the model does not tell from an empty one.
  unfoldable pub read_list : (Json → Option A) → Json → Option (List A)
  read_list read null = some []
  read_list read (array js) = read_items read js
  read_list read _ = none

  -- null makes a pointer nil; another value goes into what it points to, or into a new zero value.
  unfoldable pub read_pointer : (Json → A → Option A) → A → Json → Option A → Option (Option A)
  read_pointer read zero_value null old = some none
  read_pointer read zero_value j none = read j zero_value >>= λ x. some (some x)
  read_pointer read zero_value j (some old) = read j old >>= λ x. some (some x)

-- The nearest multiple of `scale`, of two the even one.
unfoldable pub nearest : ℕ → ℕ → ℕ
nearest n scale =
    let q = n / scale in
    let r = n % scale in
    if ltb (2 * r) scale || (nat_eq (2 * r) scale && nat_eq (q % 2) 0)
    then q * scale
    else (q + 1) * scale

-- 53 bits of a float64, and the scale that the number needs; ten doublings are enough below 2 ^ 63.
unfoldable pub float_at : ℕ → ℕ → ℕ → ℕ
float_at zero scale n = nearest n scale
float_at (suc doublings) scale n =
    let coarser = float_at doublings (2 * scale) n in
    if leb n (9007199254740992 * scale) then nearest n scale else coarser

unfoldable pub float64 : ℤ → ℤ
float64 (pos n) = pos (float_at 10 1 n)
float64 (negsuc n) = sub_ℕ 0 (float_at 10 1 (n + 1))

-- A value after it was read into an `interface{}`, where a number is a float64.
unfoldable mutual
  pub untyped : Json → Json
  untyped null = null
  untyped (boolean b) = boolean b
  untyped (number z) = number (float64 z)
  untyped (real r) = real r
  untyped (text s) = text s
  untyped (array items) = array (untyped_items items)
  untyped (object members) = object (untyped_members members)

  pub untyped_items : Items → Items
  untyped_items nil = nil
  untyped_items (cons j js) = cons (untyped j) (untyped_items js)

  pub untyped_members : Members → Members
  untyped_members end = end
  untyped_members (member key value rest) = member key (untyped value) (untyped_members rest)

-- `m[key] = value` in a map that is read from an object.
unfoldable pub set_member : String → Json → Members → Members
set_member key value end = member key value end
set_member key value (member k v rest) =
    let others = set_member key value rest in
    if k == key then member key value rest else member k v others

unfoldable pub set_in : String → Json → Json → Json
set_in key value (object members) = object (set_member key value members)
set_in key value j = j

-- `m[key]`, in a map that is read from an object.
unfoldable pub get_member : String → Members → Option Json
get_member key end = none
get_member key (member k v rest) = if k == key then some v else get_member key rest
