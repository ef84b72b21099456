-- ===== src/Encoding.antt =====
-- crates/zydecodb-document/src/encoding.rs: the order-preserving encoding of scalars for index
-- keys. A function that pushes onto `out` is modelled by the bytes that it pushes.
pub mod Float
pub mod Reference
pub mod Order
pub mod Composite
pub mod Walk
pub mod Path
mod Tests
use zydecodb.Prelude.{
  ℕ, zero, suc, ◌+◌, ◌-◌, Ordering, Bool, true, false, Option, none, some, List, [], ◌∷◌, ◌++◌, map,
  length, drop, ltb, leb, ◌==◌, ◌||◌, if◌then◌else◌,
}
use zydecodb.Prelude.Bytes.{Bytes, cmp_bytes}
use zydecodb.Prelude.Decided.{complement}
use zydecodb.Json.{Value, null, boolean, number, string, array, object, Fields, end, field}
use zydecodb.Encoding.Float.{encode_f64_total_order}

abbrev pub tag_null : ℕ
tag_null = 0x00

abbrev pub tag_bool : ℕ
tag_bool = 0x01

abbrev pub tag_num : ℕ
tag_num = 0x02

abbrev pub tag_str : ℕ
tag_str = 0x03

-- `encode_str`: a zero byte becomes 00 FF, and 00 00 ends the string.
unfoldable pub encode_str : Bytes → Bytes
encode_str [] = 0x00 ∷ 0x00 ∷ []
encode_str (b ∷ s) = let rest = encode_str s in if b == 0x00 then 0x00 ∷ 0xFF ∷ rest else b ∷ rest

-- `as_f64().unwrap_or(0.0)`, as a bit pattern.
abbrev pub or_zero : Option ℕ → ℕ
or_zero none = 0
or_zero (some bits) = bits

-- `directions.get(i).copied().unwrap_or(true)` at the head and past it.
abbrev pub first_direction : List Bool → Bool
first_direction [] = true
first_direction (d ∷ ds) = d

abbrev pub later_directions : List Bool → List Bool
later_directions [] = []
later_directions (d ∷ ds) = ds

-- `as_f64` is serde_json's `Number::as_f64`, as the bit pattern of the result.
module _ {N : Type 0} (as_f64 : N → Option ℕ) where
  -- `encode_value`.
  unfoldable pub encode_value : Value N → Bytes
  unfolding encode_str encode_f64_total_order
  encode_value null = tag_null ∷ []
  encode_value (boolean b) = tag_bool ∷ (if b then 1 else 0) ∷ []
  encode_value (number n) = tag_num ∷ encode_f64_total_order (or_zero (as_f64 n))
  encode_value (string s) = tag_str ∷ encode_str s
  encode_value (array items) = tag_null ∷ []
  encode_value (object fields) = tag_null ∷ []

  -- `encode_fields`.
  unfoldable pub encode_fields : List (Value N) → Bytes
  unfolding encode_value
  encode_fields [] = []
  encode_fields (v ∷ vs) = encode_value v ++ encode_fields vs

  -- `encode_value_desc`, with `invert_encoding`.
  unfoldable pub encode_value_desc : Value N → Bytes
  unfolding encode_value complement
  encode_value_desc v = complement (encode_value v)

  -- `encode_value_directed`.
  unfoldable pub encode_value_directed : Value N → Bool → Bytes
  unfolding encode_value_desc
  encode_value_directed v ascending = if ascending then encode_value v else encode_value_desc v

  -- `encode_fields_with_directions`.
  unfoldable pub encode_fields_with_directions : List (Value N) → List Bool → Bytes
  unfolding encode_value_desc
  encode_fields_with_directions [] directions = []
  encode_fields_with_directions (v ∷ vs) directions =
      (if first_direction directions then encode_value v else encode_value_desc v)
      ++ encode_fields_with_directions vs (later_directions directions)

  -- `cmp_values`.
  unfoldable pub cmp_values : Value N → Value N → Ordering
  unfolding encode_value cmp_bytes
  cmp_values a b = cmp_bytes (encode_value a) (encode_value b)

-- The inner loop of `try_decode_fields`, from behind the tag of a string: what follows its end, or
-- nothing where the function returns `Err`.
unfoldable pub skip_str : Bytes → Option Bytes
skip_str [] = none
skip_str (b ∷ []) = none
skip_str (b ∷ c ∷ rest) =
    let at_next = skip_str (c ∷ rest) in
    let past_escape = skip_str rest in
    if b == 0x00
    then (if c == 0x00 then some rest else if c == 0xFF then past_escape else none)
    else at_next

-- One round of the outer loop, at a tag: what follows the field that begins there.
unfoldable pub skip_field : ℕ → Bytes → Option Bytes
unfolding skip_str
skip_field tag rest =
    if tag == tag_null
    then some rest
    else if tag == tag_bool
    then (if ltb (length rest) 1 then none else some (drop 1 rest))
    else if tag == tag_num
    then (if ltb (length rest) 8 then none else some (drop 8 rest))
    else if tag == tag_str
    then skip_str rest
    else none

-- The outer loop; its fuel counts rounds, and each round takes a byte at least.
unfoldable pub count_fields : ℕ → Bytes → ℕ → Option ℕ
count_fields fuel [] count = some count
count_fields zero (tag ∷ rest) count = none
count_fields (suc fuel) (tag ∷ rest) count = elim (skip_field tag rest) [
  | none ↦ none
  | some next ↦ count_fields fuel next (count + 1)
]

-- `try_decode_fields`.
unfoldable pub try_decode_fields : Bytes → Option ℕ
unfolding count_fields
try_decode_fields bytes = count_fields (length bytes) bytes 0
