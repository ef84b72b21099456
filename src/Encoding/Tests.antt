-- ===== src/Encoding/Tests.antt =====
-- Runs of the encoding, and the theorems at concrete values. A number is the bit pattern of its
-- double here.
use Prim.Native.Nat.Ordering.{lt, eq}
use zydecodb.Prelude.{ℕ, ◌≡◌, refl, none, some, Bool, true, false, List, [], ◌∷◌, ◌++◌, arith}
use zydecodb.Prelude.Bytes.{cmp_bytes, to_be}
use zydecodb.Prelude.Order.{then_with}
use zydecodb.Json.{Value, number, string}
use zydecodb.Encoding.{
  encode_value, encode_fields_with_directions, cmp_values, try_decode_fields, count_fields,
  skip_field,
}
use zydecodb.Encoding.Float.{cmp_f64, encode_f64_total_order}
use zydecodb.Encoding.Reference.{cmp_ref, cmp_fields}
use zydecodb.Encoding.Order.{cmp_values-eq-cmp_ref}
use zydecodb.Encoding.Composite.{composite_order}

abbrev one : ℕ
one = 0x3ff0_0000_0000_0000

abbrev minus_two_and_a_half : ℕ
minus_two_and_a_half = 0xc004_0000_0000_0000

number_order : cmp_f64 minus_two_and_a_half one ≡ lt
unfolding cmp_f64
number_order = refl

-- The two zeros are one number and have two encodings.
zeros_equal : cmp_f64 0 0x8000_0000_0000_0000 ≡ eq
unfolding cmp_f64
zeros_equal = refl

zeros_apart :
    cmp_bytes (encode_f64_total_order 0x8000_0000_0000_0000) (encode_f64_total_order 0) ≡ lt
unfolding cmp_bytes encode_f64_total_order to_be
zeros_apart = refl

embedded_nul : encode_value some (string (b'a' ∷ 0 ∷ [])) ≡ 3 ∷ b'a' ∷ 0 ∷ 255 ∷ 0 ∷ 0 ∷ []
unfolding encode_value
embedded_nul = refl

-- A field cut short is refused.
cut_field : try_decode_fields (3 ∷ b'a' ∷ 0 ∷ []) ≡ none
unfolding try_decode_fields count_fields skip_field
cut_field = refl

cmp_values-eq-cmp_ref_example :
    cmp_values some (number minus_two_and_a_half) (number one)
    ≡ cmp_ref some (number minus_two_and_a_half) (number one)
cmp_values-eq-cmp_ref_example =
    cmp_values-eq-cmp_ref some (number minus_two_and_a_half) (number one) (omega arith, omega arith)
      (omega arith, omega arith)

abbrev fields_a : List (Value ℕ)
fields_a = string (b'x' ∷ []) ∷ number one ∷ []

abbrev fields_b : List (Value ℕ)
fields_b = string (b'x' ∷ []) ∷ number minus_two_and_a_half ∷ []

abbrev mixed : List Bool
mixed = true ∷ false ∷ []

composite_order_example :
    cmp_bytes
      (encode_fields_with_directions some fields_a mixed ++ 1 ∷ [])
      (encode_fields_with_directions some fields_b mixed ++ 2 ∷ [])
    ≡ then_with (cmp_fields some fields_a fields_b mixed) (cmp_bytes (1 ∷ []) (2 ∷ []))
composite_order_example =
    composite_order some fields_a fields_b mixed (1 ∷ []) (2 ∷ []) refl (omega arith) (omega arith)
