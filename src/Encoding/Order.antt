-- ===== src/Encoding/Order.antt =====
-- The encoding preserves the order of the values, and is prefix-free.

use zydecodb.Prelude.{ℕ, ◌<◌, ◌^◌, ◌≡◌, ◌≢◌, refl, subst, true, false, Option, [], ◌∷◌, arith}
use zydecodb.Prelude.Order.{swap}
use zydecodb.Prelude.Bytes.{Bytes, IsBytes, cmp_bytes, to_be-IsBytes}
use zydecodb.Prelude.Decided.{Decided, Decided-words, Decided-complement, cmp_bytes_of_Decided}
use zydecodb.Json.{Value, null, boolean, number, string, array, object}
use zydecodb.Encoding.{encode_str, encode_value, encode_value_desc, cmp_values, or_zero}
use zydecodb.Encoding.Float.{encode_f64_total_order, total_order_bits, cmp_f64, sign_bit}
use zydecodb.Encoding.Float.Order.{compare-total_order_bits}
use zydecodb.Encoding.Reference.{cmp_ref, IsPlain}

Decided-encode_str : (s t : Bytes) → Decided (encode_str s) (encode_str t) (cmp_bytes s t)
unfolding encode_str cmp_bytes
Decided-encode_str [] [] = refl
Decided-encode_str [] (c ∷ t) = ground arith
Decided-encode_str (b ∷ s) [] = ground arith
Decided-encode_str (b ∷ s) (c ∷ t) = ground (arith, Decided-encode_str s t)

encode_str-IsBytes : (s : Bytes) → IsBytes s → IsBytes (encode_str s)
unfolding encode_str
encode_str-IsBytes [] h = omega arith
encode_str-IsBytes (b ∷ s) h = ground (arith, encode_str-IsBytes s h.1)

total_order_bits-lt : (a : ℕ) → a < 2 ^ 64 → total_order_bits a < 2 ^ 64
unfolding total_order_bits
total_order_bits-lt a h = ground arith

Decided-f64 :
    (a b : ℕ)
    → (a < 2 ^ 64) × (a ≢ sign_bit)
    → (b < 2 ^ 64) × (b ≢ sign_bit)
    → Decided (encode_f64_total_order a) (encode_f64_total_order b) (cmp_f64 a b)
unfolding encode_f64_total_order
Decided-f64 a b ha hb =
    subst (Decided (encode_f64_total_order a) (encode_f64_total_order b))
      (compare-total_order_bits a b ha.0 hb.0 ha.1 hb.1)
      (Decided-words 8 (total_order_bits a) (total_order_bits b) (total_order_bits-lt a ha.0)
        (total_order_bits-lt b hb.0))

module _ {N : Type 0} (as_f64 : N → Option ℕ) where
  pub Decided-encode_value :
      (a b : Value N)
      → IsPlain as_f64 a
      → IsPlain as_f64 b
      → Decided (encode_value as_f64 a) (encode_value as_f64 b) (cmp_ref as_f64 a b)
  unfolding encode_value
  Decided-encode_value (number a) (number b) ha hb =
      Decided-f64 (or_zero (as_f64 a)) (or_zero (as_f64 b)) ha hb
  Decided-encode_value (number a) _ ha hb = refl
  Decided-encode_value (string s) (string t) ha hb = Decided-encode_str s t
  Decided-encode_value (string s) _ ha hb = refl
  Decided-encode_value (boolean true) (boolean b) ha hb = ground arith
  Decided-encode_value (boolean false) (boolean b) ha hb = ground arith
  Decided-encode_value (boolean a) null ha hb = refl
  Decided-encode_value (boolean a) _ ha hb = refl
  Decided-encode_value null null ha hb = refl
  Decided-encode_value null _ ha hb = refl
  Decided-encode_value (array items) null ha hb = refl
  Decided-encode_value (array items) _ ha hb = refl
  Decided-encode_value (object fields) null ha hb = refl
  Decided-encode_value (object fields) _ ha hb = refl

  -- `cmp_values`, the byte order of the encodings, is the order of the values: null, then booleans,
  -- then numbers by numeric value, then strings; arrays and objects count as null. Numbers may be
  -- any doubles but -0.0.
  pub cmp_values-eq-cmp_ref :
      (a b : Value N)
      → IsPlain as_f64 a
      → IsPlain as_f64 b
      → cmp_values as_f64 a b ≡ cmp_ref as_f64 a b
  unfolding cmp_values
  cmp_values-eq-cmp_ref a b ha hb =
      cmp_bytes_of_Decided (encode_value as_f64 a) (encode_value as_f64 b) (cmp_ref as_f64 a b)
        (Decided-encode_value a b ha hb)

  pub encode_value-IsBytes : (v : Value N) → IsPlain as_f64 v → IsBytes (encode_value as_f64 v)
  unfolding encode_value
  encode_value-IsBytes null h = omega arith
  encode_value-IsBytes (boolean true) h = omega arith
  encode_value-IsBytes (boolean false) h = omega arith
  encode_value-IsBytes (number n) h =
      (omega arith, to_be-IsBytes 8 (total_order_bits (or_zero (as_f64 n))))
  encode_value-IsBytes (string s) h = (omega arith, encode_str-IsBytes s h)
  encode_value-IsBytes (array items) h = omega arith
  encode_value-IsBytes (object fields) h = omega arith

  -- A descending field sorts the other way round.
  pub Decided-encode_value_desc :
      (a b : Value N)
      → IsPlain as_f64 a
      → IsPlain as_f64 b
      → Decided
          (encode_value_desc as_f64 a)
          (encode_value_desc as_f64 b)
          (swap (cmp_ref as_f64 a b))
  unfolding encode_value_desc
  Decided-encode_value_desc a b ha hb =
      Decided-complement (encode_value as_f64 a) (encode_value as_f64 b) (cmp_ref as_f64 a b)
        (encode_value-IsBytes a ha) (encode_value-IsBytes b hb) (Decided-encode_value a b ha hb)
