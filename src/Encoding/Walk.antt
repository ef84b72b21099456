-- ===== src/Encoding/Walk.antt =====
-- The walk over encoded fields finds as many as were written, and its fuel suffices.
use zydecodb.Prelude.{
  ℕ, zero, suc, ◌+◌, ◌≤◌, ◌≡◌, refl, ap, ◌∙◌, Option, some, List, [], ◌∷◌, ◌++◌, length,
  length-append, ltb-false, arith, if◌then◌else◌,
}
use zydecodb.Prelude.Bytes.{Bytes, to_be, length-to_be}
use zydecodb.Prelude.Slices.{drop_first}
use zydecodb.Json.{Value, null, boolean, number, string, array, object}
use zydecodb.Encoding.{
  encode_str, encode_value, encode_fields, skip_str, skip_field, count_fields, try_decode_fields,
  or_zero,
}
use zydecodb.Encoding.Float.{total_order_bits}

skip_str-encode_str : (s rest : Bytes) → skip_str (encode_str s ++ rest) ≡ some rest
unfolding skip_str encode_str
skip_str-encode_str [] rest = refl
skip_str-encode_str (b ∷ []) rest = ground arith
skip_str-encode_str (b ∷ c ∷ s) rest = ground (arith, skip_str-encode_str (c ∷ s) rest)

skip_number : (x : ℕ) (rest : Bytes) → skip_field 2 (to_be 8 x ++ rest) ≡ some rest
unfolding skip_field
skip_number x rest =
    rw
      (ltb-false (length (to_be 8 x ++ rest)) 8
        (omega (arith, length-append (to_be 8 x) rest, length-to_be 8 x)))
      (rw (drop_first (to_be 8 x) rest (length-to_be 8 x)))

round_step :
    (tag : ℕ) (rest next : Bytes) (fuel count : ℕ)
    → skip_field tag rest ≡ some next
    → count_fields (suc fuel) (tag ∷ rest) count ≡ count_fields fuel next (count + 1)
unfolding count_fields
round_step tag rest next fuel count e = rw (e, count_fields)

skip_bool : (b : ℕ) (rest : Bytes) → skip_field 1 (b ∷ rest) ≡ some rest
unfolding skip_field
skip_bool b rest = ground arith

module _ {N : Type 0} (as_f64 : N → Option ℕ) where
  one_round :
      (v : Value N) (rest : Bytes) (fuel count : ℕ)
      → count_fields (suc fuel) (encode_value as_f64 v ++ rest) count
        ≡ count_fields fuel rest (count + 1)
  unfolding encode_value skip_field
  one_round null rest fuel count = round_step 0 rest rest fuel count refl
  one_round (boolean b) rest fuel count =
      round_step 1 ((if b then 1 else 0) ∷ rest) rest fuel count
        (skip_bool (if b then 1 else 0) rest)
  one_round (number n) rest fuel count =
      let x = total_order_bits (or_zero (as_f64 n)) in
      round_step 2 (to_be 8 x ++ rest) rest fuel count (skip_number x rest)
  one_round (string s) rest fuel count =
      round_step 3 (encode_str s ++ rest) rest fuel count (skip_str-encode_str s rest)
  one_round (array items) rest fuel count = round_step 0 rest rest fuel count refl
  one_round (object fields) rest fuel count = round_step 0 rest rest fuel count refl

  encode_value_nonempty : (v : Value N) → 1 ≤ length (encode_value as_f64 v)
  unfolding encode_value
  encode_value_nonempty null = omega arith
  encode_value_nonempty (boolean b) = omega arith
  encode_value_nonempty (number n) = omega arith
  encode_value_nonempty (string s) = omega arith
  encode_value_nonempty (array items) = omega arith
  encode_value_nonempty (object fields) = omega arith

  count_fields-encode_fields :
      (vs : List (Value N)) (fuel count : ℕ)
      → length (encode_fields as_f64 vs) ≤ fuel
      → count_fields fuel (encode_fields as_f64 vs) count ≡ some (count + length vs)
  unfolding encode_fields
  count_fields-encode_fields [] zero count h = unfold count_fields in ap some (omega arith)
  count_fields-encode_fields [] (suc fuel) count h = unfold count_fields in ap some (omega arith)
  count_fields-encode_fields (v ∷ vs) zero count h = absurd (
      omega (
        arith,
        encode_value_nonempty v,
        length-append (encode_value as_f64 v) (encode_fields as_f64 vs),
      ))
  count_fields-encode_fields (v ∷ vs) (suc fuel) count h =
      one_round v (encode_fields as_f64 vs) fuel count
      ∙ count_fields-encode_fields vs fuel (count + 1) (
          omega (
            arith,
            encode_value_nonempty v,
            length-append (encode_value as_f64 v) (encode_fields as_f64 vs),
          ))
      ∙ ap some (omega arith)

  -- The walk over a composite key fragment consumes all of it and counts the fields that were
  -- encoded.
  pub try_decode-encode_fields :
      (vs : List (Value N)) → try_decode_fields (encode_fields as_f64 vs) ≡ some (length vs)
  unfolding try_decode_fields
  try_decode-encode_fields vs =
      count_fields-encode_fields vs (length (encode_fields as_f64 vs)) 0 (omega arith)
      ∙ ap some (omega arith)
