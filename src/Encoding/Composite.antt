-- ===== src/Encoding/Composite.antt =====
-- Composite keys: several encodings in a row, and a document id behind them.
use Prim.Native.Nat.Ordering.{eq}
use zydecodb.Prelude.{
  ℕ, ◌≡◌, refl, sym, ap, ◌∙◌, Bool, true, false, Option, List, [], ◌∷◌, ◌++◌, length, All, arith,
}
use zydecodb.Prelude.Order.{then_with}
use zydecodb.Prelude.Bytes.{Bytes, cmp_bytes, cmp_bytes-IsTotal}
use zydecodb.Prelude.Decided.{Decided, Decided-append, cmp_bytes-Decided}
use zydecodb.Json.{Value}
use zydecodb.Encoding.{
  encode_fields_with_directions, encode_value_directed, first_direction, later_directions,
}
use zydecodb.Encoding.Reference.{cmp_ref, cmp_fields, directed, IsPlain}
use zydecodb.Encoding.Order.{Decided-encode_value, Decided-encode_value_desc}

module _ {N : Type 0} (as_f64 : N → Option ℕ) where
  pub Decided-directed :
      (d : Bool) (a b : Value N)
      → IsPlain as_f64 a
      → IsPlain as_f64 b
      → Decided
          (encode_value_directed as_f64 a d)
          (encode_value_directed as_f64 b d)
          (directed d (cmp_ref as_f64 a b))
  unfolding encode_value_directed
  Decided-directed true a b ha hb = Decided-encode_value as_f64 a b ha hb
  Decided-directed false a b ha hb = Decided-encode_value_desc as_f64 a b ha hb

  Decided-fields :
      (vs ws : List (Value N)) (ds : List Bool)
      → length vs ≡ length ws
      → All (IsPlain as_f64) vs
      → All (IsPlain as_f64) ws
      → Decided
          (encode_fields_with_directions as_f64 vs ds)
          (encode_fields_with_directions as_f64 ws ds)
          (cmp_fields as_f64 vs ws ds)
  unfolding encode_fields_with_directions encode_value_directed
  Decided-fields [] [] ds e ha hb = refl
  Decided-fields [] (b ∷ ws) ds e ha hb = absurd (omega arith)
  Decided-fields (a ∷ vs) [] ds e ha hb = absurd (omega arith)
  Decided-fields (a ∷ vs) (b ∷ ws) ds e ha hb =
      let d = first_direction ds in
      Decided-append (encode_value_directed as_f64 a d) (encode_value_directed as_f64 b d)
        (encode_fields_with_directions as_f64 vs (later_directions ds))
        (encode_fields_with_directions as_f64 ws (later_directions ds))
        (directed d (cmp_ref as_f64 a b)) (cmp_fields as_f64 vs ws (later_directions ds))
        (Decided-directed d a b ha.0 hb.0)
        (Decided-fields vs ws (later_directions ds) (omega arith) ha.1 hb.1)

  -- Keys of as many fields, without the number -0.0 in any of them, sort by the fields, each in its
  -- direction, and at equal fields by what stands behind them.
  pub composite_order :
      (vs ws : List (Value N)) (ds : List Bool) (id_a id_b : Bytes)
      → length vs ≡ length ws
      → All (IsPlain as_f64) vs
      → All (IsPlain as_f64) ws
      → cmp_bytes
          (encode_fields_with_directions as_f64 vs ds ++ id_a)
          (encode_fields_with_directions as_f64 ws ds ++ id_b)
        ≡ then_with (cmp_fields as_f64 vs ws ds) (cmp_bytes id_a id_b)
  composite_order vs ws ds id_a id_b e ha hb =
      cmp_bytes-Decided (encode_fields_with_directions as_f64 vs ds)
        (encode_fields_with_directions as_f64 ws ds) id_a id_b (cmp_fields as_f64 vs ws ds)
        (Decided-fields vs ws ds e ha hb)

  -- Two index keys of as many fields are equal only if the fields compare equal and the ids are
  -- equal: no encoding is a proper prefix of another, so the id cannot be mistaken for a field.
  pub composite_unambiguous :
      (vs ws : List (Value N)) (ds : List Bool) (id_a id_b : Bytes)
      → length vs ≡ length ws
      → All (IsPlain as_f64) vs
      → All (IsPlain as_f64) ws
      → encode_fields_with_directions as_f64 vs ds ++ id_a
        ≡ encode_fields_with_directions as_f64 ws ds ++ id_b
      → (cmp_fields as_f64 vs ws ds ≡ eq) × (id_a ≡ id_b)
  composite_unambiguous vs ws ds id_a id_b e ha hb h =
      let o = composite_order vs ws ds id_a id_b e ha hb in
      let s = cmp_bytes-IsTotal.self (encode_fields_with_directions as_f64 ws ds ++ id_b) in
      let t : then_with (cmp_fields as_f64 vs ws ds) (cmp_bytes id_a id_b) ≡ eq =
        sym o ∙ ap (λ l. cmp_bytes l (encode_fields_with_directions as_f64 ws ds ++ id_b)) h ∙ s in
      (ground arith, cmp_bytes-IsTotal.same id_a id_b (ground arith))
