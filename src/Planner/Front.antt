-- ===== src/Planner/Front.antt =====
-- The keys of an index behind the equality prefix that crates/zydecodb-document/src/planner.rs finds.
use Prim.Native.Nat.Ordering.{eq}
use zydecodb.Prelude.{
  ℕ, zero, suc, ◌-◌, ◌≡◌, refl, sym, ap, ap₂, subst, ◌∙◌, inl, inr, Bool, true, false, Option, none,
  some, List, [], ◌∷◌, ◌++◌, map, arith, All, length, take, drop, replicate, append_assoc,
  Option-cases, length-append, length-take,
}
use zydecodb.Prelude.Bytes.{Bytes, cmp_bytes-IsTotal}
use zydecodb.Prelude.Decided.{Decided, cmp_bytes_of_Decided}
use zydecodb.Json.{Value}
use zydecodb.Encoding.{encode_fields_with_directions, encode_value_directed}
use zydecodb.Encoding.Composite.{Decided-directed}
use zydecodb.Encoding.Path.{same_str, extract_path}
use zydecodb.Encoding.Reference.{cmp_ref, IsPlain, directed}
use zydecodb.Catalog.{IndexMeta, ascending}
use zydecodb.Filter.{id_field}
use zydecodb.Planner.{eq_values}
use zydecodb.Planner.Constraints.{Constraint, ConstraintMap, get_constraint}
use zydecodb.Planner.Meets.{Each-at, IsAsEq, Meets}
use zydecodb.Planner.Collected.{MeetsAt, AllMeet, get_constraint-MeetsAt}

length-replicate : (n : ℕ) (b : Bool) → length (replicate n b) ≡ n
length-replicate zero b = refl
length-replicate (suc n) b = ap suc (length-replicate n b)

-- There is a direction for every field.
pub length-ascending : (idx : IndexMeta) → length (ascending idx) ≡ length idx.fields
unfolding ascending
length-ascending idx = by_cases idx.directions
  where
    by_cases :
        (ds : List Bool) → length (ascending (record idx { directions = ds })) ≡ length idx.fields
    by_cases [] = length-replicate (length idx.fields) true
    by_cases (d ∷ ds) = omega (
      arith,
      length-append (take (length idx.fields) (d ∷ ds))
          (replicate (length idx.fields - length (d ∷ ds)) true),
      length-take (length idx.fields) (d ∷ ds),
      length-replicate (length idx.fields - length (d ∷ ds)) true,
    )

Decided-same : (xs ys : Bytes) → Decided xs ys eq → xs ≡ ys
Decided-same xs ys d = cmp_bytes-IsTotal.same xs ys (cmp_bytes_of_Decided xs ys eq d)

module _ {N : Type 0} where
  eq_values_step :
      (m : ConstraintMap N) (f : Bytes) (fs : List Bytes) (vs : List (Value N))
      → eq_values m (f ∷ fs) ≡ some vs
      → (c : Constraint N) × (v : Value N) × (ws : List (Value N)) × (get_constraint m f ≡ some c)
        × (c.eq ≡ some v)
        × (eq_values m fs ≡ some ws)
        × (v ∷ ws ≡ vs)
  unfolding eq_values
  eq_values_step m f fs vs e = elim (Option-cases (get_constraint m f)) [
    | inl n ↦ absurd (clash (rw (n, eq_values) at e))
    | inr (c, k) ↦ at_constraint c k (rw (k, eq_values) at e)
  ]
    where
      clash : {A : Type 0} {a : A} → ¬ (none ≡ some a)
      clash h = ground arith

      at_constraint :
          (c : Constraint N)
          → get_constraint m f ≡ some c
          → (elim c.eq [
            | none ↦ none
            | some v ↦ elim (eq_values m fs) [ none ↦ none | some vs ↦ some (v ∷ vs) ]
          ])
            ≡ some vs
          → (c : Constraint N) × (v : Value N) × (ws : List (Value N)) × (get_constraint m f
              ≡ some c)
            × (c.eq ≡ some v)
            × (eq_values m fs ≡ some ws)
            × (v ∷ ws ≡ vs)
      at_constraint c k h = elim (Option-cases c.eq) [
        | inl n ↦ absurd (clash (rw n at h))
        | inr (v, q) ↦ elim (Option-cases (eq_values m fs)) [
          | inl n ↦ absurd (clash (rw (q, n) at h))
          | inr (ws, r) ↦ (c, v, ws, k, q, r, same (rw (q, r) at h))
        ]
      ]
        where
          same : {a b : List (Value N)} → some a ≡ some b → a ≡ b
          same h = ground arith

module _ {N : Type 0} (as_f64 : N → Option ℕ) where
  -- The fields of a document, as an index encodes them.
  unfoldable pub encode_doc : Value N → List Bytes → List Bool → Bytes
  unfolding encode_fields_with_directions extract_path
  encode_doc doc fs ds = encode_fields_with_directions as_f64 (map (extract_path doc) fs) ds

  -- What an index may hold: values that are not -0.0, and not the path `_id`, which filters read from
  -- the document's id.
  abbrev pub IsIndexable : Value N → List Bytes → Type 0
  IsIndexable doc = All (λ p. IsPlain as_f64 (extract_path doc p) × (same_str p id_field ≡ false))

  same_field :
      (d : Bool) (a b : Value N)
      → IsPlain as_f64 a
      → IsPlain as_f64 b
      → cmp_ref as_f64 a b ≡ eq
      → encode_value_directed as_f64 a d ≡ encode_value_directed as_f64 b d
  same_field d a b ha hb e =
      Decided-same (encode_value_directed as_f64 a d) (encode_value_directed as_f64 b d) (
        subst (Decided (encode_value_directed as_f64 a d) (encode_value_directed as_f64 b d))
          (ap (directed d) e ∙ either d) (Decided-directed as_f64 d a b ha hb))
    where
      either : (d : Bool) → directed d eq ≡ eq
      either d = ground arith

  module _ {R : Type 0} (is_match : R → Bytes → Bool) (lossy : Bytes → Bytes) (doc : Value N)
      (id : Bytes) where
    pub field-Meets :
        (m : ConstraintMap N) (f : Bytes) (c : Constraint N)
        → AllMeet as_f64 is_match lossy doc id m
        → same_str f id_field ≡ false
        → get_constraint m f ≡ some c
        → Meets as_f64 (extract_path doc f) c
    field-Meets m f c h n e =
        rw (n, MeetsAt) at (get_constraint-MeetsAt as_f64 is_match lossy doc id m f c h e)

    -- A document that meets the constraints has the literals of the prefix in front of its key.
    pub eq_front :
        (m : ConstraintMap N) (n : ℕ) (fs : List Bytes) (ds : List Bool) (vs : List (Value N))
        → AllMeet as_f64 is_match lossy doc id m
        → IsIndexable doc fs
        → length ds ≡ length fs
        → eq_values m (take n fs) ≡ some vs
        → encode_fields_with_directions as_f64 vs (take n ds)
            ++ encode_doc doc (drop n fs) (drop n ds)
          ≡ encode_doc doc fs ds
    unfolding encode_doc encode_fields_with_directions encode_value_directed
    eq_front m zero fs ds vs h p l e = nothing_in_front vs (unfold eq_values in e)
      where
        nothing_in_front :
            (vs : List (Value N))
            → some [] ≡ some vs
            → encode_fields_with_directions as_f64 vs [] ++ encode_doc doc fs ds
              ≡ encode_doc doc fs ds
        nothing_in_front [] k = refl
        nothing_in_front (v ∷ vs) k = ground arith
    eq_front m (suc n) [] ds vs h p l e = nothing_at_all vs ds l (unfold eq_values in e)
      where
        nothing_at_all :
            (vs : List (Value N)) (ds : List Bool)
            → length ds ≡ 0
            → some [] ≡ some vs
            → encode_fields_with_directions as_f64 vs (take (suc n) ds) ++ [] ≡ []
        nothing_at_all [] ds k q = refl
        nothing_at_all (v ∷ vs) ds k q = ground arith
    eq_front m (suc n) (f ∷ fs) [] vs h p l e = absurd (omega arith)
    eq_front m (suc n) (f ∷ fs) (d ∷ ds) vs h p l e =
        let (c, v, ws, k, q, r, s) = eq_values_step m f (take n fs) vs e in
        let at_v = Each-at (IsAsEq as_f64 (extract_path doc f)) q (field-Meets m f c h p.0.1 k).0 in
        subst
          (λ us.
            encode_fields_with_directions as_f64 us (d ∷ take n ds)
              ++ encode_doc doc (drop n fs) (drop n ds)
            ≡ encode_doc doc (f ∷ fs) (d ∷ ds))
          s
          (append_assoc (encode_value_directed as_f64 v d)
              (encode_fields_with_directions as_f64 ws (take n ds))
              (encode_doc doc (drop n fs) (drop n ds))
            ∙ ap₂ (λ (a b : Bytes). a ++ b)
                (sym (same_field d (extract_path doc f) v p.0.0 at_v.0 at_v.1))
                (eq_front m n fs ds ws h p.1 (omega arith) r))
