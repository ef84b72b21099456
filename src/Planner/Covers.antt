-- ===== src/Planner/Covers.antt =====
-- The access paths of crates/zydecodb-document/src/planner.rs leave no matching document out.
use zydecodb.Prelude.{
  ℕ, zero, suc, ◌≡◌, refl, sym, ap, subst, ◌∙◌, inl, inr, Bool, true, false, Option, none, some,
  List, [], ◌∷◌, ◌++◌, arith, All, length, take, drop, get_elem?, append_assoc, Option-cases,
}
use zydecodb.Prelude.Bytes.{Bytes, IsBytes, append-IsBytes}
use zydecodb.Prelude.SortedMap.{Has}
use zydecodb.Json.{Value}
use zydecodb.Encoding.{encode_fields_with_directions, encode_value_directed}
use zydecodb.Encoding.Path.{same_str, extract_path}
use zydecodb.Encoding.Reference.{IsPlain}
use zydecodb.DocKeys.{index_prefix, index_key}
use zydecodb.DocKeys.Layout.{index_prefix-IsBytes}
use zydecodb.DocKeys.Scan.{in_range}
use zydecodb.Catalog.{IndexMeta, ascending}
use zydecodb.Filter.{id_field}
use zydecodb.Store.{encoded_fields}
use zydecodb.Planner.{
  AccessPath, by_id, index_scan, collection_scan, eq_values, direction_at, scan_bounds,
  get_constraint_of, build_index_scan,
}
use zydecodb.Planner.Constraints.{Constraint, ConstraintMap, get_constraint}
use zydecodb.Planner.Collected.{AllMeet}
use zydecodb.Planner.Front.{IsIndexable, encode_doc, eq_front, field-Meets, length-ascending}
use zydecodb.Planner.Bounds.{in_range_front, scan_bounds-hold, directed-IsBytes}

split-IsBytes : (xs ys : Bytes) → IsBytes (xs ++ ys) → IsBytes xs × IsBytes ys
split-IsBytes [] ys h = (tt, h)
split-IsBytes (x ∷ xs) ys h = let r = split-IsBytes xs ys h.1 in ((h.0, r.0), r.1)

All-get {ℓ κ} :
    {A : Type ℓ} (P : A → Type κ) (xs : List A) (n : ℕ) (x : A)
    → All P xs
    → get_elem? xs n ≡ some x
    → P x
All-get P [] n x a e = ground arith
All-get P (y ∷ xs) zero x a e = subst P (same e) a.0
  where
    same : some y ≡ some x → y ≡ x
    same e = ground arith
All-get P (y ∷ xs) (suc n) x a e = All-get P xs n x a.1 e

module _ {N : Type 0} (as_f64 : N → Option ℕ) (doc : Value N) where
  encode_doc-IsBytes :
      (fs : List Bytes) (ds : List Bool)
      → IsIndexable as_f64 doc fs
      → IsBytes (encode_doc as_f64 doc fs ds)
  unfolding encode_doc encode_fields_with_directions encode_value_directed
  encode_doc-IsBytes [] ds h = tt
  encode_doc-IsBytes (f ∷ fs) [] h =
      append-IsBytes (encode_value_directed as_f64 (extract_path doc f) true)
        (encode_doc as_f64 doc fs []) (directed-IsBytes as_f64 true (extract_path doc f) h.0.0)
        (encode_doc-IsBytes fs [] h.1)
  encode_doc-IsBytes (f ∷ fs) (d ∷ ds) h =
      append-IsBytes (encode_value_directed as_f64 (extract_path doc f) d)
        (encode_doc as_f64 doc fs ds) (directed-IsBytes as_f64 d (extract_path doc f) h.0.0)
        (encode_doc-IsBytes fs ds h.1)

  field_behind :
      (n : ℕ) (fs : List Bytes) (ds : List Bool) (f : Bytes)
      → length ds ≡ length fs
      → get_elem? fs n ≡ some f
      → encode_doc as_f64 doc (drop n fs) (drop n ds)
        ≡ encode_value_directed as_f64 (extract_path doc f) (direction_at ds n)
          ++ encode_doc as_f64 doc (drop (suc n) fs) (drop (suc n) ds)
  unfolding encode_doc encode_fields_with_directions encode_value_directed
  field_behind n [] ds f l e = ground arith
  field_behind zero (g ∷ fs) [] f l e = absurd (omega arith)
  field_behind zero (g ∷ fs) (d ∷ ds) f l e =
      ap (λ k. encode_value_directed as_f64 (extract_path doc k) d ++ encode_doc as_f64 doc fs ds)
        (same e)
    where
      same : some g ≡ some f → g ≡ f
      same e = ground arith
  field_behind (suc n) (g ∷ fs) [] f l e = absurd (omega arith)
  field_behind (suc n) (g ∷ fs) (d ∷ ds) f l e = field_behind n fs ds f (omega arith) e

-- A path that finds the document, by its id or by one of its index keys.
abbrev pub IsCovered : Bytes → List Bytes → AccessPath → Type 0
IsCovered id keys (by_id i) = i ≡ id
IsCovered id keys (index_scan lo hi fields directions n) =
    (key : Bytes) × Has key keys × (in_range lo hi key ≡ true)
IsCovered id keys collection_scan = Unit

module _ {N R : Type 0} (as_f64 : N → Option ℕ) (is_match : R → Bytes → Bool)
    (lossy : Bytes → Bytes) (doc : Value N) (id : Bytes) (m : ConstraintMap N)
    (met : AllMeet as_f64 is_match lossy doc id m) where
  -- What stands behind the equality prefix is in the range, whatever the range is.
  rest_in_range :
      (base : Bytes) (fs : List Bytes) (ds : List Bool) (n : ℕ)
      → IsBytes base
      → IsBytes id
      → IsIndexable as_f64 doc fs
      → length ds ≡ length fs
      → IsBytes (encode_doc as_f64 doc (drop n fs) (drop n ds))
      → let b =
          scan_bounds as_f64 base (get_constraint_of m (get_elem? fs n)) (direction_at ds n) in
        in_range b.0 b.1 (base ++ (encode_doc as_f64 doc (drop n fs) (drop n ds) ++ id)) ≡ true
  rest_in_range base fs ds n hb hi hf l hr = elim (Option-cases (get_elem? fs n)) [
    | inl none_left ↦ rw (none_left) (unconstrained refl)
    | inr (f, e) ↦ rw e (elim (Option-cases (get_constraint m f)) [
      | inl free ↦ rw free (unconstrained refl)
      | inr (c, k) ↦
          let later = encode_doc as_f64 doc (drop (suc n) fs) (drop (suc n) ds) in
          let v = extract_path doc f in
          let at_f =
            All-get (λ p. IsPlain as_f64 (extract_path doc p) × (same_str p id_field ≡ false)) fs n
              f hf e in
          rw k (
            rw (field_behind as_f64 doc n fs ds f l e) (
              rw (append_assoc (encode_value_directed as_f64 v (direction_at ds n)) later id) (
                scan_bounds-hold as_f64 base (later ++ id) v c (direction_at ds n) hb
                  (append-IsBytes later id
                    (split-IsBytes (encode_value_directed as_f64 v (direction_at ds n)) later
                      (subst IsBytes (field_behind as_f64 doc n fs ds f l e) hr)).1
                    hi)
                  at_f.0 (field-Meets as_f64 is_match lossy doc id m f c met at_f.1 k))))
    ])
  ]
    where
      unconstrained :
          {c : Option (Constraint N)}
          → c ≡ none
          → let b = scan_bounds as_f64 base c (direction_at ds n) in
            in_range b.0 b.1 (base ++ (encode_doc as_f64 doc (drop n fs) (drop n ds) ++ id)) ≡ true
      unconstrained {c = none} e =
          unfold scan_bounds in
          in_range_front base (encode_doc as_f64 doc (drop n fs) (drop n ds) ++ id) hb
            (append-IsBytes (encode_doc as_f64 doc (drop n fs) (drop n ds)) id hr hi)
      unconstrained {c = some c} e = ground arith

  -- The key of a document under an index.
  abbrev key_under : Bytes → ℕ → IndexMeta → Bytes
  key_under prefix c idx = index_key prefix c idx.id (encoded_fields as_f64 idx doc) id

  key_split :
      (prefix : Bytes) (c n : ℕ) (idx : IndexMeta) (vs : List (Value N))
      → IsIndexable as_f64 doc idx.fields
      → eq_values m (take n idx.fields) ≡ some vs
      → key_under prefix c idx
        ≡ (index_prefix prefix c idx.id
            ++ encode_fields_with_directions as_f64 vs (take n (ascending idx)))
          ++ (encode_doc as_f64 doc (drop n idx.fields) (drop n (ascending idx)) ++ id)
  unfolding index_key encoded_fields encode_doc
  key_split prefix c n idx vs h e =
      let ds = ascending idx in
      let front = encode_fields_with_directions as_f64 vs (take n ds) in
      let rest = encode_doc as_f64 doc (drop n idx.fields) (drop n ds) in
      ap (λ (l : Bytes). index_prefix prefix c idx.id ++ (l ++ id))
        (sym (
          eq_front as_f64 is_match lossy doc id m n idx.fields ds vs met h (length-ascending idx)
            e))
      ∙ ap (λ (l : Bytes). index_prefix prefix c idx.id ++ l) (append_assoc front rest id)
      ∙ sym (append_assoc (index_prefix prefix c idx.id) front (rest ++ id))

  pub build_index_scan-IsCovered :
      (prefix : Bytes) (c n : ℕ) (idx : IndexMeta) (vs : List (Value N)) (keys : List Bytes)
      → IsBytes prefix
      → IsBytes id
      → IsIndexable as_f64 doc idx.fields
      → eq_values m (take n idx.fields) ≡ some vs
      → Has (key_under prefix c idx) keys
      → (path : AccessPath) × (build_index_scan as_f64 prefix c idx n m ≡ some path)
        × IsCovered id keys path
  unfolding build_index_scan
  build_index_scan-IsCovered prefix c n idx vs keys hp hi h e k =
      let ds = ascending idx in
      let front = encode_fields_with_directions as_f64 vs (take n ds) in
      let rest = encode_doc as_f64 doc (drop n idx.fields) (drop n ds) in
      let base = index_prefix prefix c idx.id ++ front in
      let b =
        scan_bounds as_f64 base (get_constraint_of m (get_elem? idx.fields n))
          (direction_at ds n) in
      let parts = split-IsBytes front rest (
        subst IsBytes
          (sym (
            eq_front as_f64 is_match lossy doc id m n idx.fields ds vs met h (length-ascending idx)
              e))
          (encode_doc-IsBytes as_f64 doc idx.fields ds h)) in
      (
        index_scan b.0 b.1 idx.fields ds n,
        rw (e, build_index_scan) refl,
        (
          key_under prefix c idx,
          k,
          rw (key_split prefix c n idx vs h e) (
              rest_in_range base idx.fields ds n
                (append-IsBytes (index_prefix prefix c idx.id) front
                  (index_prefix-IsBytes prefix c idx.id hp) parts.0)
                hi h (length-ascending idx) parts.1),
        ),
      )
