-- ===== src/Planner/Superset.antt =====
-- `plan` of crates/zydecodb-document/src/planner.rs: any filter, any set of indexes.
use zydecodb.Prelude.{
  ℕ, ◌≡◌, refl, sym, subst, ◌∙◌, inl, inr, Bool, true, Option, none, some, List, [], ◌∷◌, map,
  arith, All, take, Option-cases,
}
use zydecodb.Prelude.Bytes.{Bytes, IsBytes}
use zydecodb.Prelude.SortedMap.{Has, All-imp}
use zydecodb.Json.{Value, null, boolean, number, string, array, object}
use zydecodb.Encoding.Path.{same_str_sound, same_str_refl}
use zydecodb.DocKeys.{index_key}
use zydecodb.Catalog.{IndexMeta, CollectionMeta}
use zydecodb.Filter.{Filter, id_field, matches, str_eq}
use zydecodb.Store.{encoded_fields, index_keys_for}
use zydecodb.Planner.{
  AccessPath, by_id, collection_scan, id_literal, plan, plan_indexed, best_index, build_index_scan,
  eq_values,
}
use zydecodb.Planner.Constraints.{
  ConstraintMap, get_constraint, collect_constraints, top_level_fields, no_constraint,
}
use zydecodb.Planner.Meets.{Each, IsPlainPred}
use zydecodb.Planner.Collected.{
  AllMeet, MeetsAt, collect_constraints-AllMeet, get_constraint-MeetsAt,
}
use zydecodb.Planner.Front.{IsIndexable}
use zydecodb.Planner.Choice.{
  IsFound, best_index-IsFound, best_index-IsFound_own, eq_values-eq_prefix,
}
use zydecodb.Planner.Covers.{IsCovered, build_index_scan-IsCovered}

map-Has : {A B : Type 0} (f : A → B) (xs : List A) → All (λ x. Has (f x) (map f xs)) xs
map-Has f [] = tt
map-Has f (x ∷ xs) = (
  inl refl,
  All-imp (λ y. Has (f y) (map f xs)) (λ y. Has (f y) (map f (x ∷ xs))) xs (λ y h. inr h)
      (map-Has f xs),
)

All-both {κ μ} :
    {A : Type 0} (P : A → Type κ) (Q : A → Type μ) (xs : List A)
    → All P xs
    → All Q xs
    → All (λ x. P x × Q x) xs
All-both P Q [] p q = tt
All-both P Q (x ∷ xs) p q = ((p.0, q.0), All-both P Q xs p.1 q.1)

build_index_scan_total :
    {N : Type 0} (as_f64 : N → Option ℕ) (m : ConstraintMap N) (prefix : Bytes) (c n : ℕ)
    (idx : IndexMeta) (vs : List (Value N))
    → eq_values m (take n idx.fields) ≡ some vs
    → (path : AccessPath) × (build_index_scan as_f64 prefix c idx n m ≡ some path)
unfolding build_index_scan
build_index_scan_total as_f64 m prefix c n idx vs e = rw (e, build_index_scan) (_, refl)

plan_indexed_total :
    {N : Type 0} (as_f64 : N → Option ℕ) (m : ConstraintMap N) (prefix : Bytes)
    (coll : CollectionMeta)
    → (path : AccessPath) × (plan_indexed as_f64 m prefix coll ≡ some path)
unfolding plan_indexed
plan_indexed_total as_f64 m prefix coll = elim (Option-cases (best_index m coll.indexes none)) [
  | inl n ↦ (collection_scan, rw (n, plan_indexed) refl)
  | inr ((n, r, idx), k) ↦
      let found =
        subst (Each (IsFound m (λ i. Has i coll.indexes))) k
          (best_index-IsFound_own m coll.indexes) in
      let (vs, e) = eq_values-eq_prefix m idx.fields in
      let (path, q) =
        build_index_scan_total as_f64 m prefix coll.id n idx vs
          (subst (λ l. eq_values m (take l idx.fields) ≡ some vs) (sym found.2) e) in
      (path, rw (k, plan_indexed) q)
]

-- The planner returns a path for every filter: it never meets a missing literal.
pub plan_total :
    {N R : Type 0} (as_f64 : N → Option ℕ) (f : Filter N R) (prefix : Bytes) (coll : CollectionMeta)
    → (path : AccessPath) × (plan as_f64 f prefix coll ≡ some path)
unfolding plan
plan_total as_f64 f prefix coll =
    let m = collect_constraints f in
    elim (Option-cases (id_literal as_f64 (get_constraint m id_field))) [
      | inr (s, k) ↦ (by_id s, rw (k, plan) refl)
      | inl n ↦ let (path, q) = plan_indexed_total as_f64 m prefix coll in (path, rw (n, plan) q)
    ]

module _ {N R : Type 0} (as_f64 : N → Option ℕ) (is_match : R → Bytes → Bool)
    (lossy : Bytes → Bytes) (doc : Value N) (id : Bytes) where
  -- An equality with a string on `_id` names the document.
  id_of_literal :
      (m : ConstraintMap N) (s : Bytes)
      → AllMeet as_f64 is_match lossy doc id m
      → lossy id ≡ id
      → id_literal as_f64 (get_constraint m id_field) ≡ some s
      → s ≡ id
  id_of_literal m s met utf8 e = elim (Option-cases (get_constraint m id_field)) [
    | inl n ↦ absurd (clash (rw n at e))
    | inr (c, k) ↦ by_eq c.eq (rw k at e) (
        rw (same_str_refl id_field, MeetsAt) at
          (get_constraint-MeetsAt as_f64 is_match lossy doc id m id_field c met k))
  ]
    where
      clash : ¬ (none ≡ some s)
      clash h = ground arith

      same : {a b : Bytes} → some a ≡ some b → a ≡ b
      same h = ground arith

      by_eq :
          (o : Option (Value N))
          → id_literal as_f64 (some (record no_constraint { eq = o })) ≡ some s
          → Each (λ t. str_eq (lossy id) t ≡ true) o
          → s ≡ id
      by_eq none h k = absurd (clash h)
      by_eq (some null) h k = absurd (clash h)
      by_eq (some (boolean b)) h k = absurd (clash h)
      by_eq (some (number n)) h k = absurd (clash h)
      by_eq (some (array items)) h k = absurd (clash h)
      by_eq (some (object fields)) h k = absurd (clash h)
      by_eq (some (string t)) h k =
          sym (same h) ∙ same_str_sound t (lossy id) (unfold str_eq in k) ∙ utf8

  module _ (prefix : Bytes) (coll : CollectionMeta) (hp : IsBytes prefix) (hi : IsBytes id)
      (indexable : All (λ idx. IsIndexable as_f64 doc idx.fields) coll.indexes) where
    abbrev keys : List Bytes
    keys = index_keys_for as_f64 coll prefix id doc

    abbrev IsCandidate : IndexMeta → Type 0
    IsCandidate idx =
        IsIndexable as_f64 doc idx.fields
        × Has (index_key prefix coll.id idx.id (encoded_fields as_f64 idx doc) id) keys

    candidates : All IsCandidate coll.indexes
    unfolding index_keys_for
    candidates =
        All-both (λ idx. IsIndexable as_f64 doc idx.fields)
          (λ idx. Has (index_key prefix coll.id idx.id (encoded_fields as_f64 idx doc) id) keys)
          coll.indexes indexable
          (map-Has (λ idx. index_key prefix coll.id idx.id (encoded_fields as_f64 idx doc) id)
            coll.indexes)

    plan_indexed-IsCovered :
        (m : ConstraintMap N)
        → AllMeet as_f64 is_match lossy doc id m
        → (path : AccessPath) × (plan_indexed as_f64 m prefix coll ≡ some path)
          × IsCovered id keys path
    unfolding plan_indexed
    plan_indexed-IsCovered m met = elim (Option-cases (best_index m coll.indexes none)) [
      | inl n ↦ (collection_scan, rw (n, plan_indexed) refl, tt)
      | inr ((n, r, idx), k) ↦
          let found =
            subst (Each (IsFound m IsCandidate)) k
              (best_index-IsFound m IsCandidate coll.indexes none candidates tt) in
          let (vs, e) = eq_values-eq_prefix m idx.fields in
          let (path, q, c) =
            build_index_scan-IsCovered as_f64 is_match lossy doc id m met prefix coll.id n idx vs
              keys hp hi found.0.0
              (subst (λ l. eq_values m (take l idx.fields) ≡ some vs) (sym found.2) e) found.0.1 in
          (path, rw (k, plan_indexed) q, c)
    ]

    -- A document that the filter matches is found on the access path that the planner chooses: under
    -- its id, in the index range under one of its own index keys, or in the scan of the collection.
    -- The document's id is UTF-8, no index is on the path `_id`, and neither the filter nor the
    -- indexed fields of the document hold the number -0.0.
    pub plan-IsCovered :
        (f : Filter N R)
        → lossy id ≡ id
        → All (IsPlainPred as_f64) (top_level_fields f)
        → matches as_f64 is_match lossy f doc (some id) ≡ true
        → (path : AccessPath) × (plan as_f64 f prefix coll ≡ some path) × IsCovered id keys path
    unfolding plan
    plan-IsCovered f utf8 plain e =
        let m = collect_constraints f in
        let met = collect_constraints-AllMeet as_f64 is_match lossy doc id f plain e in
        elim (Option-cases (id_literal as_f64 (get_constraint m id_field))) [
          | inl n ↦ let (path, q, c) = plan_indexed-IsCovered m met in (path, rw (n, plan) q, c)
          | inr (s, k) ↦ (by_id s, rw (k, plan) refl, id_of_literal m s met utf8 k)
        ]
