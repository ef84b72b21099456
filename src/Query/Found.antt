-- ===== src/Query/Found.antt =====
-- The ids that the loops of crates/zydecodb-document/src/query.rs are to find, and the documents of
-- the collection that match.
use zydecodb.Prelude.{
  ℕ, ◌+◌, ◌≡◌, ◌↔◌, refl, sym, ap, subst, ◌∙◌, inl, inr, Bool, true, Option, some, List, [], ◌∷◌,
  ◌++◌, length, length-append, drop, arith, Option-cases, Bool-cases,
}
use zydecodb.Prelude.Bytes.{Bytes, IsBytes, to_be, length-to_be}
use zydecodb.Prelude.SortedMap.{Has}
use zydecodb.Json.{Value}
use zydecodb.DocKeys.{rec_doc, doc_prefix, doc_key, doc_id_from_doc_key, prefix_upper_bound}
use zydecodb.DocKeys.Scan.{is_prefix, scan_exact}
use zydecodb.DocKeys.Layout.{doc_id-doc_key, doc_prefix-IsBytes}
use zydecodb.Filter.{Filter}
use zydecodb.Planner.Bounds.{is_prefix_front}
use zydecodb.Query.{check_filter}
use zydecodb.Query.Snapshot.{SnapshotHandle, IsCoherent}
use zydecodb.Query.Visit.{index_matches, document_matches}

is_prefix_sound : (p k : Bytes) → is_prefix p k ≡ true → k ≡ p ++ drop (length p) k
unfolding is_prefix
is_prefix_sound [] k h = refl
is_prefix_sound (x ∷ p) [] h = ground arith
is_prefix_sound (x ∷ p) (y ∷ k) h = ground (arith, is_prefix_sound p k)

module _ {N R : Type 0} (as_f64 : N → Option ℕ) (is_match : R → Bytes → Bool)
    (lossy : Bytes → Bytes) (view : Bytes → Value N) (snap : SnapshotHandle)
    (filter : Filter N R) where
  abbrev passes : Bytes → Bytes → Bool
  passes = check_filter as_f64 is_match lossy view snap filter

  -- A stored document under the prefix passes the filter.
  abbrev pub IsMatch : Bytes → Bytes → Type 0
  IsMatch prefix id =
      (stored : Bytes) × (snap.get (prefix ++ id) ≡ some stored) × (passes stored id ≡ true)

  pub index_matches_sound :
      (prefix : Bytes) (items : List (Bytes × Bytes)) (id : Bytes)
      → Has id (index_matches as_f64 is_match lossy view snap filter prefix items)
      → IsMatch prefix id
  unfolding index_matches
  index_matches_sound prefix ((ikey, i) ∷ items) id h =
      elim (Option-cases (snap.get (prefix ++ i))) [
        | inl n ↦ index_matches_sound prefix items id (rw (n, index_matches) at h)
        | inr (stored, e) ↦ elim (Bool-cases (passes stored i)) [
          | inl p ↦ elim (rw (e, index_matches, p) at h) [
            | inl s ↦ subst (IsMatch prefix) (sym s) (stored, e, p)
            | inr k ↦ index_matches_sound prefix items id k
          ]
          | inr p ↦ index_matches_sound prefix items id (rw (e, index_matches, p) at h)
        ]
      ]
  index_matches_sound prefix [] id h = absurd h

  pub index_matches_complete :
      (prefix : Bytes) (items : List (Bytes × Bytes)) (ikey id : Bytes)
      → Has (ikey, id) items
      → IsMatch prefix id
      → Has id (index_matches as_f64 is_match lossy view snap filter prefix items)
  unfolding index_matches
  index_matches_complete prefix [] ikey id h m = absurd h
  index_matches_complete prefix ((j, i) ∷ items) ikey id (inl s) (stored, e, p) =
      let same : id ≡ i = ap (λ (x : Bytes × Bytes). x.1) s in
      let e2 : snap.get (prefix ++ i) ≡ some stored =
        subst (λ x. snap.get (prefix ++ x) ≡ some stored) same e in
      let p2 : passes stored i ≡ true = subst (λ x. passes stored x ≡ true) same p in
      rw (e2, index_matches, p2) (inl same)
  index_matches_complete prefix ((j, i) ∷ items) ikey id (inr h) m =
      let ih = index_matches_complete prefix items ikey id h m in
      elim (Option-cases (snap.get (prefix ++ i))) [
        | inl n ↦ rw (n, index_matches) ih
        | inr (stored, e) ↦ elim (Bool-cases (passes stored i)) [
          | inl p ↦ rw (e, index_matches, p) (inr ih)
          | inr p ↦ rw (e, index_matches, p) ih
        ]
      ]

  pub document_matches_sound :
      (n : ℕ) (items : List (Bytes × Bytes)) (id : Bytes)
      → Has id (document_matches as_f64 is_match lossy view snap filter n items)
      → (key : Bytes) × (stored : Bytes) × Has (key, stored) items
        × (id ≡ doc_id_from_doc_key n key)
        × (passes stored id ≡ true)
  unfolding document_matches
  document_matches_sound n [] id h = absurd h
  document_matches_sound n ((key, stored) ∷ items) id h =
      elim (Bool-cases (passes stored (doc_id_from_doc_key n key))) [
        | inl p ↦ elim (rw (p, document_matches) at h) [
          | inl s ↦ (key, stored, inl refl, s, subst (λ x. passes stored x ≡ true) (sym s) p)
          | inr k ↦
              let (key, stored, has, e, q) = document_matches_sound n items id k in
              (key, stored, inr has, e, q)
        ]
        | inr p ↦
            let (key, stored, has, e, q) =
              document_matches_sound n items id (rw (p, document_matches) at h) in
            (key, stored, inr has, e, q)
      ]

  pub document_matches_complete :
      (n : ℕ) (items : List (Bytes × Bytes)) (key stored : Bytes)
      → Has (key, stored) items
      → passes stored (doc_id_from_doc_key n key) ≡ true
      → Has
          (doc_id_from_doc_key n key)
          (document_matches as_f64 is_match lossy view snap filter n items)
  unfolding document_matches
  document_matches_complete n [] key stored h p = absurd h
  document_matches_complete n ((k, v) ∷ items) key stored (inl s) p =
      let kk : key ≡ k = ap (λ (x : Bytes × Bytes). x.0) s in
      let vv : stored ≡ v = ap (λ (x : Bytes × Bytes). x.1) s in
      let q : passes v (doc_id_from_doc_key n k) ≡ true =
        subst (λ x. passes v (doc_id_from_doc_key n x) ≡ true) kk
          (subst (λ x. passes x (doc_id_from_doc_key n key) ≡ true) vv p) in
      rw (q, document_matches) (inl (ap (doc_id_from_doc_key n) kk))
  document_matches_complete n ((k, v) ∷ items) key stored (inr h) p =
      let ih = document_matches_complete n items key stored h p in
      elim (Bool-cases (passes v (doc_id_from_doc_key n k))) [
        | inl q ↦ rw (q, document_matches) (inr ih)
        | inr q ↦ rw (q, document_matches) ih
      ]

  length-doc_prefix : (p : Bytes) (c : ℕ) → length (doc_prefix p c) ≡ length p + 1 + 4
  unfolding doc_prefix
  length-doc_prefix p c = omega (arith, length-append p (rec_doc ∷ to_be 4 c), length-to_be 4 c)

  module _ (p : Bytes) (c : ℕ) (id : Bytes) (ok : IsCoherent snap) (hp : IsBytes p) where
    abbrev met : List (Bytes × Bytes)
    met = snap.scan (doc_prefix p c) (prefix_upper_bound (doc_prefix p c))

    collection_sound :
        Has id (document_matches as_f64 is_match lossy view snap filter (length p) met)
        → IsMatch (doc_prefix p c) id
    unfolding doc_id_from_doc_key
    collection_sound h =
        let (key, stored, has, e, q) = document_matches_sound (length p) met id h in
        let (got, inside) =
          (ok.scan_has (doc_prefix p c) (prefix_upper_bound (doc_prefix p c)) key stored).0 has in
        let front = is_prefix_sound (doc_prefix p c) key (
          sym (
            scan_exact (doc_prefix p c) key (doc_prefix-IsBytes p c hp)
              (ok.key_bytes key stored got))
          ∙ inside) in
        let cut : key ≡ doc_prefix p c ++ id =
          front
          ∙ ap (λ (l : Bytes). doc_prefix p c ++ l)
              (ap (λ (k : ℕ). drop k key) (length-doc_prefix p c) ∙ sym e) in
        (stored, subst (λ k. snap.get k ≡ some stored) cut got, q)

    collection_complete :
        IsMatch (doc_prefix p c) id
        → Has id (document_matches as_f64 is_match lossy view snap filter (length p) met)
    collection_complete (stored, got, q) =
        let key = doc_prefix p c ++ id in
        let back : doc_id_from_doc_key (length p) key ≡ id =
          unfold doc_key in doc_id-doc_key p c id in
        let inside =
          scan_exact (doc_prefix p c) key (doc_prefix-IsBytes p c hp) (ok.key_bytes key stored got)
          ∙ is_prefix_front (doc_prefix p c) id in
        let has =
          (ok.scan_has (doc_prefix p c) (prefix_upper_bound (doc_prefix p c)) key stored).1
            (got, inside) in
        subst (λ x. Has x (document_matches as_f64 is_match lossy view snap filter (length p) met))
          back
          (document_matches_complete (length p) met key stored has
            (subst (λ x. passes stored x ≡ true) (sym back) q))

    -- The scan of the collection meets the documents that match, all of them.
    pub collection_found :
        Has id (document_matches as_f64 is_match lossy view snap filter (length p) met)
        ↔ IsMatch (doc_prefix p c) id
    collection_found = (collection_sound, collection_complete)
