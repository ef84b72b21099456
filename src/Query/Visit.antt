-- ===== src/Query/Visit.antt =====
-- The loops of crates/zydecodb-document/src/query.rs with the visitor of `find_ids`: within their
-- limits they return the matching ids, in the order of the scan.
use zydecodb.Prelude.{
  ℕ, suc, ◌+◌, ◌≤◌, ◌≡◌, sym, ap, ◌∙◌, inl, inr, Bool, true, false, Option, none, some, List, [],
  ◌∷◌, ◌++◌, length, length-append, append_assoc, append-nil, arith, Option-cases, Bool-cases, leb,
  ltb-false,
}
use zydecodb.Prelude.Bytes.{Bytes}
use zydecodb.Json.{Value}
use zydecodb.DocErrors.{ok}
use zydecodb.DocKeys.{doc_id_from_doc_key}
use zydecodb.Filter.{Filter}
use zydecodb.Query.{
  MatchVisitStats, FoundIds, max_usize, count_candidate, count_match, check_filter, visit_index,
  visit_documents, push_id,
}
use zydecodb.Query.Snapshot.{SnapshotHandle}

pub leb-false : (a b : ℕ) → suc b ≤ a → leb a b ≡ false
leb-false a b h = ground arith

abbrev pub counted : MatchVisitStats → MatchVisitStats
counted stats = record stats { candidates = stats.candidates + 1 }

pub count_candidate_within :
    (stats : MatchVisitStats)
    → suc stats.candidates ≤ max_usize
    → count_candidate max_usize stats ≡ ok (counted stats)
unfolding count_candidate
count_candidate_within stats h =
    rw (leb-false max_usize stats.candidates h)
      (rw (ltb-false max_usize (stats.candidates + 1) (omega arith)))

module _ {N R : Type 0} (as_f64 : N → Option ℕ) (is_match : R → Bytes → Bool)
    (lossy : Bytes → Bytes) (view : Bytes → Value N) (snap : SnapshotHandle)
    (filter : Filter N R) where
  abbrev passes : Bytes → Bytes → Bool
  passes = check_filter as_f64 is_match lossy view snap filter

  -- The ids that the loop over an index is to find.
  unfoldable pub index_matches : Bytes → List (Bytes × Bytes) → List Bytes
  index_matches prefix [] = []
  index_matches prefix ((ikey, id) ∷ items) =
      let rest = index_matches prefix items in
      elim (snap.get (prefix ++ id)) [
        | none ↦ rest
        | some stored ↦ elim (passes stored id) [ true ↦ id ∷ rest | false ↦ rest ]
      ]

  -- The ids that the loop over documents is to find.
  unfoldable pub document_matches : ℕ → List (Bytes × Bytes) → List Bytes
  document_matches prefix_len [] = []
  document_matches prefix_len ((key, stored) ∷ items) =
      let rest = document_matches prefix_len items in
      let id = doc_id_from_doc_key prefix_len key in
      elim (passes stored id) [ true ↦ id ∷ rest | false ↦ rest ]

  abbrev pub with_ids : FoundIds → List Bytes → FoundIds
  with_ids found more = record found { ids = found.ids ++ more }

  with_ids_none : (found : FoundIds) → with_ids found [] ≡ found
  with_ids_none found = ap (λ l. record found { ids = l }) (append-nil found.ids)

  with_ids_more :
      (found : FoundIds) (id : Bytes) (more : List Bytes)
      → with_ids (record found { ids = found.ids ++ id ∷ [] }) more ≡ with_ids found (id ∷ more)
  with_ids_more found id more =
      ap (λ l. record found { ids = l }) (append_assoc found.ids (id ∷ []) more)

  module _ (max_ids : ℕ) where
    pub push_id_within :
        (id stored : Bytes) (found : FoundIds)
        → suc (length found.ids) ≤ max_ids
        → push_id as_f64 is_match lossy view snap filter max_ids id stored found
          ≡ ok (true, record found { ids = found.ids ++ id ∷ [] })
    push_id_within id stored found h = rw (leb-false max_ids (length found.ids) h)

    pub visit_index_within :
        (prefix : Bytes) (items : List (Bytes × Bytes)) (stats : MatchVisitStats) (found : FoundIds)
        → stats.candidates + length items ≤ max_usize
        → length found.ids + length items ≤ max_ids
        → (after : MatchVisitStats) × (visit_index as_f64 is_match lossy view snap filter
              (push_id as_f64 is_match lossy view snap filter max_ids)
              max_usize
              prefix
              items
              stats
              found
            ≡ ok (after, with_ids found (index_matches prefix items)))
    unfolding visit_index index_matches
    visit_index_within prefix [] stats found h k =
        (stats, ap (λ s. ok (stats, s)) (sym (with_ids_none found)))
    visit_index_within prefix ((ikey, id) ∷ items) stats found h k =
        rw (count_candidate_within stats (omega arith))
          (elim (Option-cases (snap.get (prefix ++ id))) [
            | inl n ↦
                rw (n, index_matches)
                  (visit_index_within prefix items (counted stats) found (omega arith)
                    (omega arith))
            | inr (stored, e) ↦
                rw (e, index_matches)
                  (elim (Bool-cases (passes stored id)) [
                    | inl p ↦
                        rw (p, index_matches)
                          (rw (push_id_within id stored found (omega arith)) (
                            let next = record found { ids = found.ids ++ id ∷ [] } in
                            let (after, q) =
                              visit_index_within prefix items (count_match (counted stats)) next
                                (omega arith) (omega (arith, length-append found.ids (id ∷ []))) in
                            (
                              after,
                              q
                                  ∙ ap (λ s. ok (after, s))
                                      (with_ids_more found id (index_matches prefix items)),
                            )))
                    | inr p ↦
                        rw (p, index_matches)
                          (visit_index_within prefix items (counted stats) found (omega arith)
                            (omega arith))
                  ])
          ])

    pub visit_documents_within :
        (prefix_len : ℕ) (items : List (Bytes × Bytes)) (stats : MatchVisitStats) (found : FoundIds)
        → stats.candidates + length items ≤ max_usize
        → length found.ids + length items ≤ max_ids
        → (after : MatchVisitStats) × (visit_documents as_f64 is_match lossy view snap filter
              (push_id as_f64 is_match lossy view snap filter max_ids)
              max_usize
              prefix_len
              items
              stats
              found
            ≡ ok (after, with_ids found (document_matches prefix_len items)))
    unfolding visit_documents document_matches
    visit_documents_within prefix_len [] stats found h k =
        (stats, ap (λ s. ok (stats, s)) (sym (with_ids_none found)))
    visit_documents_within prefix_len ((key, stored) ∷ items) stats found h k =
        let id = doc_id_from_doc_key prefix_len key in
        rw (count_candidate_within stats (omega arith)) (elim (Bool-cases (passes stored id)) [
          | inl p ↦
              rw (p, document_matches)
                (rw (push_id_within id stored found (omega arith)) (
                  let next = record found { ids = found.ids ++ id ∷ [] } in
                  let (after, q) =
                    visit_documents_within prefix_len items (count_match (counted stats)) next
                      (omega arith) (omega (arith, length-append found.ids (id ∷ []))) in
                  (
                    after,
                    q
                        ∙ ap (λ s. ok (after, s))
                            (with_ids_more found id (document_matches prefix_len items)),
                  )))
          | inr p ↦
              rw (p, document_matches)
                (visit_documents_within prefix_len items (counted stats) found (omega arith)
                  (omega arith))
        ])
