-- ===== src/Query/FindIds.antt =====
-- `find_ids` of crates/zydecodb-document/src/query.rs against what it is to answer: the ids of the
-- documents of the collection that the filter matches.
use zydecodb.Prelude.{
  ℕ, ◌≤◌, ◌≡◌, ◌↔◌, ◌⊎◌, refl, sym, subst, ◌∙◌, inl, inr, Bool, true, false, Option, none, some,
  List, [], ◌∷◌, ◌++◌, length, All, arith, Option-cases, Bool-cases,
}
use zydecodb.Prelude.Bytes.{Bytes, IsBytes}
use zydecodb.Prelude.SortedMap.{Has}
use zydecodb.Json.{Value}
use zydecodb.DocErrors.{ok}
use zydecodb.DocKeys.{doc_prefix, prefix_upper_bound}
use zydecodb.DocKeys.Scan.{in_range}
use zydecodb.Catalog.{CollectionMeta}
use zydecodb.Filter.{Filter}
use zydecodb.Store.{index_keys_for}
use zydecodb.Planner.{AccessPath, by_id, index_scan, collection_scan, plan}
use zydecodb.Planner.Constraints.{top_level_fields}
use zydecodb.Planner.Meets.{IsPlainPred}
use zydecodb.Planner.Front.{IsIndexable}
use zydecodb.Planner.Covers.{IsCovered}
use zydecodb.Planner.Superset.{plan_total, plan-IsCovered}
use zydecodb.Query.{
  MatchVisitStats, FoundIds, max_usize, count_match, check_filter, for_each_match_bounded, push_id,
  find_ids,
}
use zydecodb.Query.Snapshot.{SnapshotHandle, IsCoherent}
use zydecodb.Query.Visit.{
  visit_index_within, visit_documents_within, index_matches, count_candidate_within, counted,
  push_id_within,
}
use zydecodb.Query.Found.{IsMatch, index_matches_sound, index_matches_complete, collection_found}

module _ {N R : Type 0} (as_f64 : N → Option ℕ) (is_match : R → Bytes → Bool)
    (lossy : Bytes → Bytes) (view : Bytes → Value N) (snap : SnapshotHandle) (filter : Filter N R)
    (prefix : Bytes) (coll : CollectionMeta) where
  -- Every stored document has an id in UTF-8, values that can be indexed, and its entries in the
  -- indexes.
  abbrev pub IsIndexed : Type 0
  IsIndexed =
      (id stored : Bytes)
      → snap.get (doc_prefix prefix coll.id ++ id) ≡ some stored
      → (lossy id ≡ id)
        × IsBytes id
        × All (λ idx. IsIndexable as_f64 (view stored) idx.fields) coll.indexes
        × ((key : Bytes)
            → Has key (index_keys_for as_f64 coll prefix id (view stored))
            → snap.get key ≡ some id)

  abbrev start : FoundIds
  start = record { ids = []; overflow = false }

  abbrev IsFoundDocument : Bytes → Type 0
  IsFoundDocument = IsMatch as_f64 is_match lossy view snap filter (doc_prefix prefix coll.id)

  module _ (max_ids : ℕ) (okay : IsCoherent snap) (indexed : IsIndexed) (hp : IsBytes prefix)
      (plain : All (IsPlainPred as_f64) (top_level_fields filter))
      (few : (lo hi : Bytes) → length (snap.scan lo hi) ≤ max_ids) (one : 1 ≤ max_ids)
      (most : max_ids ≤ max_usize) where
    covered :
        (path : AccessPath)
        → plan as_f64 filter prefix coll ≡ some path
        → (id : Bytes) (found : IsFoundDocument id)
        → IsCovered id (index_keys_for as_f64 coll prefix id (view found.0)) path
    covered path e id (stored, got, passed) =
        let (utf8, hi, indexable, entries) = indexed id stored got in
        let (other, q, c) =
          plan-IsCovered as_f64 is_match lossy (view stored) id prefix coll hp hi indexable filter
            utf8 plain (unfold check_filter in passed) in
        subst (IsCovered id (index_keys_for as_f64 coll prefix id (view stored)))
          (same other (sym q ∙ e)) c
      where
        same : (other : AccessPath) → some other ≡ some path → other ≡ path
        same other k = ground arith

    in_index :
        (lo hi : Bytes) (id : Bytes) (found : IsFoundDocument id)
        → (key : Bytes) × Has key (index_keys_for as_f64 coll prefix id (view found.0))
          × (in_range lo hi key ≡ true)
        → Has id (
            index_matches as_f64 is_match lossy view snap filter
              (doc_prefix prefix coll.id)
              (snap.scan lo hi))
    in_index lo hi id (stored, got, passed) (key, has, inside) =
        let (utf8, hb, indexable, entries) = indexed id stored got in
        index_matches_complete as_f64 is_match lossy view snap filter (doc_prefix prefix coll.id)
          (snap.scan lo hi) key id ((okay.scan_has lo hi key id).1 (entries key has, inside))
          (stored, got, passed)

    -- What a visit returns: the ids of the documents that match.
    abbrev Answers : AccessPath → Type 0
    Answers path =
        (after : MatchVisitStats) × (ids : List Bytes) × (for_each_match_bounded as_f64 is_match
            lossy view snap filter (push_id as_f64 is_match lossy view snap filter max_ids)
            max_usize path (doc_prefix prefix coll.id) (length prefix) start
          ≡ ok (after, record { ids = ids; overflow = false }))
        × ((id : Bytes) → Has id ids ↔ IsFoundDocument id)

    visit_id : (i : Bytes) → plan as_f64 filter prefix coll ≡ some (by_id i) → Answers (by_id i)
    unfolding for_each_match_bounded
    visit_id i e = elim (Option-cases (snap.get (doc_prefix prefix coll.id ++ i))) [
      | inl n ↦ (
        record { candidates = 0; matched = 0 },
        [],
        rw (n, for_each_match_bounded) refl,
        λ id. (λ h. absurd h, λ m. absurd (clash n (at_id (covered (by_id i) e id m) m).1)),
      )
      | inr (stored, k) ↦
          elim (Bool-cases (check_filter as_f64 is_match lossy view snap filter stored i)) [
            | inl p ↦ (
              count_match (counted none_yet),
              i ∷ [],
              rw (k, for_each_match_bounded)
                  (rw (count_candidate_within none_yet (omega arith)) (
                    rw p (
                      rw (
                        push_id_within as_f64 is_match lossy view snap filter max_ids i stored start
                          one)))),
              λ id. (λ h. only i id h (stored, k, p), λ m. inl (sym (covered (by_id i) e id m))),
            )
            | inr p ↦ (
              counted none_yet,
              [],
              rw (k, for_each_match_bounded)
                  (rw (count_candidate_within none_yet (omega arith)) (rw p refl)),
              λ id. (
                λ h. absurd h,
                λ m. absurd (refused stored k p (at_id (covered (by_id i) e id m) m)),
              ),
            )
          ]
    ]
      where
        clash : {o : Option Bytes} {s : Bytes} → o ≡ none → o ≡ some s → ⊥
        clash a b = ground arith

        none_yet : MatchVisitStats
        none_yet = record { candidates = 0; matched = 0 }

        only : (i id : Bytes) → (id ≡ i) ⊎ ⊥ → IsFoundDocument i → IsFoundDocument id
        only i id (inl q) m = subst IsFoundDocument (sym q) m
        only i id (inr h) m = absurd h

        apart : ¬ (true ≡ false)
        apart h = ground arith

        same : {a b : Bytes} → some a ≡ some b → a ≡ b
        same h = ground arith

        refused :
            (stored : Bytes)
            → snap.get (doc_prefix prefix coll.id ++ i) ≡ some stored
            → check_filter as_f64 is_match lossy view snap filter stored i ≡ false
            → IsFoundDocument i
            → ⊥
        refused stored k p (other, got, passed) = apart (
            sym (
              subst (λ s. check_filter as_f64 is_match lossy view snap filter s i ≡ true)
                (same (sym got ∙ k)) passed)
            ∙ p)

        at_id : {id : Bytes} → i ≡ id → IsFoundDocument id → IsFoundDocument i
        at_id q m = subst IsFoundDocument (sym q) m

    visit_found : (path : AccessPath) → plan as_f64 filter prefix coll ≡ some path → Answers path
    unfolding for_each_match_bounded
    visit_found collection_scan e =
        let hi = prefix_upper_bound (doc_prefix prefix coll.id) in
        let (after, q) =
          visit_documents_within as_f64 is_match lossy view snap filter max_ids (length prefix)
            (snap.scan (doc_prefix prefix coll.id) hi) (record { candidates = 0; matched = 0 })
            start (omega (arith, few (doc_prefix prefix coll.id) hi))
            (omega (arith, few (doc_prefix prefix coll.id) hi)) in
        (
          after,
          _,
          q,
          λ id. collection_found as_f64 is_match lossy view snap filter prefix coll.id id okay hp,
        )
    visit_found (index_scan lo hi fields directions n) e =
        let (after, q) =
          visit_index_within as_f64 is_match lossy view snap filter max_ids
            (doc_prefix prefix coll.id) (snap.scan lo hi) (record { candidates = 0; matched = 0 })
            start (omega (arith, few lo hi)) (omega (arith, few lo hi)) in
        (
          after,
          _,
          q,
          λ id. (
            index_matches_sound as_f64 is_match lossy view snap filter (doc_prefix prefix coll.id)
                (snap.scan lo hi) id,
            λ m. in_index lo hi id m (covered (index_scan lo hi fields directions n) e id m),
          ),
        )
    visit_found (by_id i) e = visit_id i e

    -- The search along the path that the planner chooses returns exactly the ids of the documents of
    -- the collection that the filter matches: the same as without any index. The store is indexed,
    -- and it does not exceed the limit.
    pub find_ids_exact :
        (ids : List Bytes) × (find_ids as_f64 is_match lossy view snap filter prefix coll max_ids
          ≡ some (ok ids))
        × ((id : Bytes) → Has id ids ↔ IsFoundDocument id)
    unfolding find_ids
    find_ids_exact =
        let (path, e) = plan_total as_f64 filter prefix coll in
        let (after, ids, q, exact) = visit_found path e in (ids, rw (e, find_ids, q) refl, exact)
