-- ===== src/Query.antt =====
-- crates/zydecodb-document/src/query.rs: the visit of the documents that match a filter, along the
-- access path of the planner.
pub mod Snapshot
pub mod Visit
pub mod Found
pub mod FindIds
pub mod Table
mod Tests
use zydecodb.Prelude.{
  ℕ, suc, ◌+◌, ◌-◌, ◌^◌, Bool, true, false, Option, none, some, List, [], ◌∷◌, ◌++◌, length, ltb,
  leb, if◌then◌else◌,
}
use zydecodb.Prelude.Bytes.{Bytes}
use zydecodb.Json.{Value}
use zydecodb.DocErrors.{DocResult, ok, err, bad_filter, ◌>>=◌}
use zydecodb.DocKeys.{doc_prefix, doc_id_from_doc_key, prefix_upper_bound}
use zydecodb.Catalog.{CollectionMeta}
use zydecodb.Filter.{Filter, matches}
use zydecodb.Planner.{AccessPath, by_id, index_scan, collection_scan, plan}
use Snapshot.{SnapshotHandle}

-- `MatchVisitStats`. Its field `matches` is `matched` here.
pub record MatchVisitStats : Type 0 where
  pub candidates : ℕ
  pub matched : ℕ

-- The variables of `find_ids`.
pub record FoundIds : Type 0 where
  pub ids : List Bytes
  pub overflow : Bool

-- `usize::MAX`.
abbrev pub max_usize : ℕ
max_usize = 2 ^ 64 - 1

-- `count_candidate`.
unfoldable pub count_candidate : ℕ → MatchVisitStats → DocResult MatchVisitStats
count_candidate max_candidates stats =
    if leb max_usize stats.candidates
    then err (bad_filter "query candidate count overflow")
    else if ltb max_candidates (stats.candidates + 1)
    then err (bad_filter "query scan exceeds the candidate documents allowed")
    else ok (record stats { candidates = stats.candidates + 1 })

abbrev pub count_match : MatchVisitStats → MatchVisitStats
count_match stats = record stats { matched = stats.matched + 1 }

-- The view of a stored body that `check_filter` takes, behind its kind byte: a binary document as it
-- is, a JSON body parsed and converted.
module _ {N R : Type 0} (as_f64 : N → Option ℕ) (is_match : R → Bytes → Bool)
    (lossy : Bytes → Bytes) (view : Bytes → Value N) (snap : SnapshotHandle)
    (filter : Filter N R) where
  -- `check_filter`.
  unfoldable pub check_filter : Bytes → Bytes → Bool
  unfolding matches
  check_filter stored doc_id = matches as_f64 is_match lossy filter (view stored) (some doc_id)

  -- The visitor `f` on a state, and whether to go on.
  module _ {S : Type 0} (f : Bytes → Bytes → S → DocResult (Bool × S)) (max_candidates : ℕ) where
    -- The loop over the entries of an index.
    unfoldable pub visit_index :
        Bytes → List (Bytes × Bytes) → MatchVisitStats → S → DocResult (MatchVisitStats × S)
    unfolding count_candidate check_filter
    visit_index prefix [] stats s = ok (stats, s)
    visit_index prefix ((ikey, doc_id) ∷ items) stats s =
        count_candidate max_candidates stats >>= λ stats. elim (snap.get (prefix ++ doc_id)) [
          | none ↦ visit_index prefix items stats s
          | some stored ↦ elim (check_filter stored doc_id) [
            | false ↦ visit_index prefix items stats s
            | true ↦ f doc_id stored s >>= λ r. elim r.0 [
              | true ↦ visit_index prefix items (count_match stats) r.1
              | false ↦ ok (count_match stats, r.1)
            ]
          ]
        ]

    -- The loop over the documents of the collection.
    unfoldable pub visit_documents :
        ℕ → List (Bytes × Bytes) → MatchVisitStats → S → DocResult (MatchVisitStats × S)
    unfolding count_candidate check_filter doc_id_from_doc_key
    visit_documents prefix_len [] stats s = ok (stats, s)
    visit_documents prefix_len ((doc_key, stored) ∷ items) stats s =
        count_candidate max_candidates stats >>= λ stats.
        let doc_id = doc_id_from_doc_key prefix_len doc_key in
        elim (check_filter stored doc_id) [
          | false ↦ visit_documents prefix_len items stats s
          | true ↦ f doc_id stored s >>= λ r. elim r.0 [
            | true ↦ visit_documents prefix_len items (count_match stats) r.1
            | false ↦ ok (count_match stats, r.1)
          ]
        ]

    -- `for_each_match_bounded`.
    unfoldable pub for_each_match_bounded :
        AccessPath → Bytes → ℕ → S → DocResult (MatchVisitStats × S)
    unfolding visit_index visit_documents prefix_upper_bound
    for_each_match_bounded (by_id id) prefix prefix_len s =
        let stats : MatchVisitStats = record { candidates = 0; matched = 0 } in
        elim (snap.get (prefix ++ id)) [
          | none ↦ ok (stats, s)
          | some stored ↦ count_candidate max_candidates stats >>= λ stats.
              elim (check_filter stored id) [
                | false ↦ ok (stats, s)
                | true ↦ f id stored s >>= λ r. ok (count_match stats, r.1)
              ]
        ]
    for_each_match_bounded (index_scan lo hi fields directions n) prefix prefix_len s =
        visit_index prefix (snap.scan lo hi) (record { candidates = 0; matched = 0 }) s
    for_each_match_bounded collection_scan prefix prefix_len s =
        visit_documents prefix_len (snap.scan prefix (prefix_upper_bound prefix))
          (record { candidates = 0; matched = 0 }) s

  -- The visitor of `find_ids`.
  abbrev pub push_id : ℕ → Bytes → Bytes → FoundIds → DocResult (Bool × FoundIds)
  push_id max_ids doc_id stored found =
      if leb max_ids (length found.ids)
      then ok (false, record found { overflow = true })
      else ok (true, record found { ids = found.ids ++ doc_id ∷ [] })

  -- `find_ids`, on the collection's metadata. A plan that is missing is a panic.
  unfoldable pub find_ids : Bytes → CollectionMeta → ℕ → Option (DocResult (List Bytes))
  unfolding plan for_each_match_bounded doc_prefix
  find_ids prefix coll max_ids = elim (plan as_f64 filter prefix coll) [
    | none ↦ none
    | some path ↦ some (
        for_each_match_bounded (push_id max_ids) max_usize path (doc_prefix prefix coll.id)
          (length prefix) (record { ids = []; overflow = false })
        >>= λ r.
            if r.1.overflow
            then err (bad_filter "matched more documents than allowed")
            else ok r.1.ids)
  ]
