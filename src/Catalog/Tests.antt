-- ===== src/Catalog/Tests.antt =====
-- A catalog with one collection, and indexes and counts that are added to it.
use zydecodb.Prelude.{◌≡◌, refl, inl, true, false, none, some, List, [], ◌∷◌, arith}
use zydecodb.Prelude.Bytes.{Bytes, cmp_bytes}
use zydecodb.DocErrors.{DocResult, err, protocol}
use zydecodb.Catalog.{IndexMeta, CollectionMeta, Catalog, new_index, add_index_directed}
use zydecodb.Catalog.Schema.{IsSchema}
use zydecodb.Catalog.Counters.{
  up, down, CounterDelta, doc, doc_only, index, collection_by_id, counter_update,
  apply_counter_update,
}
use zydecodb.Catalog.Applied.{apply_counter_update-counter_update}
use zydecodb.Catalog.Define.{add_index_directed-IsSchema}

abbrev path_at : Bytes
path_at = b't' ∷ []

abbrev users : CollectionMeta
users = record {
  id = 0;
  prefix = 1 ∷ [];
  name = b'u' ∷ [];
  indexes = new_index 0 (b'i' ∷ []) (path_at ∷ []) [] false (some 60) ∷ [];
  doc_count = 0;
}

abbrev small : Catalog
small = record { next_collection_id = 1; next_index_id = 1; collections = users ∷ [] }

small-IsSchema : IsSchema small
small-IsSchema = record {
  distinct_collections = omega arith;
  old_collections = omega arith;
  distinct_indexes = omega arith;
  old_indexes = omega arith;
  sound = ((((omega arith, inl refl), tt), omega arith), tt);
}

-- A second TTL index is refused.
second_ttl :
    add_index_directed small (1 ∷ []) (b'u' ∷ []) (b'j' ∷ []) (path_at ∷ []) [] false (some 30)
    ≡ some (small, err (protocol "collection already has a TTL index"))
unfolding add_index_directed cmp_bytes
second_ttl = refl

add_index_directed-IsSchema_example :
    (after : Catalog) × (result : DocResult IndexMeta) × (add_index_directed small
        (1 ∷ [])
        (b'v' ∷ [])
        (b'j' ∷ [])
        (path_at ∷ [])
        (false ∷ [])
        true
        none
      ≡ some (after, result))
    × IsSchema after
add_index_directed-IsSchema_example =
    add_index_directed-IsSchema small (1 ∷ []) (b'v' ∷ []) (b'j' ∷ []) (path_at ∷ []) (false ∷ [])
      true none small-IsSchema (omega arith) (omega arith)

abbrev counted_twice : List CounterDelta
counted_twice = doc 0 (up 3) ∷ index 0 (down 1) ∷ doc 1 (up 5) ∷ doc_only 0 (down 1) ∷ []

users_found : collection_by_id small 0 ≡ some users
unfolding collection_by_id
users_found = refl

apply_counter_update-counter_update_example :
    (d : CollectionMeta) × (collection_by_id
        (apply_counter_update (counter_update small counted_twice []) small)
        0
      ≡ some d)
    × (d.doc_count ≡ 2)
apply_counter_update-counter_update_example =
    apply_counter_update-counter_update small 0 users counted_twice users_found (omega arith)
