-- ===== src/Catalog/Counters.antt =====
-- crates/zydecodb-document/src/catalog.rs: the counters of documents and index entries.
use zydecodb.Prelude.{
  ℕ, ◌+◌, ◌-◌, ◌^◌, min, Bool, Option, none, some, List, [], ◌∷◌, map, ◌==◌, if◌then◌else◌,
}
use zydecodb.Catalog.{
  IndexMeta, CollectionMeta, Catalog, find_first, update_first, has_id, any_index,
}

-- `CollectionCounters`.
pub record CollectionCounters : Type 0 where
  pub doc_count : ℕ
  pub indexes : List (ℕ × ℕ)

-- A change of a counter, an `i64`: up or down by a number.
pub data Delta : Type 0 where
  up down : ℕ → Delta

-- `u64::saturating_add_signed`.
abbrev pub saturating_add_signed : ℕ → Delta → ℕ
saturating_add_signed n (up d) = min (n + d) (2 ^ 64 - 1)
saturating_add_signed n (down d) = n - d

-- `delta == 0`.
abbrev pub is_zero : Delta → Bool
is_zero (up d) = d == 0
is_zero (down d) = d == 0

-- `CounterDelta`.
pub data CounterDelta : Type 0 where
  doc doc_only index : ℕ → Delta → CounterDelta

-- `CounterUpdate`: the `BTreeMap` as an association list.
abbrev pub CounterUpdate : Type 0
CounterUpdate = List (ℕ × CollectionCounters)

-- `counters_of`.
abbrev pub counters_of : CollectionMeta → CollectionCounters
counters_of c = record {
  doc_count = c.doc_count;
  indexes = map (λ (i : IndexMeta). (i.id, i.entry_count)) c.indexes;
}

-- `collection_by_id`.
unfoldable pub collection_by_id : Catalog → ℕ → Option CollectionMeta
unfolding find_first
collection_by_id cat id = find_first (has_id id) cat.collections

-- `collection_id_for_index`.
unfoldable pub collection_id_for_index : Catalog → ℕ → Option ℕ
unfolding find_first
collection_id_for_index cat index_id =
    elim (find_first (λ c. any_index (λ i. i.id == index_id) c.indexes) cat.collections) [
      | none ↦ none
      | some c ↦ some c.id
    ]

-- The first `match` on a delta: the collection and the change; nothing where it continues.
unfoldable pub target_of : Catalog → CounterDelta → Option (ℕ × Delta)
unfolding collection_id_for_index
target_of cat (doc id delta) = some (id, delta)
target_of cat (doc_only id delta) = some (id, delta)
target_of cat (index index_id delta) = elim (collection_id_for_index cat index_id) [
  | none ↦ none
  | some c ↦ some (c, delta)
]

-- The entry of one index.
abbrev pub change_index : ℕ → Delta → List (ℕ × ℕ) → List (ℕ × ℕ)
change_index index_id delta [] = []
change_index index_id delta ((id, n) ∷ rest) =
    let later = change_index index_id delta rest in
    if id == index_id then (id, saturating_add_signed n delta) ∷ rest else (id, n) ∷ later

-- The second `match` on a delta.
unfoldable pub change_counters : CounterDelta → CollectionCounters → CollectionCounters
change_counters (doc id delta) c = record {
  doc_count = saturating_add_signed c.doc_count delta;
  indexes = map (λ (i : ℕ × ℕ). (i.0, saturating_add_signed i.1 delta)) c.indexes;
}
change_counters (doc_only id delta) c = record c {
  doc_count = saturating_add_signed c.doc_count delta;
}
change_counters (index index_id delta) c = record c {
  indexes = change_index index_id delta c.indexes;
}

-- `touched.entry(id).or_insert_with(..)`, with what is done to the entry.
unfoldable pub touch :
    ℕ
    → CollectionCounters
    → (CollectionCounters → CollectionCounters)
    → CounterUpdate
    → CounterUpdate
touch id fresh g [] = (id, g fresh) ∷ []
touch id fresh g ((j, c) ∷ touched) =
    let later = touch id fresh g touched in if j == id then (j, g c) ∷ touched else (j, c) ∷ later

-- One round of `counter_update`.
unfoldable pub count_delta : Catalog → CounterDelta → CounterUpdate → CounterUpdate
unfolding target_of collection_by_id change_counters touch
count_delta cat d touched = elim (target_of cat d) [
  | none ↦ touched
  | some (id, delta) ↦ if is_zero delta then touched else elim (collection_by_id cat id) [
    | none ↦ touched
    | some coll ↦ touch id (counters_of coll) (change_counters d) touched
  ]
]

-- `counter_update`.
unfoldable pub counter_update : Catalog → List CounterDelta → CounterUpdate → CounterUpdate
unfolding count_delta
counter_update cat [] touched = touched
counter_update cat (d ∷ deltas) touched = counter_update cat deltas (count_delta cat d touched)

abbrev pub count_in : ℕ → List (ℕ × ℕ) → Option ℕ
count_in id [] = none
count_in id ((j, n) ∷ rest) = let later = count_in id rest in if j == id then some n else later

-- The counters of an update, in a collection.
unfoldable pub set_counters : CollectionCounters → CollectionMeta → CollectionMeta
set_counters counters c = record c {
  doc_count = counters.doc_count;
  indexes =
      map
        (λ (i : IndexMeta). elim (count_in i.id counters.indexes) [
          | none ↦ i
          | some n ↦ record i { entry_count = n }
        ])
        c.indexes;
}

-- `apply_counter_update`.
unfoldable pub apply_counter_update : CounterUpdate → Catalog → Catalog
unfolding update_first set_counters
apply_counter_update [] cat = cat
apply_counter_update ((id, counters) ∷ touched) cat =
    apply_counter_update touched (record cat {
      collections = update_first (has_id id) (set_counters counters) cat.collections;
    })
