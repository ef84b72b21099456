-- ===== src/Catalog/Applied.antt =====
-- Counter updates of crates/zydecodb-document/src/catalog.rs in the catalog.
use zydecodb.Prelude.{
  ℕ, ◌-◌, ◌^◌, ◌≤◌, ◌≡◌, ◌≢◌, refl, sym, ◌∙◌, inl, inr, true, false, Option, none, some, List, [],
  ◌∷◌, All, arith, ◌==◌, if◌then◌else◌, Bool-cases, ==_iff,
}
use zydecodb.Catalog.{CollectionMeta, Catalog, find_first, update_first, has_id}
use zydecodb.Catalog.Counters.{
  CollectionCounters, CounterDelta, CounterUpdate, counters_of, collection_by_id, counter_update,
  set_counters, apply_counter_update,
}
use zydecodb.Catalog.Touched.{touched_at, or_fresh, IsKeyed, counter_update-IsKeyed}
use zydecodb.Catalog.Count.{counted, counter_update-current}

-- A change of one collection, seen from another, or from itself.
find-set_counters :
    (j id : ℕ) (x : CollectionCounters) (cs : List CollectionMeta) (c : CollectionMeta)
    → find_first (has_id id) cs ≡ some c
    → (d : CollectionMeta) × (find_first (has_id id) (update_first (has_id j) (set_counters x) cs)
        ≡ some d)
      × (d.doc_count ≡ (if j == id then x.doc_count else c.doc_count))
unfolding find_first update_first set_counters
find-set_counters j id x [] c e = ground arith
find-set_counters j id x (d ∷ cs) c e = elim (Bool-cases (d.id == j)) [
  | inl s ↦ elim (Bool-cases (d.id == id)) [
    | inl t ↦ rw (s, t) (set_counters x d, refl, rw (same s t) refl)
    | inr n ↦ rw (s, n) (c, below n, rw (other s n) refl)
  ]
  | inr m ↦ elim (Bool-cases (d.id == id)) [
    | inl t ↦ rw (m, t) (d, refl, rw (another m t) (here t))
    | inr n ↦ rw (m, n) (find-set_counters j id x cs c (below n))
  ]
]
  where
    same : (d.id == j) ≡ true → (d.id == id) ≡ true → (j == id) ≡ true
    same s t = ground arith

    other : (d.id == j) ≡ true → (d.id == id) ≡ false → (j == id) ≡ false
    other s t = ground arith

    another : (d.id == j) ≡ false → (d.id == id) ≡ true → (j == id) ≡ false
    another s t = ground arith

    below : (d.id == id) ≡ false → find_first (has_id id) cs ≡ some c
    below n = ground (arith, n, e)

    here : (d.id == id) ≡ true → d.doc_count ≡ c.doc_count
    here t = ground (arith, t, e)

untouched :
    (id j : ℕ) (t : CounterUpdate)
    → (j == id) ≡ true
    → All (λ kv. kv.0 ≢ j) t
    → touched_at id t ≡ none
unfolding touched_at
untouched id j [] e a = refl
untouched id j ((k, c) ∷ t) e a = elim (Bool-cases (k == id)) [
  | inl s ↦ absurd (a.0 ((==_iff k id).0 s ∙ sym ((==_iff j id).0 e)))
  | inr n ↦ rw n (untouched id j t e a.1)
]

or_fresh-doc_count :
    (c d : CollectionMeta) (o : Option CollectionCounters)
    → d.doc_count ≡ c.doc_count
    → (or_fresh (counters_of d) o).doc_count ≡ (or_fresh (counters_of c) o).doc_count
or_fresh-doc_count c d none e = e
or_fresh-doc_count c d (some x) e = refl

apply-current :
    (id : ℕ) (t : CounterUpdate) (cat : Catalog) (c : CollectionMeta)
    → IsKeyed t
    → collection_by_id cat id ≡ some c
    → (d : CollectionMeta) × (collection_by_id (apply_counter_update t cat) id ≡ some d)
      × (d.doc_count ≡ (or_fresh (counters_of c) (touched_at id t)).doc_count)
unfolding apply_counter_update collection_by_id touched_at
apply-current id [] cat c k e = (c, e, refl)
apply-current id ((j, x) ∷ t) cat c k e =
    let (d, found, counts) = find-set_counters j id x cat.collections c e in
    let rest =
      apply-current id t
        (record cat { collections = update_first (has_id j) (set_counters x) cat.collections }) d
        k.1 found in
    (rest.0, rest.1, rest.2 ∙ step d counts)
  where
    step :
        (d : CollectionMeta)
        → d.doc_count ≡ (if j == id then x.doc_count else c.doc_count)
        → (or_fresh (counters_of d) (touched_at id t)).doc_count
          ≡ (or_fresh (counters_of c) (if j == id then some x else touched_at id t)).doc_count
    step d counts = elim (Bool-cases (j == id)) [
      | inl s ↦ rw (s, untouched id j t s k.0) (counts ∙ rw s refl)
      | inr n ↦ rw n (or_fresh-doc_count c d (touched_at id t) (counts ∙ rw n refl))
    ]

-- Where a collection is in the catalog, and its document count is a u64, the update made of a
-- list of changes leaves a collection of that id in the catalog, whose document count is what the
-- changes make of it one after the other: each change that names the collection adds to it or
-- subtracts from it, staying between zero and the greatest u64, and the others leave it.
pub apply_counter_update-counter_update :
    (cat : Catalog) (id : ℕ) (c : CollectionMeta) (deltas : List CounterDelta)
    → collection_by_id cat id ≡ some c
    → c.doc_count ≤ 2 ^ 64 - 1
    → (d : CollectionMeta) × (collection_by_id
          (apply_counter_update (counter_update cat deltas []) cat)
          id
        ≡ some d)
      × (d.doc_count ≡ counted id deltas c.doc_count)
unfolding touched_at
apply_counter_update-counter_update cat id c deltas e h =
    let (d, found, counts) =
      apply-current id (counter_update cat deltas []) cat c
        (counter_update-IsKeyed cat deltas [] tt) e in
    (d, found, counts ∙ counter_update-current cat id c e deltas [] h)
