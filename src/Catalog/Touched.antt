-- ===== src/Catalog/Touched.antt =====
-- The counters that a counter update of crates/zydecodb-document/src/catalog.rs holds.
use zydecodb.Prelude.{
  ℕ, ◌≡◌, ◌≢◌, inl, inr, Option, none, some, List, [], ◌∷◌, All, arith, ◌==◌, if◌then◌else◌,
  Bool-cases, Option-cases,
}
use zydecodb.Catalog.{Catalog}
use zydecodb.Catalog.Counters.{
  CollectionCounters, is_zero, CounterDelta, CounterUpdate, counters_of, collection_by_id,
  target_of, change_counters, touch, count_delta, counter_update,
}

-- The counters that an update holds for a collection.
unfoldable pub touched_at : ℕ → CounterUpdate → Option CollectionCounters
touched_at id [] = none
touched_at id ((j, c) ∷ touched) =
    let later = touched_at id touched in if j == id then some c else later

abbrev pub or_fresh : CollectionCounters → Option CollectionCounters → CollectionCounters
or_fresh fresh none = fresh
or_fresh fresh (some c) = c

abbrev pub IsKeyed : CounterUpdate → Type 0
IsKeyed [] = Unit
IsKeyed ((j, c) ∷ touched) = All (λ kv. kv.0 ≢ j) touched × IsKeyed touched

module _ (j : ℕ) (fresh : CollectionCounters) (g : CollectionCounters → CollectionCounters) where
  pub touched_at-touch :
      (id : ℕ) (t : CounterUpdate)
      → touched_at id (touch j fresh g t)
        ≡ (if j == id then some (g (or_fresh fresh (touched_at id t))) else touched_at id t)
  unfolding touched_at touch
  touched_at-touch id [] = ground arith
  touched_at-touch id ((k, c) ∷ t) = ground (arith, touched_at-touch id t)

  touch-All :
      (k : ℕ) (t : CounterUpdate)
      → j ≢ k
      → All (λ kv. kv.0 ≢ k) t
      → All (λ kv. kv.0 ≢ k) (touch j fresh g t)
  unfolding touch
  touch-All k [] h a = (h, tt)
  touch-All k ((i, c) ∷ t) h a = elim (Bool-cases (i == j)) [
    | inl s ↦ rw s (a.0, a.1)
    | inr n ↦ rw n (a.0, touch-All k t h a.1)
  ]

  touch-IsKeyed : (t : CounterUpdate) → IsKeyed t → IsKeyed (touch j fresh g t)
  unfolding touch
  touch-IsKeyed [] d = (tt, tt)
  touch-IsKeyed ((i, c) ∷ t) d = elim (Bool-cases (i == j)) [
    | inl s ↦ rw s d
    | inr n ↦ rw n (touch-All i t (λ e. ground (arith, n, e)) d.0, touch-IsKeyed t d.1)
  ]

count_delta-IsKeyed :
    (cat : Catalog) (d : CounterDelta) (t : CounterUpdate)
    → IsKeyed t
    → IsKeyed (count_delta cat d t)
unfolding count_delta
count_delta-IsKeyed cat d t k = elim (Option-cases (target_of cat d)) [
  | inl n ↦ rw (n, count_delta) k
  | inr ((id, delta), e) ↦ elim (Bool-cases (is_zero delta)) [
    | inl z ↦ rw (e, count_delta, z) k
    | inr nz ↦ elim (Option-cases (collection_by_id cat id)) [
      | inl n ↦ rw (e, count_delta, nz, n) k
      | inr (c, f) ↦
          rw (e, count_delta, nz, f) (touch-IsKeyed id (counters_of c) (change_counters d) t k)
    ]
  ]
]

pub counter_update-IsKeyed :
    (cat : Catalog) (deltas : List CounterDelta) (t : CounterUpdate)
    → IsKeyed t
    → IsKeyed (counter_update cat deltas t)
unfolding counter_update
counter_update-IsKeyed cat [] t k = k
counter_update-IsKeyed cat (d ∷ deltas) t k =
    counter_update-IsKeyed cat deltas (count_delta cat d t) (count_delta-IsKeyed cat d t k)
