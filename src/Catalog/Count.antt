-- ===== src/Catalog/Count.antt =====
-- What a counter update of crates/zydecodb-document/src/catalog.rs counts.
use zydecodb.Prelude.{
  ℕ, ◌-◌, ◌^◌, ◌≤◌, ◌≡◌, refl, sym, ap, ◌∙◌, inl, inr, Bool, true, none, some, List, [], ◌∷◌, arith,
  ◌==◌, if◌then◌else◌, Bool-cases, Option-cases, ==_iff,
}
use zydecodb.Catalog.{CollectionMeta, Catalog}
use zydecodb.Catalog.Counters.{
  CollectionCounters, Delta, saturating_add_signed, is_zero, up, down, CounterDelta, doc, doc_only,
  index, CounterUpdate, counters_of, collection_by_id, target_of, change_counters, touch,
  count_delta, counter_update,
}
use zydecodb.Catalog.Touched.{touched_at, or_fresh, touched_at-touch}

-- What a change makes of the document count of a collection.
abbrev pub effect : ℕ → CounterDelta → ℕ → ℕ
effect id (doc j delta) n = if j == id then saturating_add_signed n delta else n
effect id (doc_only j delta) n = if j == id then saturating_add_signed n delta else n
effect id (index i delta) n = n

-- One change after the other.
abbrev pub counted : ℕ → List CounterDelta → ℕ → ℕ
counted id [] n = n
counted id (d ∷ deltas) n = counted id deltas (effect id d n)

module _ (cat : Catalog) (id : ℕ) (c : CollectionMeta)
    (here : collection_by_id cat id ≡ some c) where
  -- The counters of the collection, in the update or as they stand.
  abbrev pub current : CounterUpdate → CollectionCounters
  current t = or_fresh (counters_of c) (touched_at id t)

  touch-current :
      (k : ℕ) (ck : CollectionMeta) (g : CollectionCounters → CollectionCounters)
      (t : CounterUpdate)
      → collection_by_id cat k ≡ some ck
      → current (touch k (counters_of ck) g t) ≡ (if k == id then g (current t) else current t)
  touch-current k ck g t e = elim (Bool-cases (k == id)) [
    | inl s ↦ rw s (
        ap (or_fresh (counters_of c)) (touched_at-touch k (counters_of ck) g id t)
        ∙ rw s (ap (λ x. g (or_fresh (counters_of x) (touched_at id t))) (same_there s)))
    | inr n ↦
        rw n
          (ap (or_fresh (counters_of c)) (touched_at-touch k (counters_of ck) g id t) ∙ rw n refl)
  ]
    where
      some_eq : {x y : CollectionMeta} → some x ≡ some y → x ≡ y
      some_eq h = ground arith

      same_there : (k == id) ≡ true → ck ≡ c
      same_there s = some_eq (sym e ∙ ap (collection_by_id cat) ((==_iff k id).0 s) ∙ here)

  targeted-current :
      (d : CounterDelta) (k : ℕ) (delta : Delta) (t : CounterUpdate)
      → target_of cat d ≡ some (k, delta)
      → (current (count_delta cat d t)).doc_count ≡ (
          if k == id
          then (if is_zero delta
              then (current t).doc_count
              else (change_counters d (current t)).doc_count)
          else (current t).doc_count)
  unfolding count_delta
  targeted-current d k delta t e = elim (Bool-cases (is_zero delta)) [
    | inl z ↦ rw (e, count_delta, z) (either (k == id) (current t).doc_count)
    | inr nz ↦ elim (Option-cases (collection_by_id cat k)) [
      | inl lost ↦
          rw (e, count_delta, nz, lost)
            (sym (not_here lost (change_counters d (current t)).doc_count))
      | inr (ck, f) ↦
          rw (e, count_delta, nz, f)
            (ap (λ (x : CollectionCounters). x.doc_count)
                (touch-current k ck (change_counters d) t f)
              ∙ inside (k == id) (change_counters d (current t)) (current t))
    ]
  ]
    where
      either : (b : Bool) (n : ℕ) → n ≡ (if b then n else n)
      either b n = ground arith

      inside :
          (b : Bool) (x y : CollectionCounters)
          → (if b then x else y).doc_count ≡ (if b then x.doc_count else y.doc_count)
      inside b x y = ground arith

      clash : ¬ (none ≡ some c)
      clash h = ground arith

      not_here :
          collection_by_id cat k ≡ none
          → (n : ℕ) → (if k == id then n else (current t).doc_count) ≡ (current t).doc_count
      not_here lost n = elim (Bool-cases (k == id)) [
        | inl s ↦ absurd (clash (sym lost ∙ ap (collection_by_id cat) ((==_iff k id).0 s) ∙ here))
        | inr f ↦ rw f refl
      ]

  zero_change :
      (n : ℕ) (delta : Delta) (b : Bool)
      → n ≤ 2 ^ 64 - 1
      → (if b then (if is_zero delta then n else saturating_add_signed n delta) else n)
        ≡ (if b then saturating_add_signed n delta else n)
  zero_change n (up d) b h = ground arith
  zero_change n (down d) b h = ground arith

  count_delta-current :
      (d : CounterDelta) (t : CounterUpdate)
      → (current t).doc_count ≤ 2 ^ 64 - 1
      → (current (count_delta cat d t)).doc_count ≡ effect id d (current t).doc_count
  unfolding change_counters target_of
  count_delta-current (doc j delta) t h =
      targeted-current (doc j delta) j delta t refl
      ∙ zero_change (current t).doc_count delta (j == id) h
  count_delta-current (doc_only j delta) t h =
      targeted-current (doc_only j delta) j delta t refl
      ∙ zero_change (current t).doc_count delta (j == id) h
  count_delta-current (index i delta) t h = elim (Option-cases (target_of cat (index i delta))) [
    | inl n ↦ unfold count_delta in rw (n, count_delta) refl
    | inr ((k, x), e) ↦
        targeted-current (index i delta) k x t e
        ∙ unchanged (k == id) (is_zero x) (current t).doc_count
  ]
    where
      unchanged : (b z : Bool) (n : ℕ) → (if b then (if z then n else n) else n) ≡ n
      unchanged b z n = ground arith

  effect_bounded : (d : CounterDelta) (n : ℕ) → n ≤ 2 ^ 64 - 1 → effect id d n ≤ 2 ^ 64 - 1
  effect_bounded (doc j (up x)) n h = ground arith
  effect_bounded (doc j (down x)) n h = ground arith
  effect_bounded (doc_only j (up x)) n h = ground arith
  effect_bounded (doc_only j (down x)) n h = ground arith
  effect_bounded (index i x) n h = h

  pub counter_update-current :
      (deltas : List CounterDelta) (t : CounterUpdate)
      → (current t).doc_count ≤ 2 ^ 64 - 1
      → (current (counter_update cat deltas t)).doc_count ≡ counted id deltas (current t).doc_count
  unfolding counter_update
  counter_update-current [] t h = refl
  counter_update-current (d ∷ deltas) t h =
      let e = count_delta-current d t h in
      let b = effect_bounded d (current t).doc_count h in
      counter_update-current deltas (count_delta cat d t) (omega (arith, e, b))
      ∙ ap (counted id deltas) e
