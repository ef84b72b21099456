-- ===== src/Planner/Choice.antt =====
-- The index that crates/zydecodb-document/src/planner.rs chooses.
use zydecodb.Prelude.{
  ℕ, ◌≡◌, refl, inl, inr, Bool, true, false, Option, none, some, List, [], ◌∷◌, arith, All, take,
  Option-cases, Bool-cases, if◌then◌else◌, ◌&&◌, not, ◌==◌,
}
use zydecodb.Prelude.Bytes.{Bytes}
use zydecodb.Prelude.SortedMap.{Has, All-Has_self}
use zydecodb.Json.{Value}
use zydecodb.Catalog.{IndexMeta}
use zydecodb.Planner.{eq_prefix, range_behind, best_index, eq_values, better_than, better_than_best}
use zydecodb.Planner.Constraints.{ConstraintMap, get_constraint}
use zydecodb.Planner.Meets.{Each}

module _ {N : Type 0} (m : ConstraintMap N) where
  -- Every literal of an equality prefix is there.
  pub eq_values-eq_prefix :
      (fs : List Bytes) → (vs : List (Value N)) × (eq_values m (take (eq_prefix m fs) fs) ≡ some vs)
  unfolding eq_values eq_prefix
  eq_values-eq_prefix [] = ([], refl)
  eq_values-eq_prefix (f ∷ fs) = elim (Option-cases (get_constraint m f)) [
    | inl n ↦ rw n ([], refl)
    | inr (c, k) ↦ elim (Option-cases c.eq) [
      | inl n ↦ rw (k, n) ([], refl)
      | inr (v, q) ↦
          let (vs, r) = eq_values-eq_prefix fs in rw (k, q) (v ∷ vs, rw (k, q, r, eq_values) refl)
    ]
  ]

  abbrev pub is_unusable : IndexMeta → Bool
  is_unusable idx = let e = eq_prefix m idx.fields in e == 0 && not (range_behind m idx.fields e)

  -- An index that a loop over good indexes has found is good, and its prefix is its own.
  abbrev pub IsFound {κ} : (IndexMeta → Type κ) → ℕ × Bool × IndexMeta → Type κ
  IsFound P b =
      P b.2
      × (is_unusable b.2 ≡ false)
      × (b.0 ≡ eq_prefix m b.2.fields)
      × (b.1 ≡ range_behind m b.2.fields b.0)

  pub best_index-IsFound {κ} :
      (P : IndexMeta → Type κ) (indexes : List IndexMeta) (best : Option (ℕ × Bool × IndexMeta))
      → All P indexes
      → Each (IsFound P) best
      → Each (IsFound P) (best_index m indexes best)
  unfolding best_index
  best_index-IsFound P [] best a h = h
  best_index-IsFound P (idx ∷ indexes) best a h =
      let e = eq_prefix m idx.fields in
      let r = range_behind m idx.fields e in
      best_index-IsFound P indexes
        (if e == 0 && not r
          then best
          else if better_than_best e r best
          then some (e, r, idx)
          else best)
        a.1
        (elim (Bool-cases (e == 0 && not r)) [
          | inl u ↦ rw u h
          | inr u ↦ elim (Bool-cases (better_than_best e r best)) [
            | inl b ↦ rw (u, b) (a.0, u, refl, refl)
            | inr b ↦ rw (u, b) h
          ]
        ])

  -- The index does not beat the best one; where there is no best one, it is of no use.
  abbrev pub IsNotBetter : Option (ℕ × Bool × IndexMeta) → IndexMeta → Type 0
  IsNotBetter none idx = is_unusable idx ≡ true
  IsNotBetter (some b) idx =
      let e = eq_prefix m idx.fields in better_than e (range_behind m idx.fields e) b.0 b.1 ≡ false

  after : Option (ℕ × Bool × IndexMeta) → IndexMeta → Option (ℕ × Bool × IndexMeta)
  after best idx =
      let e = eq_prefix m idx.fields in
      let r = range_behind m idx.fields e in
      if e == 0 && not r then best else if better_than_best e r best then some (e, r, idx) else best

  not_better_trans :
      (e d c : ℕ) (r s t : Bool)
      → better_than e r d s ≡ false
      → better_than c t d s ≡ true
      → better_than e r c t ≡ false
  not_better_trans e d c r s t h k = ground arith

  not_better_self : (e : ℕ) (r : Bool) → better_than e r e r ≡ false
  not_better_self e r = ground arith

  unusable_worst : (e c : ℕ) (r t : Bool) → (e == 0 && not r) ≡ true → better_than e r c t ≡ false
  unusable_worst e c r t h = ground arith

  after-IsNotBetter :
      (best : Option (ℕ × Bool × IndexMeta)) (idx x : IndexMeta)
      → IsNotBetter best x
      → IsNotBetter (after best idx) x
  unfolding after
  after-IsNotBetter none idx x h = elim (Bool-cases (is_unusable idx)) [
    | inl u ↦ rw u h
    | inr u ↦
        let e = eq_prefix m x.fields in
        let c = eq_prefix m idx.fields in
        rw u (unusable_worst e c (range_behind m x.fields e) (range_behind m idx.fields c) h)
  ]
  after-IsNotBetter (some (d, s, i)) idx x h =
      let e = eq_prefix m x.fields in
      let c = eq_prefix m idx.fields in
      let t = range_behind m idx.fields c in
      elim (Bool-cases (is_unusable idx)) [
        | inl u ↦ rw u h
        | inr u ↦ elim (Bool-cases (better_than c t d s)) [
          | inl b ↦ rw (u, b) (not_better_trans e d c (range_behind m x.fields e) s t h b)
          | inr b ↦ rw (u, b) h
        ]
      ]

  after-IsNotBetter_self :
      (best : Option (ℕ × Bool × IndexMeta)) (idx : IndexMeta) → IsNotBetter (after best idx) idx
  unfolding after
  after-IsNotBetter_self none idx =
      let c = eq_prefix m idx.fields in
      elim (Bool-cases (is_unusable idx)) [
        | inl u ↦ rw u u
        | inr u ↦ rw u (not_better_self c (range_behind m idx.fields c))
      ]
  after-IsNotBetter_self (some (d, s, i)) idx =
      let c = eq_prefix m idx.fields in
      let t = range_behind m idx.fields c in
      elim (Bool-cases (is_unusable idx)) [
        | inl u ↦ rw u (unusable_worst c d t s u)
        | inr u ↦ elim (Bool-cases (better_than c t d s)) [
          | inl b ↦ rw (u, b) (not_better_self c t)
          | inr b ↦ rw (u, b) b
        ]
      ]

  best_index_keeps :
      (indexes : List IndexMeta) (best : Option (ℕ × Bool × IndexMeta)) (x : IndexMeta)
      → IsNotBetter best x
      → IsNotBetter (best_index m indexes best) x
  unfolding best_index after
  best_index_keeps [] best x h = h
  best_index_keeps (idx ∷ indexes) best x h =
      best_index_keeps indexes (after best idx) x (after-IsNotBetter best idx x h)

  pub best_index-IsNotBetter :
      (indexes : List IndexMeta) (best : Option (ℕ × Bool × IndexMeta))
      → All (IsNotBetter (best_index m indexes best)) indexes
  unfolding best_index after
  best_index-IsNotBetter [] best = tt
  best_index-IsNotBetter (idx ∷ indexes) best = (
    best_index_keeps indexes (after best idx) idx (after-IsNotBetter_self best idx),
    best_index-IsNotBetter indexes (after best idx),
  )

  pub best_index-IsFound_own :
      (indexes : List IndexMeta)
      → Each (IsFound (λ idx. Has idx indexes)) (best_index m indexes none)
  best_index-IsFound_own indexes =
      best_index-IsFound (λ idx. Has idx indexes) indexes none (All-Has_self indexes) tt
