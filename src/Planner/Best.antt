-- ===== src/Planner/Best.antt =====
-- What makes an index the best for crates/zydecodb-document/src/planner.rs, in terms of the fields.
use zydecodb.Prelude.{
  ℕ, ◌≤◌, ◌<◌, ◌≡◌, ◌≢◌, ◌⊎◌, ◌↔◌, sym, subst, ap, ◌∙◌, length, get_elem?, inl, inr, Bool, true,
  false, Option, none, some, List, [], ◌∷◌, arith, All, take, Bool-cases, Option-cases,
}
use zydecodb.Prelude.Bytes.{Bytes}
use zydecodb.Prelude.SortedMap.{Has, All-imp}
use zydecodb.Catalog.{IndexMeta}
use zydecodb.Planner.{eq_prefix, range_behind, best_index, has_eq, has_range_of, get_constraint_of}
use zydecodb.Planner.Constraints.{Constraint, ConstraintMap, get_constraint}
use zydecodb.Planner.Meets.{Each}
use zydecodb.Planner.Choice.{
  is_unusable, IsFound, IsNotBetter, best_index-IsFound_own, best_index-IsNotBetter,
}

module _ {N : Type 0} where
  -- A field has an equality.
  abbrev pub IsFixed : Option (Constraint N) → Type 0
  IsFixed none = ⊥
  IsFixed (some c) = c.eq ≢ none

  -- A field has a lower or an upper limit.
  abbrev pub IsLimited : Option (Constraint N) → Type 0
  IsLimited none = ⊥
  IsLimited (some c) = (c.lo ≢ none) ⊎ (c.hi ≢ none)

  fixed : (o : Option (Constraint N)) → has_eq o ≡ true → IsFixed o
  fixed none h = ground arith
  fixed (some c) h = λ e. ground (arith, e, h)

  unfixed : (o : Option (Constraint N)) → has_eq o ≡ false → ¬ (IsFixed o)
  unfixed none h f = f
  unfixed (some c) h f = ground (arith, f, h)

  limited : (o : Option (Constraint N)) → (has_range_of o ≡ true) ↔ IsLimited o
  limited none = (λ h. ground (arith, h), λ h. absurd h)
  limited (some c) = (
    λ h. elim (Option-cases c.lo) [
      | inl n ↦ inr (λ e. ground (arith, h, n, e))
      | inr (v, k) ↦ inl (λ e. ground (arith, k, e))
    ],
    λ h. ground (arith, h),
  )

module _ {N : Type 0} (m : ConstraintMap N) where
  -- The first `n` fields of an index have an equality each, the next field has none, and `ranged`
  -- says whether that one has a range.
  abbrev pub IsMeasured : IndexMeta → ℕ → Bool → Type 0
  IsMeasured idx n ranged =
      let next = get_constraint_of m (get_elem? idx.fields n) in
      (n ≤ length idx.fields)
      × All (λ f. IsFixed (get_constraint m f)) (take n idx.fields)
      × (¬ (IsFixed next))
      × ((ranged ≡ true) ↔ IsLimited next)

  -- An index serves no better than a prefix and a range: its prefix is shorter, or as long and
  -- without a range where the other has none.
  abbrev pub ServesNoBetter : ℕ → Bool → IndexMeta → Type 0
  ServesNoBetter n ranged idx =
      (e : ℕ) × (r : Bool) × IsMeasured idx e r
      × ((e < n) ⊎ ((e ≡ n) × ((r ≡ false) ⊎ (ranged ≡ true))))

  abbrev pub IsBest : List IndexMeta → Option (ℕ × Bool × IndexMeta) → Type 0
  IsBest indexes none = All (λ idx. IsMeasured idx 0 false) indexes
  IsBest indexes (some (n, ranged, idx)) =
      Has idx indexes
      × IsMeasured idx n ranged
      × ((1 ≤ n) ⊎ (ranged ≡ true))
      × All (ServesNoBetter n ranged) indexes

  eq_prefix_facts :
      (fs : List Bytes)
      → (eq_prefix m fs ≤ length fs)
        × All (λ f. IsFixed (get_constraint m f)) (take (eq_prefix m fs) fs)
        × (¬ (IsFixed (get_constraint_of m (get_elem? fs (eq_prefix m fs)))))
  unfolding eq_prefix
  eq_prefix_facts [] = (omega arith, tt, λ h. h)
  eq_prefix_facts (f ∷ fs) =
      let (short, all, next) = eq_prefix_facts fs in
      elim (Bool-cases (has_eq (get_constraint m f))) [
        | inl t ↦ rw t (omega (arith, short), (fixed (get_constraint m f) t, all), next)
        | inr n ↦ rw n (omega arith, tt, unfixed (get_constraint m f) n)
      ]

  measured :
      (idx : IndexMeta)
      → IsMeasured idx (eq_prefix m idx.fields) (range_behind m idx.fields (eq_prefix m idx.fields))
  unfolding range_behind
  measured idx =
      let (short, all, next) = eq_prefix_facts idx.fields in
      (
        short,
        all,
        next,
        limited (get_constraint_of m (get_elem? idx.fields (eq_prefix m idx.fields))),
      )

  no_use : (idx : IndexMeta) → is_unusable m idx ≡ true → IsMeasured idx 0 false
  no_use idx u =
      let e : eq_prefix m idx.fields ≡ 0 = ground (arith, u) in
      let r : range_behind m idx.fields (eq_prefix m idx.fields) ≡ false = ground (arith, u) in
      subst (IsMeasured idx 0) (ap (range_behind m idx.fields) (sym e) ∙ r)
        (subst (λ n. IsMeasured idx n (range_behind m idx.fields n)) e (measured idx))

  no_better :
      (n : ℕ) (ranged : Bool) (best idx : IndexMeta)
      → IsNotBetter m (some (n, ranged, best)) idx
      → ServesNoBetter n ranged idx
  no_better n ranged best idx h =
      let e = eq_prefix m idx.fields in
      let r = range_behind m idx.fields e in (e, r, measured idx, ground (arith, h))

  useful :
      (n : ℕ) (ranged : Bool) (idx : IndexMeta)
      → is_unusable m idx ≡ false
      → n ≡ eq_prefix m idx.fields
      → ranged ≡ range_behind m idx.fields n
      → (1 ≤ n) ⊎ (ranged ≡ true)
  useful n ranged idx u e q =
      let r = subst (λ k. ranged ≡ range_behind m idx.fields k) e q in ground (arith, u, e, r)

  chosen :
      (indexes : List IndexMeta) (best : Option (ℕ × Bool × IndexMeta))
      → Each (IsFound m (λ idx. Has idx indexes)) best
      → All (IsNotBetter m best) indexes
      → IsBest indexes best
  chosen indexes none f a =
      All-imp (IsNotBetter m none) (λ idx. IsMeasured idx 0 false) indexes no_use a
  chosen indexes (some (n, ranged, idx)) f a = (
    f.0,
    subst (IsMeasured idx n) (sym f.3)
        (subst (λ k. IsMeasured idx k (range_behind m idx.fields k)) (sym f.2) (measured idx)),
    useful n ranged idx f.1 f.2 f.3,
    All-imp (IsNotBetter m (some (n, ranged, idx))) (ServesNoBetter n ranged) indexes
        (no_better n ranged idx) a,
  )

  -- The index that the planner chooses is one of the collection; it has the longest prefix of fields
  -- with an equality each, and a range on the field behind it if an index of that prefix length has
  -- one; it has one or the other. No index is chosen only if none has either.
  pub best_index_maximal : (indexes : List IndexMeta) → IsBest indexes (best_index m indexes none)
  best_index_maximal indexes =
      chosen indexes (best_index m indexes none) (best_index-IsFound_own m indexes)
        (best_index-IsNotBetter m indexes none)
