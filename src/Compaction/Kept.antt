-- ===== src/Compaction/Kept.antt =====
-- What crates/zydecodb-engine/src/compaction_worker.rs writes, as one list: the versions that are not
-- dropped, in their order.
use zydecodb.Prelude.{
  ℕ, ◌≡◌, refl, sym, ap, ap₂, ◌∙◌, inl, inr, Bool, false, Option, none, some, List, [], ◌∷◌, ◌++◌,
  append-nil, append_assoc, arith, ◌&&◌, not, Option-cases,
}
use zydecodb.Prelude.Bytes.{Bytes}
use zydecodb.Keys.{InternalKey}
use zydecodb.Memtable.{Pair}
use zydecodb.Compaction.{
  DropReason, drop_reason, CompactionState, initial_state, at_key_boundary, flush_pending,
  count_dropped, cross_boundary, place, compact_all, execute_compaction,
}

abbrev pub concat : List (List Pair) → List Pair
concat [] = []
concat (f ∷ fs) = f ++ concat fs

concat_snoc : (fs : List (List Pair)) (f : List Pair) → concat (fs ++ f ∷ []) ≡ concat fs ++ f
concat_snoc [] f = append-nil f
concat_snoc (g ∷ fs) f =
    ap (λ (l : List Pair). g ++ l) (concat_snoc fs f) ∙ sym (append_assoc g (concat fs) f)

-- All that has been kept so far.
abbrev pub written : CompactionState → List Pair
written st = concat st.files ++ st.pending

flush-written : (st : CompactionState) → written (flush_pending st) ≡ written st
unfolding flush_pending
flush-written st = by_pending st.pending
  where
    by_pending :
        (ps : List Pair)
        → written (flush_pending (record st { pending = ps })) ≡ concat st.files ++ ps
    by_pending [] = refl
    by_pending (p ∷ ps) =
        append-nil (concat (st.files ++ (p ∷ ps) ∷ [])) ∙ concat_snoc st.files (p ∷ ps)

-- After the last flush nothing is pending.
flush_end : (st : CompactionState) → concat (flush_pending st).files ≡ written st
unfolding flush_pending
flush_end st = by_pending st.pending
  where
    by_pending :
        (ps : List Pair)
        → concat (flush_pending (record st { pending = ps })).files ≡ concat st.files ++ ps
    by_pending [] = sym (append-nil (concat st.files))
    by_pending (p ∷ ps) = concat_snoc st.files (p ∷ ps)

-- A counter changes nothing else.
counted-same :
    (r : DropReason) (st : CompactionState)
    → (written (count_dropped r st) ≡ written st)
      × ((count_dropped r st).last_user_key ≡ st.last_user_key)
      × ((count_dropped r st).kept_at_or_below_watermark ≡ st.kept_at_or_below_watermark)
      × ((count_dropped r st).drop_rest_of_key ≡ st.drop_rest_of_key)
unfolding count_dropped
counted-same DropReason.expired st = (refl, refl, refl, refl)
counted-same DropReason.tombstone st = (refl, refl, refl, refl)
counted-same DropReason.version st = (refl, refl, refl, refl)

module _ (w : ℕ) (drop_tombstones : Bool) (now : ℕ) where
  -- The versions that are kept, from a state of the three flags on.
  unfoldable pub retained : Option Bytes → Bool → Bool → List Pair → List Pair
  unfolding drop_reason
  retained last kept rest [] = []
  retained last kept rest ((k, e) ∷ pairs) =
      let b = at_key_boundary k last in
      let (reason, kept_after, rest_after) =
        drop_reason k e w drop_tombstones now (kept && not b) (rest && not b) in
      let later = retained (some k.user_key) kept_after rest_after pairs in
      elim reason [ none ↦ (k, e) ∷ later | some r ↦ later ]

  module _ (target : ℕ) where
    abbrev crossed : InternalKey → CompactionState → CompactionState
    crossed = cross_boundary target w drop_tombstones now

    crossed-written : (k : InternalKey) (st : CompactionState) → written (crossed k st) ≡ written st
    unfolding cross_boundary
    crossed-written k st = ground (
      arith,
      flush-written (record st { kept_at_or_below_watermark = false; drop_rest_of_key = false }),
    )

    crossed_kept :
        (k : InternalKey) (st : CompactionState)
        → (crossed k st).kept_at_or_below_watermark
          ≡ (st.kept_at_or_below_watermark && not (at_key_boundary k st.last_user_key))
    unfolding cross_boundary flush_pending
    crossed_kept k st = ground arith

    crossed_rest :
        (k : InternalKey) (st : CompactionState)
        → (crossed k st).drop_rest_of_key
          ≡ (st.drop_rest_of_key && not (at_key_boundary k st.last_user_key))
    unfolding cross_boundary flush_pending
    crossed_rest k st = ground arith

    -- The pair, if it is kept.
    abbrev one_kept : Option DropReason → Pair → List Pair
    one_kept none p = p ∷ []
    one_kept (some r) p = []

    abbrev decision : Pair → CompactionState → Option DropReason × Bool × Bool
    decision p st =
        drop_reason p.0 p.1 w drop_tombstones now st.kept_at_or_below_watermark st.drop_rest_of_key

    placed-written :
        (p : Pair) (st : CompactionState)
        → written (place target w drop_tombstones now p st)
          ≡ written st ++ one_kept (decision p st).0 p
    unfolding place count_dropped
    placed-written (k, e) st = elim (Option-cases (decision (k, e) st).0) [
      | inl n ↦ rw (n, place) (sym (append_assoc (concat st.files) st.pending ((k, e) ∷ [])))
      | inr (r, d) ↦ rw (d, place) ((counted-same r _).0 ∙ sym (append-nil (written st)))
    ]

    placed_flags :
        (p : Pair) (st : CompactionState)
        → let after = place target w drop_tombstones now p st in
          (after.last_user_key ≡ some p.0.user_key)
          × (after.kept_at_or_below_watermark ≡ (decision p st).1)
          × (after.drop_rest_of_key ≡ (decision p st).2)
    unfolding place
    placed_flags (k, e) st = elim (Option-cases (decision (k, e) st).0) [
      | inl n ↦ rw (n, place) (refl, refl, refl)
      | inr (r, d) ↦
          rw (d, place) ((counted-same r _).1, (counted-same r _).2, (counted-same r _).3)
    ]

    -- What is written up to a pair, and what is kept from it on.
    glue :
        (p : Pair) (pairs ws vs : List Pair) (last : Option Bytes) (kp rs : Bool)
        (d : Option DropReason × Bool × Bool)
        → ws ≡ vs ++ one_kept d.0 p
        → last ≡ some p.0.user_key
        → kp ≡ d.1
        → rs ≡ d.2
        → ws ++ retained last kp rs pairs
          ≡ vs ++ (elim d.0 [
            | none ↦ p ∷ retained (some p.0.user_key) d.1 d.2 pairs
            | some r ↦ retained (some p.0.user_key) d.1 d.2 pairs
          ])
    glue p pairs ws vs last kp rs (none, kd, rd) e l a b =
        rw (e, l, a, b) (append_assoc vs (p ∷ []) (retained (some p.0.user_key) kd rd pairs))
    glue p pairs ws vs last kp rs (some r, kd, rd) e l a b =
        rw (e, l, a, b) (append_assoc vs [] (retained (some p.0.user_key) kd rd pairs))

    decision-cross_boundary :
        (p : Pair) (st : CompactionState)
        → decision p (crossed p.0 st) ≡ (
            let b = at_key_boundary p.0 st.last_user_key in
            drop_reason p.0 p.1 w drop_tombstones now
              (st.kept_at_or_below_watermark && not b)
              (st.drop_rest_of_key && not b))
    decision-cross_boundary p st = rw (crossed_kept p.0 st, crossed_rest p.0 st) refl

    -- The files hold, one behind the other, the versions that are kept.
    compact_all-retained :
        (pairs : List Pair) (st : CompactionState)
        → concat (compact_all target w drop_tombstones now pairs st).files
          ≡ written st
            ++ retained st.last_user_key st.kept_at_or_below_watermark st.drop_rest_of_key pairs
    unfolding compact_all retained
    compact_all-retained [] st = flush_end st ∙ sym (append-nil (written st))
    compact_all-retained ((k, e) ∷ pairs) st =
        let c = crossed k st in
        compact_all-retained pairs (place target w drop_tombstones now (k, e) c)
        ∙ glue (k, e) pairs (written (place target w drop_tombstones now (k, e) c)) (written st)
            (place target w drop_tombstones now (k, e) c).last_user_key
            (place target w drop_tombstones now (k, e) c).kept_at_or_below_watermark
            (place target w drop_tombstones now (k, e) c).drop_rest_of_key
            (let b = at_key_boundary k st.last_user_key in
              drop_reason k e w drop_tombstones now (st.kept_at_or_below_watermark && not b)
                (st.drop_rest_of_key && not b))
            (placed-written (k, e) c
              ∙ ap₂ (λ (a b : List Pair). a ++ b) (crossed-written k st)
                  (ap (λ d. one_kept d.0 (k, e)) (decision-cross_boundary (k, e) st)))
            (placed_flags (k, e) c).0
            ((placed_flags (k, e) c).1 ∙ ap (λ d. d.1) (decision-cross_boundary (k, e) st))
            ((placed_flags (k, e) c).2 ∙ ap (λ d. d.2) (decision-cross_boundary (k, e) st))

    pub execute-retained :
        (pairs : List Pair)
        → concat (execute_compaction target w drop_tombstones now pairs).files
          ≡ retained none false false pairs
    unfolding execute_compaction
    execute-retained pairs = compact_all-retained pairs initial_state
