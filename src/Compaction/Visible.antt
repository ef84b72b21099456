-- ===== src/Compaction/Visible.antt =====
-- The compaction of crates/zydecodb-engine/src/compaction_worker.rs as a snapshot sees it.
use zydecodb.Prelude.{
  ℕ, ◌≤◌, ◌<◌, ◌≡◌, ◌≢◌, refl, sym, ap, ◌∙◌, inl, inr, Bool, true, false, Option, none, some, List,
  [], ◌∷◌, All, arith, leb, ◌&&◌, not, Bool-cases, lt_or_le,
}
use zydecodb.Prelude.Bytes.{Bytes, cmp_bytes-IsTotal}
use zydecodb.Keys.{InternalKey}
use zydecodb.Entry.{Entry, is_tombstone, is_expired}
use zydecodb.Memtable.{Pair, bytes_eq}
use zydecodb.Memtable.Newest.{bytes_eq→≡}
use zydecodb.Compaction.{DropReason, should_drop, drop_reason, at_key_boundary, execute_compaction}
use zydecodb.Compaction.Read.{newest_visible}
use zydecodb.Compaction.Kept.{concat, retained, execute-retained}

-- The pair holds no value that is expired, and no tombstone that is dropped for being one.
abbrev pub IsLasting : Bool → ℕ → Pair → Type 0
IsLasting drop_tombstones now p =
    ((is_expired p.1 now && not (is_tombstone p.1)) ≡ false)
    × ((drop_tombstones && is_tombstone p.1) ≡ false)

le→leb : (a b : ℕ) → a ≤ b → leb a b ≡ true
le→leb a b h = ground arith

bytes_eq_ne : (a b : Bytes) → bytes_eq a b ≡ false → a ≢ b
bytes_eq_ne a b n q = ground (arith, cmp_bytes-IsTotal.self b, ap (λ (x : Bytes). bytes_eq x b) q)

some_eq : {a b : Bytes} → some a ≡ some b → a ≡ b
some_eq q = ground arith

-- A flag of the last key does not hold at a key that is still to be found.
fresh_flag :
    (u : Bytes) (k : InternalKey) (last : Option Bytes) (flag : Bool)
    → k.user_key ≡ u
    → (last ≡ some u → flag ≡ false)
    → (flag && not (at_key_boundary k last)) ≡ false
fresh_flag u k none flag q h = ground arith
fresh_flag u k (some prev) flag q h = elim (Bool-cases (bytes_eq k.user_key prev)) [
  | inl s ↦ rw (h (ap some (sym (bytes_eq→≡ k.user_key prev s) ∙ q))) refl
  | inr n ↦ rw n (ground arith)
]

module _ (w : ℕ) (drop_tombstones : Bool) (now : ℕ) where
  first_is_kept :
      (k : InternalKey) (e : Entry)
      → IsLasting drop_tombstones now (k, e)
      → (drop_reason k e w drop_tombstones now false false).0 ≡ none
  unfolding drop_reason should_drop
  first_is_kept k e h = rw (h.0) (unfold should_drop in rw (h.1) (ground arith))

  none_below :
      (k : InternalKey) (e : Entry)
      → IsLasting drop_tombstones now (k, e)
      → w < k.seq
      → ((drop_reason k e w drop_tombstones now false false).1 ≡ false)
        × ((drop_reason k e w drop_tombstones now false false).2 ≡ false)
  unfolding drop_reason should_drop
  none_below k e h l = rw (h.0) (unfold should_drop in rw (h.1) (ground arith))

  module _ (u : Bytes) (s : ℕ) (k : InternalKey) (e : Entry) (pairs : List Pair) where
    -- What is kept of a pair and of those behind it, after a decision.
    abbrev after : Option DropReason × Bool × Bool → List Pair
    after d = retained w drop_tombstones now (some k.user_key) d.1 d.2 pairs

    abbrev from : Option DropReason × Bool × Bool → List Pair
    from d = elim d.0 [ none ↦ (k, e) ∷ after d | some r ↦ after d ]

    skip-newest :
        (d : Option DropReason × Bool × Bool)
        → bytes_eq k.user_key u ≡ false
        → newest_visible u s (after d) ≡ newest_visible u s pairs
        → newest_visible u s (from d) ≡ newest_visible u s ((k, e) ∷ pairs)
    unfolding newest_visible
    skip-newest (none, kd, rd) n h = rw n h
    skip-newest (some r, kd, rd) n h = rw n h

    keep-newest :
        (d : Option DropReason × Bool × Bool)
        → bytes_eq k.user_key u ≡ true
        → d.0 ≡ none
        → (s < k.seq → newest_visible u s (after d) ≡ newest_visible u s pairs)
        → newest_visible u s (from d) ≡ newest_visible u s ((k, e) ∷ pairs)
    unfolding newest_visible
    keep-newest (none, kd, rd) same n h =
        rw same
          (elim (lt_or_le s k.seq) [ inl l ↦ rw (h l) refl | inr g ↦ rw (le→leb k.seq s g) refl ])
    keep-newest (some r, kd, rd) same n h = ground arith

  retained-newest :
      (u : Bytes) (s : ℕ) (pairs : List Pair) (last : Option Bytes) (kept rest : Bool)
      → w ≤ s
      → All (λ p. p.0.user_key ≡ u → IsLasting drop_tombstones now p) pairs
      → (last ≡ some u → kept ≡ false)
      → (last ≡ some u → rest ≡ false)
      → newest_visible u s (retained w drop_tombstones now last kept rest pairs)
        ≡ newest_visible u s pairs
  unfolding retained
  retained-newest u s [] last kept rest h a f z = refl
  retained-newest u s ((k, e) ∷ pairs) last kept rest h a f z =
      let b = at_key_boundary k last in
      let d = drop_reason k e w drop_tombstones now (kept && not b) (rest && not b) in
      elim (Bool-cases (bytes_eq k.user_key u)) [
        | inl same ↦
            let q = bytes_eq→≡ k.user_key u same in
            let kf = fresh_flag u k last kept q f in
            let rf = fresh_flag u k last rest q z in
            keep-newest u s k e pairs d same (rw (kf, rf) (first_is_kept k e (a.0 q))) (λ l.
              let down = none_below k e (a.0 q) (omega arith) in
              retained-newest u s pairs (some k.user_key) d.1 d.2 h a.1 (λ i. rw (kf, rf) down.0)
                (λ i. rw (kf, rf) down.1))
        | inr other ↦ skip-newest u s k e pairs d other (
            retained-newest u s pairs (some k.user_key) d.1 d.2 h a.1
              (λ i. absurd (bytes_eq_ne k.user_key u other (some_eq i)))
              (λ i. absurd (bytes_eq_ne k.user_key u other (some_eq i))))
      ]

  -- A compaction changes no read at or above its watermark: every snapshot that is live, and every
  -- read of the newest state, finds in the files the version that it found in the inputs. That is for
  -- a key of which no version is an expired value or, where tombstones are dropped, a tombstone; the
  -- other keys of the compaction may have both.
  pub execute_compaction-newest :
      (target : ℕ) (u : Bytes) (s : ℕ) (pairs : List Pair)
      → w ≤ s
      → All (λ p. p.0.user_key ≡ u → IsLasting drop_tombstones now p) pairs
      → newest_visible u s (concat (execute_compaction target w drop_tombstones now pairs).files)
        ≡ newest_visible u s pairs
  execute_compaction-newest target u s pairs h a =
      ap (newest_visible u s) (execute-retained w drop_tombstones now target pairs)
      ∙ retained-newest u s pairs none false false h a (λ q. refl) (λ q. refl)
