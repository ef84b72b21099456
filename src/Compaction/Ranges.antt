-- ===== src/Compaction/Ranges.antt =====
-- The ranges of tables, and the tables that the planner of crates/zydecodb-engine/src/compaction.rs
-- picks by them.

use zydecodb.Prelude.{
  ℕ, ◌≡◌, ◌≢◌, ◌⊎◌, refl, sym, subst, ap, ◌∙◌, inl, inr, Bool, true, false, some, List, [], ◌∷◌,
  ◌++◌, arith, ltb, ◌==◌, if◌then◌else◌, Bool-cases, ==_refl, ==_iff,
}
use zydecodb.Prelude.Bytes.{Bytes, cmp_bytes-IsTotal}
use zydecodb.Prelude.SortedMap.{Has}
use zydecodb.Manifest.{SstableMeta}
use zydecodb.Compaction.Levels.{
  bytes_lt, overlaps, widen, key_span, at_level, overlapping, oldest, others,
}
use zydecodb.Compaction.Planner.{ids_of}

pub bytes_lt_trans :
    (a b c : Bytes) → bytes_lt a b ≡ true → bytes_lt b c ≡ true → bytes_lt a c ≡ true
bytes_lt_trans a b c p q = ground (arith, cmp_bytes-IsTotal.trans a b c)

pub bytes_lt_le : (a b c : Bytes) → bytes_lt a b ≡ true → bytes_lt c b ≡ false → bytes_lt a c ≡ true
bytes_lt_le a b c p q = ground (
  arith,
  cmp_bytes-IsTotal.trans a b c,
  cmp_bytes-IsTotal.turn b c,
  cmp_bytes-IsTotal.turn c b,
  cmp_bytes-IsTotal.same b c,
)

pub bytes_le_lt : (a b c : Bytes) → bytes_lt b a ≡ false → bytes_lt b c ≡ true → bytes_lt a c ≡ true
bytes_le_lt a b c p q =
    ground
      (arith, cmp_bytes-IsTotal.trans a b c, cmp_bytes-IsTotal.turn a b, cmp_bytes-IsTotal.same a b)

pub bytes_lt_irrefl : (a : Bytes) → bytes_lt a a ≡ false
bytes_lt_irrefl a = ground (arith, cmp_bytes-IsTotal.self a)

pub bytes_le_trans :
    (a b c : Bytes) → bytes_lt b a ≡ false → bytes_lt c b ≡ false → bytes_lt c a ≡ false
bytes_le_trans a b c p q = ground (arith, bytes_le_lt b c a, bytes_lt_le c a b)

bytes_lt_asym : (a b : Bytes) → bytes_lt a b ≡ true → bytes_lt b a ≡ false
bytes_lt_asym a b h = ground (arith, bytes_lt_trans a b a, bytes_lt_irrefl a)

lower_both :
    (a lo : Bytes)
    → (bytes_lt a (if bytes_lt a lo then a else lo) ≡ false)
      × (bytes_lt lo (if bytes_lt a lo then a else lo) ≡ false)
lower_both a lo = elim (Bool-cases (bytes_lt a lo)) [
  | inl t ↦ rw t (bytes_lt_irrefl a, bytes_lt_asym a lo t)
  | inr f ↦ rw f (f, bytes_lt_irrefl lo)
]

upper_both :
    (b hi : Bytes)
    → (bytes_lt (if bytes_lt hi b then b else hi) b ≡ false)
      × (bytes_lt (if bytes_lt hi b then b else hi) hi ≡ false)
upper_both b hi = elim (Bool-cases (bytes_lt hi b)) [
  | inl t ↦ rw t (bytes_lt_irrefl b, bytes_lt_asym hi b t)
  | inr f ↦ rw f (f, bytes_lt_irrefl hi)
]

-- The tables that lie on one side of another, and within a range.
abbrev pub IsBefore : SstableMeta → SstableMeta → Type 0
IsBefore m n = bytes_lt m.max_key n.min_key ≡ true

abbrev pub IsWithin : Bytes → Bytes → SstableMeta → Type 0
IsWithin lo hi n = (bytes_lt n.min_key lo ≡ false) × (bytes_lt hi n.max_key ≡ false)

pub widen-IsWithin :
    (ms : List SstableMeta) (lo hi : Bytes) (n : SstableMeta)
    → IsWithin lo hi n ⊎ Has n ms
    → IsWithin (widen ms lo hi).0 (widen ms lo hi).1 n
unfolding widen
widen-IsWithin [] lo hi n (inl w) = w
widen-IsWithin [] lo hi n (inr h) = absurd h
widen-IsWithin (m ∷ ms) lo hi n h = widen-IsWithin ms lower upper n (step h)
  where
    lower : Bytes
    lower = if bytes_lt m.min_key lo then m.min_key else lo

    upper : Bytes
    upper = if bytes_lt hi m.max_key then m.max_key else hi

    step : IsWithin lo hi n ⊎ Has n (m ∷ ms) → IsWithin lower upper n ⊎ Has n ms
    step (inl w) = inl (
      bytes_le_trans lower lo n.min_key (lower_both m.min_key lo).1 w.0,
      bytes_le_trans n.max_key hi upper w.1 (upper_both m.max_key hi).1,
    )
    step (inr (inl e)) = inl (
        subst (IsWithin lower upper) (sym e)
          ((lower_both m.min_key lo).0, (upper_both m.max_key hi).0))
    step (inr (inr i)) = inr i

pub key_span-IsWithin :
    (ms : List SstableMeta) (lo hi : Bytes)
    → key_span ms ≡ some (lo, hi)
    → (n : SstableMeta) → Has n ms
    → IsWithin lo hi n
unfolding key_span
key_span-IsWithin [] lo hi e n h = absurd h
key_span-IsWithin (m ∷ ms) lo hi e n h =
    let same : widen ms m.min_key m.max_key ≡ (lo, hi) = ground (arith, e) in
    subst (λ (r : Bytes × Bytes). IsWithin r.0 r.1 n) same
      (widen-IsWithin ms m.min_key m.max_key n (first h))
  where
    first : Has n (m ∷ ms) → IsWithin m.min_key m.max_key n ⊎ Has n ms
    first (inl q) = inl (
        subst (IsWithin m.min_key m.max_key) (sym q)
          (bytes_lt_irrefl m.min_key, bytes_lt_irrefl m.max_key))
    first (inr i) = inr i

pub Has-at_level :
    (level : ℕ) (ms : List SstableMeta) (k : SstableMeta)
    → Has k (at_level level ms)
    → Has k ms × (k.level ≡ level)
unfolding at_level
Has-at_level level [] k h = absurd h
Has-at_level level (m ∷ ms) k h = elim (Bool-cases (m.level == level)) [
  | inl s ↦
      let g : (k ≡ m) ⊎ Has k (at_level level ms) = rw s at h in
      elim g [
        | inl q ↦ (inl q, ap (λ (x : SstableMeta). x.level) q ∙ (==_iff m.level level).0 s)
        | inr i ↦ let (j, e) = Has-at_level level ms k i in (inr j, e)
      ]
  | inr n ↦ let (i, e) = Has-at_level level ms k (rw n at h) in (inr i, e)
]

pub at_level-Has :
    (level : ℕ) (ms : List SstableMeta) (k : SstableMeta)
    → Has k ms
    → k.level ≡ level
    → Has k (at_level level ms)
unfolding at_level
at_level-Has level [] k h e = absurd h
at_level-Has level (m ∷ ms) k (inl q) e =
    let s : (m.level == level) ≡ true =
      ap (λ (x : SstableMeta). x.level == level) (sym q) ∙ rw e (==_refl level) in
    rw s (inl q)
at_level-Has level (m ∷ ms) k (inr i) e = elim (Bool-cases (m.level == level)) [
  | inl s ↦ rw s (inr (at_level-Has level ms k i e))
  | inr n ↦ rw n (at_level-Has level ms k i e)
]

pub Has-overlapping :
    (lo hi : Bytes) (ms : List SstableMeta) (id : ℕ)
    → Has id (overlapping lo hi ms)
    → (k : SstableMeta) × Has k ms × (overlaps k.min_key k.max_key lo hi ≡ true) × (id ≡ k.id)
unfolding overlapping
Has-overlapping lo hi [] id h = absurd h
Has-overlapping lo hi (m ∷ ms) id h = elim (Bool-cases (overlaps m.min_key m.max_key lo hi)) [
  | inl s ↦
      let g : (id ≡ m.id) ⊎ Has id (overlapping lo hi ms) = rw s at h in
      elim g [
        | inl q ↦ (m, inl refl, s, q)
        | inr j ↦ let (k, i, o, e) = Has-overlapping lo hi ms id j in (k, inr i, o, e)
      ]
  | inr n ↦ let (k, i, o, e) = Has-overlapping lo hi ms id (rw n at h) in (k, inr i, o, e)
]

pub overlapping-Has :
    (lo hi : Bytes) (ms : List SstableMeta) (k : SstableMeta)
    → Has k ms
    → overlaps k.min_key k.max_key lo hi ≡ true
    → Has k.id (overlapping lo hi ms)
unfolding overlapping
overlapping-Has lo hi [] k h e = absurd h
overlapping-Has lo hi (m ∷ ms) k (inl q) e =
    let s = ap (λ (x : SstableMeta). overlaps x.min_key x.max_key lo hi) (sym q) ∙ e in
    rw s (inl (ap (λ (x : SstableMeta). x.id) q))
overlapping-Has lo hi (m ∷ ms) k (inr i) e =
    elim (Bool-cases (overlaps m.min_key m.max_key lo hi)) [
      | inl s ↦ rw s (inr (overlapping-Has lo hi ms k i e))
      | inr n ↦ rw n (overlapping-Has lo hi ms k i e)
    ]

pub oldest-Has : (m : SstableMeta) (ms : List SstableMeta) → Has (oldest m ms) (m ∷ ms)
unfolding oldest
oldest-Has m [] = inl refl
oldest-Has m (n ∷ ms) = pick (oldest-Has n ms) (oldest-Has m ms) (ltb n.id m.id)
  where
    pick :
        Has (oldest n ms) (n ∷ ms)
        → Has (oldest m ms) (m ∷ ms)
        → (b : Bool) → Has (oldest (if b then n else m) ms) (m ∷ n ∷ ms)
    pick h i true = inr h
    pick h (inl e) false = inl e
    pick h (inr i) false = inr (inr i)

pub Has-others :
    (id : ℕ) (ms : List SstableMeta) (k : SstableMeta) → Has k (others id ms) → Has k ms
Has-others id [] k h = absurd h
Has-others id (m ∷ ms) k h = elim (Bool-cases (m.id == id)) [
  | inl s ↦ inr (Has-others id ms k (rw s at h))
  | inr n ↦
      let g : (k ≡ m) ⊎ Has k (others id ms) = rw n at h in
      elim g [ inl q ↦ inl q | inr i ↦ inr (Has-others id ms k i) ]
]

pub others-Has :
    (id : ℕ) (ms : List SstableMeta) (k : SstableMeta) → Has k ms → k.id ≢ id → Has k (others id ms)
others-Has id [] k h d = absurd h
others-Has id (m ∷ ms) k (inl q) d =
    let n : (m.id == id) ≡ false = ground (arith, d, ap (λ (x : SstableMeta). x.id) q) in
    rw n (inl q)
others-Has id (m ∷ ms) k (inr i) d = elim (Bool-cases (m.id == id)) [
  | inl s ↦ rw s (others-Has id ms k i d)
  | inr n ↦ rw n (inr (others-Has id ms k i d))
]

pub Has-ids_of :
    (ms : List SstableMeta) (id : ℕ)
    → Has id (ids_of ms)
    → (k : SstableMeta) × Has k ms × (id ≡ k.id)
Has-ids_of [] id h = absurd h
Has-ids_of (m ∷ ms) id (inl e) = (m, inl refl, e)
Has-ids_of (m ∷ ms) id (inr h) = let (k, i, e) = Has-ids_of ms id h in (k, inr i, e)

pub Has-append : (xs ys : List ℕ) (id : ℕ) → Has id (xs ++ ys) → Has id xs ⊎ Has id ys
Has-append [] ys id h = inr h
Has-append (x ∷ xs) ys id (inl e) = inl (inl e)
Has-append (x ∷ xs) ys id (inr h) = elim (Has-append xs ys id h) [
  | inl i ↦ inl (inr i)
  | inr j ↦ inr j
]

pub append-Has : (xs ys : List ℕ) (id : ℕ) → Has id ys → Has id (xs ++ ys)
append-Has [] ys id h = h
append-Has (x ∷ xs) ys id h = inr (append-Has xs ys id h)
