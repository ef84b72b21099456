-- ===== src/Memtable/Newest.antt =====
-- `get_latest` returns the newest version of a user key.
use zydecodb.Prelude.{
  ◌≤◌, ◌<◌, ◌≡◌, ◌≢◌, ◌⊎◌, inl, inr, refl, sym, ap, ◌∙◌, true, false, Option, none, some, List, [],
  ◌∷◌, All, arith, Bool-cases,
}
use Prim.Native.Nat.Ordering.{lt, gt}
use zydecodb.Prelude.Bytes.{Bytes, cmp_bytes, cmp_bytes-IsTotal}
use zydecodb.Prelude.SortedMap.{
  insert, seek, IsSorted, Has, All-Has, Has-insert, Has-of_insert, All-imp, is_lt,
}
use zydecodb.Keys.{InternalKey, cmp_key, max_seq}
use zydecodb.Keys.Order.{cmp_key-IsTotal}
use zydecodb.Keys.Seek.{seek_bound, seek_exact, newer_first}
use zydecodb.Entry.{Entry}
use zydecodb.Memtable.{Memtable, Pair, bytes_eq, of_user_key, get_latest, insert_entry}
use zydecodb.Memtable.Valid.{IsValid, Between, insert_entry-IsValid}

-- `o` is the version of `uk` with the greatest seq among the pairs, or there is no version.
abbrev pub IsNewest : Bytes → List Pair → Option Pair → Type 0
IsNewest uk ps none = All (λ p. p.0.user_key ≢ uk) ps
IsNewest uk ps (some q) =
    Has q ps × (q.0.user_key ≡ uk) × All (λ p. p.0.user_key ≡ uk → p.0.seq ≤ q.0.seq) ps

-- A key below the seek bound of `uk` is of a smaller user key; one at or after it is not.
below_bound :
    (uk : Bytes) (k : InternalKey)
    → k.seq ≤ max_seq
    → is_lt (cmp_key k (seek_bound uk)) ≡ true
    → cmp_bytes uk k.user_key ≡ gt
below_bound uk k fits h =
    ground (arith, cmp_key-IsTotal.turn k (seek_bound uk), (seek_exact uk k fits).1)

pub at_bound :
    (uk : Bytes) (k : InternalKey)
    → k.seq ≤ max_seq
    → is_lt (cmp_key k (seek_bound uk)) ≡ false
    → cmp_bytes uk k.user_key ≢ gt
at_bound uk k fits h =
    (seek_exact uk k fits).0 (ground (arith, cmp_key-IsTotal.turn k (seek_bound uk)))

pub key_order : (a b : InternalKey) → cmp_key a b ≡ lt → cmp_bytes a.user_key b.user_key ≢ gt
unfolding cmp_key
key_order a b h = ground arith

-- A user key that lies strictly behind `uk`, and any behind that, differ from `uk`.
pub later_ne : (uk a b : Bytes) → cmp_bytes uk a ≡ lt → cmp_bytes a b ≢ gt → b ≢ uk
later_ne uk a b h k e = ground (
  arith,
  cmp_bytes-IsTotal.same a b,
  cmp_bytes-IsTotal.trans uk a b h,
  cmp_bytes-IsTotal.self uk,
  ap (cmp_bytes uk) e,
)

pub bytes_eq→≡ : (a b : Bytes) → bytes_eq a b ≡ true → a ≡ b
bytes_eq→≡ a b h = cmp_bytes-IsTotal.same a b (ground arith)

IsNewest-cons_skip :
    (uk : Bytes) (p : Pair) (ps : List Pair) (o : Option Pair)
    → p.0.user_key ≢ uk
    → IsNewest uk ps o
    → IsNewest uk (p ∷ ps) o
IsNewest-cons_skip uk p ps none h n = (h, n)
IsNewest-cons_skip uk p ps (some q) h n = (inr n.0, n.1, ((λ e. absurd (h e)), n.2))

IsNewest-seek :
    (uk : Bytes) (ps : List Pair)
    → IsSorted cmp_key ps
    → All (λ p. p.0.seq ≤ max_seq) ps
    → IsNewest uk ps (of_user_key uk (seek cmp_key (seek_bound uk) ps))
unfolding seek
IsNewest-seek uk [] s f = tt
IsNewest-seek uk ((k, e) ∷ ps) s f = elim (Bool-cases (is_lt (cmp_key k (seek_bound uk)))) [
  | inl below ↦ rw below (
      IsNewest-cons_skip uk (k, e) ps (of_user_key uk (seek cmp_key (seek_bound uk) ps))
        (λ same.
          ground
            (arith, below_bound uk k f.0 below, cmp_bytes-IsTotal.self uk, ap (cmp_bytes uk) same))
        (IsNewest-seek uk ps s.1 f.1))
  | inr here ↦ rw here (elim (Bool-cases (bytes_eq k.user_key uk)) [
    | inl same ↦ rw same (
      inl refl,
      bytes_eq→≡ k.user_key uk same,
      (
        (λ _. omega arith),
        All-imp (λ p. cmp_key k p.0 ≡ lt) (λ p. p.0.user_key ≡ uk → p.0.seq ≤ k.seq) ps
            (λ p h same'. newer_first k p.0 (bytes_eq→≡ k.user_key uk same ∙ sym same') h) s.0,
      ),
    )
    | inr other ↦ rw other (
      (λ e. ground (arith, cmp_bytes-IsTotal.self uk, ap (λ l. cmp_bytes l uk) e)),
      All-imp (λ p. cmp_key k p.0 ≡ lt) (λ p. p.0.user_key ≢ uk) ps
          (λ p h.
            later_ne uk k.user_key p.0.user_key
              (ground (arith, at_bound uk k f.0 here, cmp_bytes-IsTotal.turn uk k.user_key))
              (key_order k p.0 h))
          s.0,
    )
  ])
]

-- `get_latest` of a valid memtable returns, of all the versions of a user key, the one with the
-- greatest seq, whether value or tombstone, and nothing exactly if there is no version.
pub get_latest-IsNewest :
    (uk : Bytes) (m : Memtable) → IsValid m → IsNewest uk m.map (get_latest uk m)
unfolding get_latest
get_latest-IsNewest uk m v =
    IsNewest-seek uk m.map v.sorted
      (All-imp (Between m.min_seq m.max_seq) (λ p. p.0.seq ≤ max_seq) m.map (λ p h. h.2) v.bounded)

-- What is not newest is older: a version of the key with a seq above all the others is the newest.
newest_unique :
    (uk : Bytes) (ps : List Pair) (q : Pair) (o : Option Pair)
    → Has q ps
    → q.0.user_key ≡ uk
    → ((p : Pair) → Has p ps → p.0.user_key ≡ uk → (p ≡ q) ⊎ (p.0.seq < q.0.seq))
    → IsNewest uk ps o
    → o ≡ some q
newest_unique uk ps q none has same above n =
    absurd (All-Has (λ p. p.0.user_key ≢ uk) q ps n has same)
newest_unique uk ps q (some r) has same above n = elim (above r n.0 n.1) [
  | inl e ↦ ap some e
  | inr older ↦ absurd (
      let newer : q.0.seq ≤ r.0.seq =
        All-Has (λ p. p.0.user_key ≡ uk → p.0.seq ≤ r.0.seq) q ps n.2 has same in
      omega arith)
]

-- A write is read back at once: after an insertion whose seq is above that of every version of its
-- user key, `get_latest` returns it.
pub get_latest-insert_entry :
    (k : InternalKey) (e : Entry) (m : Memtable)
    → k.seq ≤ max_seq
    → IsValid m
    → All (λ p. p.0.user_key ≡ k.user_key → p.0.seq < k.seq) m.map
    → get_latest k.user_key (insert_entry k e m) ≡ some (k, e)
unfolding insert_entry
get_latest-insert_entry k e m fits v fresh =
    newest_unique k.user_key (insert cmp_key k e m.map).1 (k, e)
      (get_latest k.user_key (insert_entry k e m)) (Has-insert cmp_key cmp_key-IsTotal k e m.map)
      refl
      (λ p h same. elim (Has-of_insert cmp_key cmp_key-IsTotal k e m.map p h) [
        | inl new ↦ inl new
        | inr old ↦
            inr (All-Has (λ p. p.0.user_key ≡ k.user_key → p.0.seq < k.seq) p m.map fresh old same)
      ])
      (get_latest-IsNewest k.user_key (insert_entry k e m) (insert_entry-IsValid k e m fits v))
