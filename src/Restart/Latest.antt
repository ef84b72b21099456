-- ===== src/Restart/Latest.antt =====
-- An insertion into the memtable leaves the other user keys as they are.
use Prim.Native.Nat.Ordering.{lt, eq, gt}
use zydecodb.Prelude.{
  ◌≤◌, ◌≡◌, ◌≢◌, ◌⊎◌, refl, sym, ap, ◌∙◌, inl, inr, Bool, true, false, List, [], ◌∷◌, arith,
  Bool-cases, Ordering,
}
use zydecodb.Prelude.Bytes.{Bytes, cmp_bytes, cmp_bytes-IsTotal}
use zydecodb.Prelude.SortedMap.{insert, seek, is_lt}
use zydecodb.Keys.{InternalKey, cmp_key, max_seq}
use zydecodb.Keys.Order.{cmp_key-IsTotal}
use zydecodb.Keys.Seek.{seek_bound}
use zydecodb.Entry.{Entry}
use zydecodb.Memtable.{Memtable, Pair, bytes_eq, of_user_key, get_latest, insert_entry}
use zydecodb.Memtable.Newest.{bytes_eq→≡, at_bound, key_order, later_ne}

pub apart_false : (a uk : Bytes) → a ≢ uk → bytes_eq a uk ≡ false
apart_false a uk ne = elim (Bool-cases (bytes_eq a uk)) [
  | inl t ↦ absurd (ne (bytes_eq→≡ a uk t))
  | inr f ↦ f
]

-- Behind a key of a greater user key there is no version of the user key.
behind_false :
    (uk : Bytes) (k j : InternalKey)
    → k.seq ≤ max_seq
    → is_lt (cmp_key k (seek_bound uk)) ≡ false
    → k.user_key ≢ uk
    → cmp_key k j ≡ lt
    → bytes_eq j.user_key uk ≡ false
behind_false uk k j fits h ne b = apart_false j.user_key uk (
    later_ne uk k.user_key j.user_key (ground (arith, at_bound uk k fits h, apart))
      (key_order k j b))
  where
    apart : cmp_bytes uk k.user_key ≢ eq
    apart e = ne (sym (cmp_bytes-IsTotal.same uk k.user_key e))

ordering_cases : (o : Ordering) → (o ≡ lt) ⊎ ((o ≡ eq) ⊎ (o ≡ gt))
ordering_cases lt = inl refl
ordering_cases eq = inr (inl refl)
ordering_cases gt = inr (inr refl)

lower_first :
    (uk : Bytes) (k j : InternalKey)
    → is_lt (cmp_key j (seek_bound uk)) ≡ true
    → cmp_key k j ≡ lt
    → is_lt (cmp_key k (seek_bound uk)) ≡ true
lower_first uk k j h b = ground (arith, cmp_key-IsTotal.trans k j (seek_bound uk) b)

seek-insert_other :
    (uk : Bytes) (k : InternalKey) (e : Entry) (m : List Pair)
    → k.seq ≤ max_seq
    → k.user_key ≢ uk
    → of_user_key uk (seek cmp_key (seek_bound uk) (insert cmp_key k e m).1)
      ≡ of_user_key uk (seek cmp_key (seek_bound uk) m)
unfolding seek insert
seek-insert_other uk k e [] fits ne = elim (Bool-cases (is_lt (cmp_key k (seek_bound uk)))) [
  | inl t ↦ rw t refl
  | inr f ↦ rw (f, apart_false k.user_key uk ne) refl
]
seek-insert_other uk k e ((j, w) ∷ m) fits ne = elim (ordering_cases (cmp_key k j)) [
  | inl b ↦ elim (Bool-cases (is_lt (cmp_key k (seek_bound uk)))) [
    | inl t ↦ rw (insert, b, seek, t) refl
    | inr f ↦ elim (Bool-cases (is_lt (cmp_key j (seek_bound uk)))) [
      | inl low ↦ absurd (no_low low (lower_first uk k j low b) f)
      | inr high ↦
          rw
            (
              insert,
              b,
              seek,
              f,
              high,
              apart_false k.user_key uk ne,
              behind_false uk k j fits f ne b,
            )
            refl
    ]
  ]
  | inr (inl same) ↦ elim (Bool-cases (is_lt (cmp_key k (seek_bound uk)))) [
    | inl t ↦ rw (insert, same, seek, t, moved same t) refl
    | inr f ↦
        rw
          (
            insert,
            same,
            seek,
            f,
            moved same f,
            apart_false k.user_key uk ne,
            apart_false j.user_key uk (λ q.
                ne (ap (λ (x : InternalKey). x.user_key) (cmp_key-IsTotal.same k j same) ∙ q)),
          )
          refl
  ]
  | inr (inr a) ↦ elim (Bool-cases (is_lt (cmp_key j (seek_bound uk)))) [
    | inl t ↦ rw (insert, a, seek, t) (seek-insert_other uk k e m fits ne)
    | inr f ↦ rw (insert, a, seek, f) refl
  ]
]
  where
    no_low :
        is_lt (cmp_key j (seek_bound uk)) ≡ true
        → is_lt (cmp_key k (seek_bound uk)) ≡ true
        → ¬ (is_lt (cmp_key k (seek_bound uk)) ≡ false)
    no_low l t f = ground (arith, t, f)

    moved :
        {b : Bool}
        → cmp_key k j ≡ eq
        → is_lt (cmp_key k (seek_bound uk)) ≡ b
        → is_lt (cmp_key j (seek_bound uk)) ≡ b
    moved same t =
        ap (λ x. is_lt (cmp_key x (seek_bound uk))) (sym (cmp_key-IsTotal.same k j same)) ∙ t

-- An insertion leaves the lookups of other user keys as they are.
pub get_latest-insert_other :
    (uk : Bytes) (k : InternalKey) (e : Entry) (m : Memtable)
    → k.seq ≤ max_seq
    → k.user_key ≢ uk
    → get_latest uk (insert_entry k e m) ≡ get_latest uk m
unfolding get_latest insert_entry
get_latest-insert_other uk k e m fits ne = seek-insert_other uk k e m.map fits ne
