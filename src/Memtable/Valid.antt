-- ===== src/Memtable/Valid.antt =====
-- The invariant of a memtable: the map is sorted, the byte count is exact, and the seq bounds hold.
use zydecodb.Prelude.{
  ℕ, ◌+◌, ◌≤◌, ◌≡◌, refl, min, max, Option, none, some, List, [], ◌∷◌, length, All, arith,
}
use zydecodb.Prelude.SortedMap.{insert, IsSorted, insert-IsSorted, All-imp, insert-All}
use zydecodb.Keys.{InternalKey, cmp_key, max_seq}
use zydecodb.Keys.Order.{cmp_key-IsTotal}
use zydecodb.Entry.{Entry}
use zydecodb.Memtable.{Memtable, Pair, new, entry_footprint_len, insert_entry}

-- The footprint of a pair, and of all.
abbrev pub footprint : Pair → ℕ
footprint p = entry_footprint_len (length p.0.user_key) p.1

abbrev pub total : List Pair → ℕ
total [] = 0
total (p ∷ ps) = footprint p + total ps

-- The seqs lie between the bounds, and fit a `u64`.
abbrev pub Between : ℕ → ℕ → Pair → Type 0
Between lo hi p = (lo ≤ p.0.seq) × (p.0.seq ≤ hi) × (p.0.seq ≤ max_seq)

pub record IsValid (m : Memtable) : Type 0 where
  pub sorted : IsSorted cmp_key m.map
  pub counted : m.size_bytes ≡ total m.map
  pub bounded : All (Between m.min_seq m.max_seq) m.map

freed : ℕ → Option Entry → ℕ
freed key_len none = 0
freed key_len (some old) = entry_footprint_len key_len old

-- The insertion changes the total by the new pair and by the one that it replaces.
total-insert :
    (k : InternalKey) (e : Entry) (m : List Pair)
    → total (insert cmp_key k e m).1 + freed (length k.user_key) (insert cmp_key k e m).0
      ≡ total m + footprint (k, e)
unfolding insert freed
total-insert k e [] = omega arith
total-insert k e ((j, w) ∷ m) = ground (arith, total-insert k e m, cmp_key-IsTotal.same k j)

pub new-IsValid : IsValid new
new-IsValid = record { sorted = tt; counted = refl; bounded = tt }

-- An insertion keeps the map sorted, the byte count equal to the sum of the footprints (so the
-- subtraction for a replaced entry never falls below zero) and the seq bounds.
pub insert_entry-IsValid :
    (k : InternalKey) (e : Entry) (m : Memtable)
    → k.seq ≤ max_seq
    → IsValid m
    → IsValid (insert_entry k e m)
unfolding insert_entry freed
insert_entry-IsValid k e m fits v = record {
  sorted = insert-IsSorted cmp_key cmp_key-IsTotal k e m.map v.sorted;
  counted = ground (arith, total-insert k e m.map, v.counted);
  bounded =
      insert-All cmp_key cmp_key-IsTotal (Between (min m.min_seq k.seq) (max m.max_seq k.seq)) k e
        m.map (omega arith)
        (All-imp (Between m.min_seq m.max_seq) (Between (min m.min_seq k.seq) (max m.max_seq k.seq))
          m.map (λ p h. omega arith) v.bounded);
}
