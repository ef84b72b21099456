-- ===== src/Memtable.antt =====
-- crates/zydecodb-engine/src/memtable.rs: the in-memory sorted store.
pub mod Valid
pub mod Newest
mod Tests
use zydecodb.Prelude.{
  ℕ, zero, suc, ◌+◌, ◌-◌, ◌^◌, min, max, Ordering, compare, Bool, true, false, Option, none, some,
  List, [], ◌∷◌, length, ◌==◌, if◌then◌else◌,
}
use zydecodb.Prelude.Bytes.{Bytes, cmp_bytes}
use zydecodb.Prelude.SortedMap.{insert, seek, range, is_eq}
use zydecodb.Keys.{InternalKey, EntryKind, cmp_key, max_seq}
use zydecodb.Keys.Seek.{seek_bound}
use zydecodb.Entry.{Entry, value_len}

abbrev pub Pair : Type 0
Pair = InternalKey × Entry

-- `struct Memtable`; the `BTreeMap` is the list of its entries in key order.
pub record Memtable : Type 0 where
  pub map : List Pair
  pub size_bytes : ℕ
  pub min_seq : ℕ
  pub max_seq : ℕ

-- `Memtable::new`; `u64::MAX` is the constant that keys.rs seeks by, too.
abbrev pub new : Memtable
new = record { map = []; size_bytes = 0; min_seq = 2 ^ 64 - 1; max_seq = 0 }

-- `Memtable::min_seq`.
unfoldable pub min_seq_of : Memtable → ℕ
min_seq_of m = elim m.map [ [] ↦ 0 | p ∷ ps ↦ m.min_seq ]

-- `entry_footprint_len`.
unfoldable pub entry_footprint_len : ℕ → Entry → ℕ
entry_footprint_len user_key_len entry = user_key_len + value_len entry + 8 + 1 + 8 + 48

-- `self.size_bytes` after the insertion; a subtraction of a `usize` stops at 0 here, and the
-- invariant shows that it does not.
unfoldable pub size_after : ℕ → ℕ → ℕ → Option Entry → ℕ
unfolding entry_footprint_len
size_after size key_len added none = size + added
size_after size key_len added (some old) = size + added - entry_footprint_len key_len old

-- `Memtable::insert`.
unfoldable pub insert_entry : InternalKey → Entry → Memtable → Memtable
unfolding size_after
insert_entry key entry m =
    let (old, map) = insert cmp_key key entry m.map in
    let key_len = length key.user_key in
    record {
      map = map;
      size_bytes = size_after m.size_bytes key_len (entry_footprint_len key_len entry) old;
      min_seq = min m.min_seq key.seq;
      max_seq = max m.max_seq key.seq;
    }

-- `k.user_key == user_key`.
abbrev pub bytes_eq : Bytes → Bytes → Bool
bytes_eq a b = is_eq (cmp_bytes a b)

abbrev pub of_user_key : Bytes → Option Pair → Option Pair
of_user_key uk none = none
of_user_key uk (some (k, e)) = if bytes_eq k.user_key uk then some (k, e) else none

-- `Memtable::get_latest`: seek to `(user_key, u64::MAX)`, and keep what has the user key.
unfoldable pub get_latest : Bytes → Memtable → Option Pair
get_latest user_key m = of_user_key user_key (seek cmp_key (seek_bound user_key) m.map)

-- `Memtable::range` and `range_internal`.
unfoldable pub range_of : Bytes → Bytes → Memtable → List Pair
range_of start end m = range cmp_key (seek_bound start) (seek_bound end) m.map
