-- ===== src/Memtable/Tests.antt =====
-- Runs of the memtable, and the theorems at a concrete one.
use zydecodb.Prelude.{ℕ, ◌≡◌, refl, none, some, [], ◌∷◌, arith}
use zydecodb.Prelude.Bytes.{cmp_bytes}
use zydecodb.Prelude.SortedMap.{insert, seek}
use zydecodb.Keys.{InternalKey, EntryKind, value, tombstone, cmp_key}
use zydecodb.Entry as Entries
use zydecodb.Entry.{Entry, value_len}
use zydecodb.Memtable.{Memtable, new, insert_entry, get_latest}
use zydecodb.Memtable.Valid.{IsValid, insert_entry-IsValid, new-IsValid}
use zydecodb.Memtable.Newest.{IsNewest, get_latest-IsNewest, get_latest-insert_entry}

abbrev key : ℕ → EntryKind → InternalKey
key seq kind = record { user_key = 1 ∷ b'a' ∷ []; seq = seq; kind = kind }

abbrev old_value : Entry
old_value = Entries.value (b'v' ∷ []) none

-- A value, and a tombstone over it.
two_versions : Memtable
unfolding insert_entry insert cmp_key cmp_bytes value_len
two_versions =
    insert_entry (key 2 tombstone) Entries.tombstone (insert_entry (key 1 value) old_value new)

-- `tombstone_shadows_value`, with the sizes.
shadowed :
    (get_latest (1 ∷ b'a' ∷ []) two_versions ≡ some (key 2 tombstone, Entries.tombstone))
    × (two_versions.size_bytes ≡ 135)
    × (two_versions.min_seq ≡ 1)
    × (two_versions.max_seq ≡ 2)
    × (get_latest (1 ∷ b'b' ∷ []) two_versions ≡ none)
unfolding two_versions get_latest seek
shadowed = (refl, refl, refl, refl, refl)

one-IsValid : IsValid (insert_entry (key 1 value) old_value new)
one-IsValid = insert_entry-IsValid (key 1 value) old_value new (omega arith) new-IsValid

insert_entry-IsValid_example : IsValid two_versions
unfolding two_versions
insert_entry-IsValid_example =
    insert_entry-IsValid (key 2 tombstone) Entries.tombstone
      (insert_entry (key 1 value) old_value new) (omega arith) one-IsValid

get_latest-IsNewest_example :
    IsNewest (1 ∷ b'a' ∷ []) two_versions.map (get_latest (1 ∷ b'a' ∷ []) two_versions)
get_latest-IsNewest_example =
    get_latest-IsNewest (1 ∷ b'a' ∷ []) two_versions insert_entry-IsValid_example

get_latest-insert_entry_example :
    get_latest (1 ∷ b'a' ∷ []) (insert_entry (key 3 value) old_value two_versions)
    ≡ some (key 3 value, old_value)
unfolding two_versions
get_latest-insert_entry_example =
    get_latest-insert_entry (key 3 value) old_value two_versions (omega arith)
      insert_entry-IsValid_example ((λ e. omega arith), ((λ e. omega arith), tt))
