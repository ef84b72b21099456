-- ===== src/Compaction/Read.antt =====
-- crates/zydecodb-engine/src/engine/read.rs: the newest version of a key that a snapshot sees in a
-- sorted run, and what a read makes of it.
use zydecodb.Prelude.{
  ℕ, Bool, Option, none, some, List, [], ◌∷◌, leb, if◌then◌else◌, ◌&&◌, ◌||◌, not,
}
use zydecodb.Prelude.Bytes.{Bytes}
use zydecodb.Keys.{InternalKey}
use zydecodb.Entry.{Entry, is_tombstone, is_expired}
use zydecodb.Memtable.{Pair, bytes_eq}

-- The loop of `newest_visible_in_sstable`.
unfoldable pub newest_visible : Bytes → ℕ → List Pair → Option Pair
newest_visible user_key seq_upper [] = none
newest_visible user_key seq_upper ((ik, entry) ∷ pairs) =
    let later = newest_visible user_key seq_upper pairs in
    if not (bytes_eq ik.user_key user_key)
    then later
    else if leb ik.seq seq_upper
    then some (ik, entry)
    else later

-- `resolve_entry`.
unfoldable pub resolve_entry : InternalKey → Entry → ℕ → Bool → Option (Bytes × ℕ)
unfolding is_tombstone is_expired
resolve_entry ik entry now include_expired =
    if is_tombstone entry || (not include_expired && is_expired entry now)
    then none
    else elim entry.value [ none ↦ none | some v ↦ some (v, ik.seq) ]
