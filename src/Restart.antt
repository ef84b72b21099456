-- ===== src/Restart.antt =====
-- crates/zydecodb-engine/src/engine/open.rs: what `open` makes of the records of the log, in the order of
-- its segments.
pub mod Spec
pub mod Latest
pub mod Ops
pub mod Reads
mod Tests
use zydecodb.Prelude.{
  ℕ, ◌+◌, max, Bool, true, false, Option, none, some, List, [], ◌∷◌, leb, ltb, ◌||◌, if◌then◌else◌,
}
use zydecodb.Prelude.Bytes.{Bytes}
use zydecodb.Memtable.{Memtable, Pair, insert_entry, get_latest}
use zydecodb.Wal.{WalEntry, seq_of, into_memtable_pairs}
use zydecodb.Compaction.Read.{resolve_entry}

-- `active`, `max_seq_seen` and `replayed` of `open`.
pub record ReplayState : Type 0 where
  pub active : Memtable
  pub max_seq_seen : ℕ
  pub replayed : ℕ

-- The loop over the pairs of a record.
unfoldable pub insert_pairs : List Pair → ReplayState → ReplayState
unfolding insert_entry
insert_pairs [] st = st
insert_pairs ((k, e) ∷ pairs) st =
    insert_pairs pairs
      (record st { active = insert_entry k e st.active; replayed = st.replayed + 1 })

-- Whether a seq is skipped: durable in a table already, or above `wal_replay_max_seq`.
abbrev pub is_above : Option ℕ → ℕ → Bool
is_above none seq = false
is_above (some ceiling) seq = ltb ceiling seq

abbrev pub is_skipped : ℕ → Option ℕ → ℕ → Bool
is_skipped sstable_max_seq ceiling seq = leb seq sstable_max_seq || is_above ceiling seq

-- The loop over the records.
unfoldable pub replay_records : ℕ → Option ℕ → List WalEntry → ReplayState → ReplayState
unfolding insert_pairs into_memtable_pairs seq_of
replay_records sstable_max_seq ceiling [] st = st
replay_records sstable_max_seq ceiling (rec ∷ records) st =
    replay_records sstable_max_seq ceiling records (
      if is_skipped sstable_max_seq ceiling (seq_of rec)
      then st
      else insert_pairs (into_memtable_pairs rec)
          (record st { max_seq_seen = max st.max_seq_seen (seq_of rec) }))

-- What a read makes of the newest version in a memtable.
abbrev pub resolved : ℕ → Option Pair → Option (Bytes × ℕ)
resolved now none = none
resolved now (some (k, e)) = resolve_entry k e now false

unfoldable pub read_latest : ℕ → Bytes → Memtable → Option (Bytes × ℕ)
unfolding get_latest resolve_entry
read_latest now uk m = resolved now (get_latest uk m)
