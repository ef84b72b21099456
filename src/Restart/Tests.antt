-- ===== src/Restart/Tests.antt =====
-- A log that is replayed: a put that a table holds already, a put, a batch that deletes one key and
-- puts another with an expiry, and a put behind the ceiling of a restore.
use zydecodb.Prelude.{◌≡◌, ◌≢◌, refl, none, some, List, [], ◌∷◌, arith}
use zydecodb.Prelude.Bytes.{Bytes, cmp_bytes}
use zydecodb.Prelude.SortedMap.{insert, seek}
use zydecodb.Keys.{cmp_key}
use zydecodb.Memtable.{new}
use zydecodb.Wal.{WalOp, WalEntry, single, batch, put, wal_put, wal_del, seq_of}
use zydecodb.Restart.{ReplayState, replay_records, read_latest}
use zydecodb.Restart.Spec.{IsLog}
use zydecodb.Restart.Reads.{IsSeen, read-replay_records}

abbrev key_a : Bytes
key_a = 1 ∷ b'a' ∷ []

abbrev key_b : Bytes
key_b = 1 ∷ b'b' ∷ []

abbrev batched : List WalOp
batched =
    record { command = wal_del; expires_at = 0; key = key_a; value = [] }
    ∷ record { command = wal_put; expires_at = 500; key = key_b; value = 8 ∷ [] }
    ∷ []

abbrev four_entries : List WalEntry
four_entries =
    single (put 1 0 key_b (6 ∷ []))
    ∷ single (put 2 0 key_a (7 ∷ []))
    ∷ batch (record { seq = 3; ops = batched })
    ∷ single (put 4 0 key_b (9 ∷ []))
    ∷ []

abbrev after_four : ReplayState
unfolding replay_records
after_four =
    replay_records 1 (some 3) four_entries (record { active = new; max_seq_seen = 1; replayed = 0 })

keys_apart : key_b ≢ key_a
keys_apart e = ground (arith, e)

four_entries-IsLog : IsLog 0 four_entries
unfolding seq_of
four_entries-IsLog = (
  omega arith,
  omega arith,
  (tt, tt),
  (
    omega arith,
    omega arith,
    (tt, tt),
    (
      omega arith,
      omega arith,
      ((keys_apart, tt), (tt, tt)),
      (omega arith, omega arith, (tt, tt), tt),
    ),
  ),
)

-- Before the expiry the key of the batch is read, later it is not, and the deleted key never is.
reads_after_four :
    (read_latest 400 key_b after_four.active ≡ some (8 ∷ [], 3))
    × (read_latest 501 key_b after_four.active ≡ none)
    × (read_latest 400 key_a after_four.active ≡ none)
unfolding after_four read_latest cmp_bytes seek insert cmp_key
reads_after_four = (refl, refl, refl)

read-replay_records_example :
    (read_latest 400 key_b after_four.active ≡ some (8 ∷ [], 3)) × IsSeen after_four
unfolding after_four cmp_bytes
read-replay_records_example =
    read-replay_records 400 key_b 1 (some 3) four_entries 1 four_entries-IsLog
