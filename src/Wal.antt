-- ===== src/Wal.antt =====
-- crates/zydecodb-engine/src/wal.rs: the records of the write-ahead log and their bytes. The CRC
-- is that of the crate crc32fast, a parameter of the functions that call it.
pub mod Decode
pub mod Layout
pub mod Ops
pub mod Fields
pub mod Codec
pub mod Torn
pub mod Replay
pub mod Recovery
pub mod Damage
pub mod Fuel
mod Tests
use zydecodb.Prelude.{
  ℕ, zero, suc, ◌+◌, ◌*◌, ◌^◌, ◌<◌, Bool, true, false, Option, none, some, List, [], ◌∷◌, ◌++◌, map,
  length, ltb, ◌==◌, ◌&&◌, if◌then◌else◌,
}
use zydecodb.Prelude.Bytes.{Bytes, to_be}
use zydecodb.Keys.{InternalKey, EntryKind}
use zydecodb.Entry as Entries
use zydecodb.Entry.{Entry}

abbrev pub wal_put : ℕ
wal_put = 0x01

abbrev pub wal_del : ℕ
wal_del = 0x02

abbrev pub wal_batch : ℕ
wal_batch = 0x03

-- `ENTRY_FIXED`, `BATCH_HEADER`, `BATCH_OP_FIXED`, `WAL_SEGMENT_SIZE`.
abbrev pub entry_fixed : ℕ
entry_fixed = 25

abbrev pub batch_header : ℕ
batch_header = 13

abbrev pub batch_op_fixed : ℕ
batch_op_fixed = 17

abbrev pub wal_segment_size : ℕ
wal_segment_size = 64 * 1024 * 1024

-- `struct WalRecord`.
pub record WalRecord : Type 0 where
  pub command : ℕ
  pub seq : ℕ
  pub expires_at : ℕ
  pub key : Bytes
  pub value : Bytes

-- `WalRecord::put`.
abbrev pub put : ℕ → ℕ → Bytes → Bytes → WalRecord
put seq expires_at key value = record {
  command = wal_put;
  seq = seq;
  expires_at = expires_at;
  key = key;
  value = value;
}

-- `WalRecord::del`.
abbrev pub del : ℕ → Bytes → WalRecord
del seq key = record { command = wal_del; seq = seq; expires_at = 0; key = key; value = [] }

-- `struct WalOp`.
pub record WalOp : Type 0 where
  pub command : ℕ
  pub expires_at : ℕ
  pub key : Bytes
  pub value : Bytes

-- `struct WalBatch`.
pub record WalBatch : Type 0 where
  pub seq : ℕ
  pub ops : List WalOp

-- `enum WalEntry`.
pub data WalEntry : Type 0 where
  single : WalRecord → WalEntry
  batch : WalBatch → WalEntry

-- What `encode_record` writes before the CRC.
unfoldable pub record_body : WalRecord → Bytes
record_body r =
    r.command
    ∷ (to_be 8 r.seq
        ++ (to_be 8 r.expires_at
            ++ (to_be 4 (length r.key) ++ (to_be 4 (length r.value) ++ (r.key ++ r.value)))))

-- The round of the loop in `WalBatch::encode`.
unfoldable pub op_bytes : WalOp → Bytes
op_bytes op =
    op.command
    ∷ (to_be 8 op.expires_at
        ++ (to_be 4 (length op.key) ++ (to_be 4 (length op.value) ++ (op.key ++ op.value))))

unfoldable pub ops_bytes : List WalOp → Bytes
unfolding op_bytes
ops_bytes [] = []
ops_bytes (op ∷ ops) = op_bytes op ++ ops_bytes ops

-- What `WalBatch::encode` writes before the CRC.
unfoldable pub batch_body : WalBatch → Bytes
unfolding ops_bytes
batch_body b = wal_batch ∷ (to_be 8 b.seq ++ (to_be 4 (length b.ops) ++ ops_bytes b.ops))

module _ (crc32 : Bytes → ℕ) where
  -- `encode_record`, `WalRecord::encode`.
  unfoldable pub encode_record : WalRecord → Bytes
  unfolding record_body
  encode_record r = let buf = record_body r in buf ++ to_be 4 (crc32 buf)

  -- `WalBatch::encode`.
  unfoldable pub encode_batch : WalBatch → Bytes
  unfolding batch_body
  encode_batch b = let buf = batch_body b in buf ++ to_be 4 (crc32 buf)

  -- An entry as it is appended to a segment.
  unfoldable pub encode_entry : WalEntry → Bytes
  unfolding encode_record encode_batch
  encode_entry (single r) = encode_record r
  encode_entry (batch b) = encode_batch b

-- `WalEntry::seq`.
unfoldable pub seq_of : WalEntry → ℕ
seq_of (single r) = r.seq
seq_of (batch b) = b.seq

-- `op_to_memtable_pair`.
unfoldable pub op_to_memtable_pair : ℕ → WalOp → InternalKey × Entry
op_to_memtable_pair seq op =
    if op.command == wal_del
    then (record { user_key = op.key; seq = seq; kind = EntryKind.tombstone }, Entries.tombstone)
    else (
      record { user_key = op.key; seq = seq; kind = EntryKind.value },
      Entries.value op.value (if op.expires_at == 0 then none else some op.expires_at),
    )

-- `WalRecord::to_memtable_pair`.
unfoldable pub to_memtable_pair : WalRecord → InternalKey × Entry
to_memtable_pair r =
    if r.command == wal_del
    then (record { user_key = r.key; seq = r.seq; kind = EntryKind.tombstone }, Entries.tombstone)
    else (
      record { user_key = r.key; seq = r.seq; kind = EntryKind.value },
      Entries.value r.value (if r.expires_at == 0 then none else some r.expires_at),
    )

-- `WalEntry::into_memtable_pairs`.
unfoldable pub into_memtable_pairs : WalEntry → List (InternalKey × Entry)
unfolding to_memtable_pair op_to_memtable_pair
into_memtable_pairs (single r) = to_memtable_pair r ∷ []
into_memtable_pairs (batch b) = map (op_to_memtable_pair b.seq) b.ops

-- `should_roll`.
unfoldable pub should_roll : ℕ → ℕ → Bool
should_roll current_size next_entry_size =
    ltb 0 current_size && ltb wal_segment_size (current_size + next_entry_size)
