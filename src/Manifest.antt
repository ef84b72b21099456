-- ===== src/Manifest.antt =====
-- crates/zydecodb-engine/src/manifest.rs: the append-only record of the engine's tables. The CRC
-- is that of the crate crc32fast, a parameter.
pub mod Decode
pub mod Payload
pub mod Codec
pub mod Torn
pub mod Replay
pub mod Fuel
pub mod State
mod Tests
use zydecodb.Prelude.{
  ℕ, ◌+◌, ◌^◌, max, Bool, true, false, List, [], ◌∷◌, ◌++◌, length, ◌==◌, not, if◌then◌else◌,
}
use zydecodb.Prelude.Bytes.{Bytes, to_be}

abbrev pub rec_sstable_add : ℕ
rec_sstable_add = 0x01

abbrev pub rec_sstable_remove : ℕ
rec_sstable_remove = 0x02

abbrev pub rec_seq_checkpoint : ℕ
rec_seq_checkpoint = 0x03

abbrev pub rec_wal_truncate : ℕ
rec_wal_truncate = 0x04

-- `struct SstableMeta`.
pub record SstableMeta : Type 0 where
  pub id : ℕ
  pub level : ℕ
  pub min_key : Bytes
  pub max_key : Bytes
  pub min_seq : ℕ
  pub max_seq : ℕ
  pub size_bytes : ℕ

-- `enum ManifestRecord`.
pub data ManifestRecord : Type 0 where
  sstable_add : SstableMeta → ManifestRecord
  sstable_remove seq_checkpoint wal_truncate : ℕ → ManifestRecord

-- `payload`.
unfoldable pub payload : ManifestRecord → Bytes
payload (sstable_add m) =
    to_be 8 m.id
    ++ (m.level
        ∷ (to_be 4 (length m.min_key)
            ++ (m.min_key
                ++ (to_be 4 (length m.max_key)
                    ++ (m.max_key
                        ++ (to_be 8 m.min_seq ++ (to_be 8 m.max_seq ++ to_be 8 m.size_bytes)))))))
payload (sstable_remove id) = to_be 8 id
payload (seq_checkpoint last_durable_seq) = to_be 8 last_durable_seq
payload (wal_truncate up_to_segment_id) = to_be 8 up_to_segment_id

-- `type_byte`.
unfoldable pub type_byte : ManifestRecord → ℕ
type_byte (sstable_add m) = rec_sstable_add
type_byte (sstable_remove id) = rec_sstable_remove
type_byte (seq_checkpoint last_durable_seq) = rec_seq_checkpoint
type_byte (wal_truncate up_to_segment_id) = rec_wal_truncate

-- What `encode` writes before the CRC.
unfoldable pub framed : ℕ → Bytes → Bytes
framed rtype p = rtype ∷ (to_be 4 (length p) ++ p)

module _ (crc32 : Bytes → ℕ) where
  -- `encode`.
  unfoldable pub encode_manifest : ManifestRecord → Bytes
  unfolding payload type_byte framed
  encode_manifest r = let buf = framed (type_byte r) (payload r) in buf ++ to_be 4 (crc32 buf)

-- `struct ManifestState`.
pub record ManifestState : Type 0 where
  pub live_sstables : List SstableMeta
  pub last_durable_seq : ℕ
  pub wal_truncated_up_to : ℕ

abbrev pub no_state : ManifestState
no_state = record { live_sstables = []; last_durable_seq = 0; wal_truncated_up_to = 0 }

-- `retain(|m| m.id != id)`.
unfoldable pub without : ℕ → List SstableMeta → List SstableMeta
without id [] = []
without id (m ∷ ms) = let rest = without id ms in if not (m.id == id) then m ∷ rest else rest

-- `apply`.
unfoldable pub apply : ManifestState → ManifestRecord → ManifestState
unfolding without
apply s (sstable_add m) = record {
  live_sstables = s.live_sstables ++ (m ∷ []);
  last_durable_seq = max s.last_durable_seq m.max_seq;
  wal_truncated_up_to = s.wal_truncated_up_to;
}
apply s (sstable_remove id) = record {
  live_sstables = without id s.live_sstables;
  last_durable_seq = s.last_durable_seq;
  wal_truncated_up_to = s.wal_truncated_up_to;
}
apply s (seq_checkpoint last_durable_seq) = record {
  live_sstables = s.live_sstables;
  last_durable_seq = max s.last_durable_seq last_durable_seq;
  wal_truncated_up_to = s.wal_truncated_up_to;
}
apply s (wal_truncate up_to_segment_id) = record {
  live_sstables = s.live_sstables;
  last_durable_seq = s.last_durable_seq;
  wal_truncated_up_to = max s.wal_truncated_up_to up_to_segment_id;
}
