-- ===== src/Manifest/Tests.antt =====
-- The manifest of concrete records, with a CRC that stands for that of crc32fast.
use zydecodb.Prelude.{
  ℕ, ◌+◌, ◌%◌, ◌^◌, ◌<◌, ◌≤◌, ◌≡◌, refl, List, [], ◌∷◌, ◌++◌, length, take, All, arith, ◌↔◌, inr,
}
use zydecodb.Prelude.Bytes.{Bytes, to_be}
use zydecodb.Prelude.SortedMap.{Has}
use zydecodb.Errors.{ok, err, format_version}
use zydecodb.Manifest.{
  SstableMeta, ManifestRecord, no_state, apply, sstable_add, sstable_remove, seq_checkpoint,
  wal_truncate, payload, framed, encode_manifest,
}
use zydecodb.Manifest.Decode.{replay_manifest, replay_manifest_from}
use zydecodb.Manifest.Payload.{FitsManifest}
use zydecodb.Manifest.Replay.{
  applied, manifest_bytes, replay_manifest-torn, replay_manifest_unknown,
}
use zydecodb.Manifest.Fuel.{replay_manifest_fuel}
use zydecodb.Manifest.State.{IsAlive, live_exact, Covers, apply_monotone}

abbrev toy_crc : Bytes → ℕ
toy_crc b = length b % 2 ^ 32

toy_crc_lt : (b : Bytes) → toy_crc b < 2 ^ 32
toy_crc_lt b = omega arith

abbrev table : SstableMeta
table = record {
  id = 7;
  level = 0;
  min_key = 1 ∷ 2 ∷ [];
  max_key = 1 ∷ 9 ∷ [];
  min_seq = 3;
  max_seq = 40;
  size_bytes = 4096;
}

table_fits : FitsManifest (sstable_add table)
unfolding payload to_be
table_fits = (
  record {
    id = omega arith;
    min_key = omega arith;
    max_key = omega arith;
    min_seq = omega arith;
    max_seq = omega arith;
    size_bytes = omega arith;
  },
  omega arith,
)

abbrev three_records : List ManifestRecord
three_records = sstable_add table ∷ seq_checkpoint 41 ∷ wal_truncate 2 ∷ []

three_records_fit : All FitsManifest three_records
three_records_fit = (table_fits, (omega arith, (omega arith, tt)))

remove_size : length (encode_manifest toy_crc (sstable_remove 7)) ≡ 17
unfolding encode_manifest to_be
remove_size = refl

applied_state :
    applied no_state three_records
    ≡ record { live_sstables = table ∷ []; last_durable_seq = 41; wal_truncated_up_to = 2 }
unfolding applied
applied_state = refl

replay_manifest-torn_example :
    replay_manifest toy_crc
      (manifest_bytes toy_crc three_records ++ take 12 (encode_manifest toy_crc (sstable_remove 7)))
    ≡ ok (applied no_state three_records)
replay_manifest-torn_example =
    replay_manifest-torn toy_crc toy_crc_lt three_records (sstable_remove 7) 12 three_records_fit
      (omega arith) (omega (arith, remove_size))

replay_manifest_unknown_example :
    replay_manifest toy_crc (
      manifest_bytes toy_crc three_records
      ++ (framed 9 (1 ∷ []) ++ (to_be 4 (toy_crc (framed 9 (1 ∷ []))) ++ (5 ∷ []))))
    ≡ err (format_version "manifest: unknown record type")
replay_manifest_unknown_example =
    replay_manifest_unknown toy_crc toy_crc_lt three_records 9 (1 ∷ []) (5 ∷ []) three_records_fit
      (omega arith) (inr (omega arith))

replay_manifest_fuel_example :
    replay_manifest_from toy_crc (length {A = ℕ} (3 ∷ 0 ∷ []) + 5) (3 ∷ 0 ∷ []) 0 no_state
    ≡ replay_manifest toy_crc (3 ∷ 0 ∷ [])
replay_manifest_fuel_example = replay_manifest_fuel toy_crc 5 (3 ∷ 0 ∷ [])

live_exact_example :
    Has table (applied no_state three_records).live_sstables ↔ IsAlive table three_records
live_exact_example = live_exact table three_records

apply_monotone_example :
    Covers (apply no_state (sstable_add table))
    × (0 ≤ (apply no_state (sstable_add table)).last_durable_seq)
    × (0 ≤ (apply no_state (sstable_add table)).wal_truncated_up_to)
apply_monotone_example = apply_monotone no_state (sstable_add table) tt
