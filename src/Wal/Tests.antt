-- ===== src/Wal/Tests.antt =====
-- The log on concrete entries, with a CRC that stands for that of crc32fast.
use zydecodb.Prelude.{
  ℕ, ◌+◌, ◌*◌, ◌%◌, ◌^◌, ◌<◌, ◌≡◌, refl, true, false, List, [], ◌∷◌, ◌++◌, length, take, All, arith,
  ◌==◌,
}
use zydecodb.Prelude.Bytes.{Bytes, to_be}
use zydecodb.Wal.{
  WalEntry, single, batch, put, encode_entry, encode_record, encode_batch, record_body, batch_body,
  ops_bytes, op_bytes, should_roll, wal_put, wal_del,
}
use zydecodb.Wal.Layout.{FitsEntry}
use zydecodb.Wal.Codec.{entry_body}
use zydecodb.Wal.Replay.{replay_segment_body, replay_from, clean, torn_tail, corruption}
use zydecodb.Wal.Recovery.{log_bytes, replay_segment_body-log_bytes, replay_segment_body-torn}
use zydecodb.Wal.Damage.{replay_segment_body-damaged_end, replay_segment_body-damaged_middle}
use zydecodb.Wal.Fuel.{replay_segment_body_fuel}

abbrev toy_crc : Bytes → ℕ
toy_crc b = length b % 2 ^ 32

toy_crc_lt : (b : Bytes) → toy_crc b < 2 ^ 32
toy_crc_lt b = omega arith

abbrev one_put : WalEntry
one_put = single (put 5 0 (1 ∷ 2 ∷ []) (7 ∷ []))

abbrev two_ops : WalEntry
two_ops = batch (record {
  seq = 6;
  ops =
      record { command = wal_put; expires_at = 9; key = 3 ∷ []; value = 8 ∷ 8 ∷ [] }
      ∷ record { command = wal_del; expires_at = 0; key = 1 ∷ 2 ∷ []; value = [] }
      ∷ [];
})

one_put_fits : FitsEntry one_put
one_put_fits = record {
  command = refl;
  seq = omega arith;
  expires_at = omega arith;
  key_len = omega arith;
  value_len = omega arith;
}

two_ops_fit : FitsEntry two_ops
two_ops_fit = record {
  seq = omega arith;
  count = omega arith;
  ops = (
    record {
      command = refl;
      expires_at = omega arith;
      key_len = omega arith;
      value_len = omega arith;
    },
    (
      record {
        command = refl;
        expires_at = omega arith;
        key_len = omega arith;
        value_len = omega arith;
      },
      tt,
    ),
  );
}

abbrev two_entries : List WalEntry
two_entries = one_put ∷ two_ops ∷ []

two_entries_fit : All FitsEntry two_entries
two_entries_fit = (one_put_fits, (two_ops_fit, tt))

one_put_size : length (encode_entry toy_crc one_put) ≡ 32
unfolding encode_entry encode_record record_body to_be
one_put_size = refl

roll_full : should_roll (64 * 1024 * 1024) 1 ≡ true
unfolding should_roll
roll_full = refl

roll_empty : should_roll 0 (65 * 1024 * 1024) ≡ false
unfolding should_roll
roll_empty = refl

replay_segment_body-log_bytes_example :
    replay_segment_body toy_crc (log_bytes toy_crc two_entries) ≡ (two_entries, clean)
replay_segment_body-log_bytes_example =
    replay_segment_body-log_bytes toy_crc toy_crc_lt two_entries two_entries_fit

replay_segment_body-torn_example :
    replay_segment_body toy_crc
      (log_bytes toy_crc two_entries ++ take 20 (encode_entry toy_crc one_put))
    ≡ (two_entries, torn_tail)
replay_segment_body-torn_example =
    replay_segment_body-torn toy_crc toy_crc_lt two_entries one_put 20 two_entries_fit one_put_fits
      (omega arith) (omega (arith, one_put_size))

damaged_end_small :
    length (log_bytes toy_crc two_entries ++ (entry_body one_put ++ (to_be 4 99 ++ []))) < 2 ^ 64
unfolding log_bytes entry_body encode_entry encode_record encode_batch record_body batch_body
    ops_bytes op_bytes to_be
damaged_end_small = omega arith

wrong_crc : (99 == toy_crc (entry_body one_put)) ≡ false
unfolding entry_body record_body to_be
wrong_crc = refl

replay_segment_body-damaged_end_example :
    replay_segment_body toy_crc
      (log_bytes toy_crc two_entries ++ (entry_body one_put ++ (to_be 4 99 ++ [])))
    ≡ (two_entries, torn_tail)
replay_segment_body-damaged_end_example =
    replay_segment_body-damaged_end toy_crc toy_crc_lt two_entries one_put 99 two_entries_fit
      one_put_fits (omega arith) wrong_crc damaged_end_small

damaged_middle_small :
    length (
      log_bytes toy_crc two_entries
      ++ (entry_body one_put ++ (to_be 4 99 ++ (encode_entry toy_crc two_ops ++ (4 ∷ [])))))
    < 2 ^ 64
unfolding log_bytes entry_body encode_entry encode_record encode_batch record_body batch_body
    ops_bytes op_bytes to_be
damaged_middle_small = omega arith

replay_segment_body-damaged_middle_example :
    replay_segment_body toy_crc (
      log_bytes toy_crc two_entries
      ++ (entry_body one_put ++ (to_be 4 99 ++ (encode_entry toy_crc two_ops ++ (4 ∷ [])))))
    ≡ (two_entries, corruption)
replay_segment_body-damaged_middle_example =
    replay_segment_body-damaged_middle toy_crc toy_crc_lt two_entries one_put 99 two_ops (4 ∷ [])
      two_entries_fit one_put_fits two_ops_fit (omega arith) wrong_crc damaged_middle_small

replay_segment_body_fuel_example :
    replay_from toy_crc (length {A = ℕ} (1 ∷ 2 ∷ []) + 7) (1 ∷ 2 ∷ []) 0
    ≡ replay_segment_body toy_crc (1 ∷ 2 ∷ [])
replay_segment_body_fuel_example = replay_segment_body_fuel toy_crc 7 (1 ∷ 2 ∷ [])
