-- ===== src/Wal/Damage.antt =====
-- `has_valid_record_after`: a log with an entry whose stored CRC is wrong.
use zydecodb.Prelude.{
  ℕ, ◌+◌, ◌^◌, ◌<◌, ◌≤◌, ◌≡◌, refl, ap, ◌∙◌, true, false, some, List, [], ◌∷◌, ◌++◌, append_assoc,
  length, length-append, lt→ltb, ltb-false, drop, drop-append, All, arith, ◌==◌, if◌then◌else◌,
}
use zydecodb.Prelude.Bytes.{Bytes, to_be, length-to_be}
use zydecodb.Prelude.Cursor.{step_over}
use zydecodb.Wal.{
  WalOp, WalRecord, WalBatch, WalEntry, single, batch, encode_entry, op_bytes, ops_bytes,
  record_body, batch_body,
}
use zydecodb.Wal.Decode.{decode_one, is_op_command}
use zydecodb.Wal.Layout.{
  FitsEntry, FitsOp, FitsRecord, FitsBatch, op_frame, op_bytes-append, length-op_bytes,
  record_frame, record_body-append, length-record_body,
}
use zydecodb.Wal.Ops.{key_len_read, value_len_read, after_op, in_range}
use zydecodb.Wal.Fields as Fields
use zydecodb.Wal.Codec.{
  entry_body, length-framed, length-encode_entry, decode_one-encode_entry, decode_one_damaged,
  mismatch,
}
use zydecodb.Wal.Fields.{batch_frame, batch_body-append, length-batch_body, count_read, after_count}
use zydecodb.Wal.Replay.{
  ReplayOutcome, torn_tail, corruption, frame_len, frame_ops, frame_record, frame_batch,
  checked_add, has_valid_record_after, intact_at, replay_segment_body,
}
use zydecodb.Wal.Recovery.{log_bytes, replay_stops, stops_at, round_damaged}

checked_add_small : (a b : ℕ) → a + b < 2 ^ 64 → checked_add a b ≡ some (a + b)
checked_add_small a b h = rw (lt→ltb (a + b) (2 ^ 64) h)

-- The frames of the operations of a batch are stepped over.
frame_ops-ops_bytes :
    (ops : List WalOp) (buf tail : Bytes) (offset : ℕ)
    → All FitsOp ops
    → offset ≤ length buf
    → length buf < 2 ^ 64
    → drop offset buf ≡ ops_bytes ops ++ tail
    → frame_ops (length ops) buf offset ≡ some (offset + length (ops_bytes ops))
unfolding frame_ops ops_bytes
frame_ops-ops_bytes [] buf tail offset f within small h = ap (λ (n : ℕ). some n) (omega arith)
frame_ops-ops_bytes (op ∷ ops) buf tail offset f within small h =
    let rest = ops_bytes ops ++ tail in
    let here : drop offset buf ≡ op_frame op rest =
      h ∙ append_assoc (op_bytes op) (ops_bytes ops) tail ∙ op_bytes-append op rest in
    let size = length-op_bytes op in
    let fits = in_range op f.0 buf rest offset here within in
    let ih =
      frame_ops-ops_bytes ops buf tail (offset + length (op_bytes op)) f.1 (omega arith) small
        (after_op op f.0 buf rest offset here) in
    rw (checked_add_small offset 17 (omega arith)) (
      rw (ltb-false (length buf) (offset + 17) (omega arith)) (
        rw (key_len_read op f.0 buf rest offset here) (
          rw (checked_add_small (offset + 17) (length op.key) (omega arith)) (
            rw (value_len_read op f.0 buf rest offset here) (
              rw (checked_add_small (offset + 17 + length op.key) (length op.value) (omega arith)) (
                ap (λ (n : ℕ). frame_ops (length ops) buf n)
                  {x = offset + 17 + length op.key + length op.value}
                  {y = offset + length (op_bytes op)} (omega arith)
                ∙ ih
                ∙ ap (λ (n : ℕ). some n)
                    {x = offset + length (op_bytes op) + length (ops_bytes ops)}
                    {y = offset + length (op_bytes op ++ ops_bytes ops)}
                    (omega (arith, length-append (op_bytes op) (ops_bytes ops)))))))))

frame_record-record_body :
    (r : WalRecord) (crc : ℕ) (rest buf : Bytes)
    → FitsRecord r
    → length buf < 2 ^ 64
    → buf ≡ record_body r ++ (to_be 4 crc ++ rest)
    → frame_record buf ≡ some (length (record_body r) + 4)
frame_record-record_body r crc rest buf f small h =
    let tail = to_be 4 crc ++ rest in
    let here : buf ≡ record_frame r tail = h ∙ record_body-append r tail in
    let framed = length-framed (record_body r) rest buf crc h in
    let size = length-record_body r in
    rw (ltb-false (length buf) 25 (omega arith)) (
      rw (Fields.key_len_read r f buf tail here) (
        rw (checked_add_small 25 (length r.key) (omega arith)) (
          rw (Fields.value_len_read r f buf tail here) (
            rw (checked_add_small (25 + length r.key) (length r.value) (omega arith)) (
              rw (checked_add_small (25 + length r.key + length r.value) 4 (omega arith))
                (ap (λ (n : ℕ). some n) (omega arith)))))))

frame_batch-batch_body :
    (b : WalBatch) (crc : ℕ) (rest buf : Bytes)
    → FitsBatch b
    → length buf < 2 ^ 64
    → buf ≡ batch_body b ++ (to_be 4 crc ++ rest)
    → frame_batch buf ≡ some (length (batch_body b) + 4)
frame_batch-batch_body b crc rest buf f small h =
    let tail = to_be 4 crc ++ rest in
    let here : buf ≡ batch_frame b tail = h ∙ batch_body-append b tail in
    let framed = length-framed (batch_body b) rest buf crc h in
    let size = length-batch_body b in
    rw (ltb-false (length buf) 13 (omega arith)) (
      rw (count_read b f buf tail here) (
        rw
          (frame_ops-ops_bytes b.ops buf tail 13 f.ops (omega arith) small
            (after_count b f buf tail here))
          (rw (checked_add_small (13 + length (ops_bytes b.ops)) 4 (omega arith))
            (ap (λ (n : ℕ). some n) (omega arith)))))

frame_len_op :
    (c : ℕ) (rest : Bytes) → is_op_command c ≡ true → frame_len (c ∷ rest) ≡ frame_record (c ∷ rest)
unfolding frame_len
frame_len_op c rest h = rw h refl

-- The frame of an entry, whatever its CRC, is stepped over.
frame_len-entry_body :
    (e : WalEntry) (crc : ℕ) (rest : Bytes)
    → FitsEntry e
    → length (entry_body e ++ (to_be 4 crc ++ rest)) < 2 ^ 64
    → frame_len (entry_body e ++ (to_be 4 crc ++ rest)) ≡ some (length (entry_body e) + 4)
unfolding frame_len entry_body
frame_len-entry_body (single r) crc rest f small =
    frame_len_op r.command _ f.command
    ∙ frame_record-record_body r crc rest (record_body r ++ (to_be 4 crc ++ rest)) f small refl
frame_len-entry_body (batch b) crc rest f small =
    frame_batch-batch_body b crc rest (batch_body b ++ (to_be 4 crc ++ rest)) f small refl

module _ (crc32 : Bytes → ℕ) (crc32_lt : (b : Bytes) → crc32 b < 2 ^ 32) where
  -- An entry with another CRC, and what follows.
  module _ (es : List WalEntry) (e : WalEntry) (crc : ℕ) (rest : Bytes) (fs : All FitsEntry es)
      (f : FitsEntry e) (fits : crc < 2 ^ 32) (wrong : (crc == crc32 (entry_body e)) ≡ false)
      (small : length (log_bytes crc32 es ++ (entry_body e ++ (to_be 4 crc ++ rest)))
        < 2 ^ 64) where
    abbrev damaged : Bytes
    damaged = entry_body e ++ (to_be 4 crc ++ rest)

    abbrev body : Bytes
    body = log_bytes crc32 es ++ damaged

    abbrev start : ℕ
    start = length (log_bytes crc32 es)

    size : length body ≡ start + (length (entry_body e) + 4) + length rest
    size = omega (
      arith,
      length-append (log_bytes crc32 es) damaged,
      length-framed (entry_body e) rest damaged crc refl,
    )

    after_damage : drop (start + (length (entry_body e) + 4)) body ≡ rest
    after_damage =
        let there =
          step_over body start (start + length (entry_body e)) (entry_body e) (to_be 4 crc ++ rest)
            refl (drop-append (log_bytes crc32 es) damaged) in
        step_over body (start + length (entry_body e)) (start + (length (entry_body e) + 4))
          (to_be 4 crc) rest (omega (arith, length-to_be 4 crc)) there

    -- The search looks at what follows the frame of the damaged entry.
    has_valid_record_after_damage :
        has_valid_record_after crc32 body start
        ≡ intact_at crc32 body (some (start + (length (entry_body e) + 4)))
    unfolding has_valid_record_after
    has_valid_record_after_damage = rw (drop-append (log_bytes crc32 es) damaged) (
        rw
          (frame_len-entry_body e crc rest f
            (omega (arith, length-append (log_bytes crc32 es) damaged, small)))
          (rw (checked_add_small start (length (entry_body e) + 4) (omega (arith, size, small)))
            refl))

    replay_damaged :
        (o : ReplayOutcome)
        → (if has_valid_record_after crc32 body start then corruption else torn_tail) ≡ o
        → replay_segment_body crc32 body ≡ (es, o)
    replay_damaged o h = replay_stops crc32 crc32_lt es damaged o fs (
        stops_at crc32 crc32_lt es damaged ([], o)
          (omega (arith, length-framed (entry_body e) rest damaged crc refl))
          (λ fuel within.
            round_damaged crc32 fuel body start (mismatch e) within (
              ap (decode_one crc32) (drop-append (log_bytes crc32 es) damaged)
              ∙ decode_one_damaged crc32 e crc rest f fits wrong)
            ∙ ap (λ (x : ReplayOutcome). ([], x)) h))

    pub nothing_follows : rest ≡ [] → replay_segment_body crc32 body ≡ (es, torn_tail)
    nothing_follows h = replay_damaged torn_tail (
        rw has_valid_record_after_damage (
          rw
            (ltb-false (start + (length (entry_body e) + 4)) (length body)
              (omega (arith, size, ap (λ (l : Bytes). length l) h)))
            refl))

    pub intact_follows :
        (d : WalEntry) (more : Bytes)
        → FitsEntry d
        → rest ≡ encode_entry crc32 d ++ more
        → replay_segment_body crc32 body ≡ (es, corruption)
    intact_follows d more fd h = replay_damaged corruption (
        rw has_valid_record_after_damage (
          rw
            (lt→ltb (start + (length (entry_body e) + 4)) (length body) (
              omega (
                arith,
                size,
                ap (λ (l : Bytes). length l) h,
                length-append (encode_entry crc32 d) more,
                length-encode_entry crc32 d,
              )))
            (rw after_damage (rw h (rw (decode_one-encode_entry crc32 crc32_lt d more fd) refl)))))

-- If the last entry of a log was stored with another CRC than that of its bytes, the replay gives
-- exactly the entries before it and reports a torn tail. The fields of the entries fit their
-- types, both CRCs have 32 bits, and the body has less than 2^64 bytes.
pub replay_segment_body-damaged_end :
    (crc32 : Bytes → ℕ)
    → (crc32_lt : (b : Bytes) → crc32 b < 2 ^ 32) → (es : List WalEntry) (e : WalEntry) (crc : ℕ)
    → All FitsEntry es
    → FitsEntry e
    → crc < 2 ^ 32
    → (crc == crc32 (entry_body e)) ≡ false
    → length (log_bytes crc32 es ++ (entry_body e ++ (to_be 4 crc ++ []))) < 2 ^ 64
    → replay_segment_body crc32 (log_bytes crc32 es ++ (entry_body e ++ (to_be 4 crc ++ [])))
      ≡ (es, torn_tail)
replay_segment_body-damaged_end crc32 crc32_lt es e crc fs f fits wrong small =
    nothing_follows crc32 crc32_lt es e crc [] fs f fits wrong small refl

-- If an entry of a log was stored with another CRC than that of its bytes, and the bytes of an
-- entry follow it, the replay gives exactly the entries before it and reports corruption, whatever
-- comes behind. The fields of the entries fit their types, both CRCs have 32 bits, and the body
-- has less than 2^64 bytes.
pub replay_segment_body-damaged_middle :
    (crc32 : Bytes → ℕ)
    → (crc32_lt : (b : Bytes) → crc32 b < 2 ^ 32)
    → (es : List WalEntry) (e : WalEntry) (crc : ℕ) (next : WalEntry) (more : Bytes)
    → All FitsEntry es
    → FitsEntry e
    → FitsEntry next
    → crc < 2 ^ 32
    → (crc == crc32 (entry_body e)) ≡ false
    → length
        (log_bytes crc32 es ++ (entry_body e ++ (to_be 4 crc ++ (encode_entry crc32 next ++ more))))
      < 2 ^ 64
    → replay_segment_body crc32
        (log_bytes crc32 es ++ (entry_body e ++ (to_be 4 crc ++ (encode_entry crc32 next ++ more))))
      ≡ (es, corruption)
replay_segment_body-damaged_middle crc32 crc32_lt es e crc next more fs f fn fits wrong small =
    intact_follows crc32 crc32_lt es e crc (encode_entry crc32 next ++ more) fs f fits wrong small
      next more fn refl
