-- ===== src/Wal/Torn.antt =====
-- The decoder of the log on an entry that was cut off, as a crash during an append leaves it.
use zydecodb.Prelude.{
  ℕ, zero, suc, ◌+◌, ◌-◌, ◌<◌, ◌≤◌, ◌≡◌, refl, ap, ◌∙◌, true, none, List, [], ◌∷◌, ◌++◌,
  append_assoc, length, length-append, lt→ltb, ltb-false, take, drop, length-take, All, arith,
  String, inl, inr, lt_or_le,
}
use zydecodb.Prelude.Bytes.{Bytes, from_be}
use zydecodb.Prelude.Slices.{slice, byte_at}
use zydecodb.Prelude.Cursor.{slice-take, drop-take, byte_at-drop}
use zydecodb.Errors.{ok}
use zydecodb.Wal.{
  WalRecord, WalOp, WalBatch, WalEntry, single, batch, record_body, op_bytes, ops_bytes, batch_body,
  encode_record, encode_batch, encode_entry,
}
use zydecodb.Wal.Decode.{
  decode_ops, op_at, op_end, is_op_command, prepend_op, OpsDecoded, checked, decode_single,
  finish_batch, decode_batch, decode_one,
}
use zydecodb.Wal.Layout.{
  FitsRecord, FitsOp, FitsBatch, FitsEntry, op_frame, op_bytes-append, record_frame,
  record_body-append,
}
use zydecodb.Wal.Ops.{decode_ops-suc, decode_ops-ops_bytes, op_end_read, after_op}
use zydecodb.Wal.Fields.{
  batch_frame, batch_body-append, length-batch_body, after_count, count_read, body_end_read,
}
use zydecodb.Wal.Codec.{decode_one_op, entry_body, length-encode_entry}

take_later :
    (n : ℕ) (xs ys : Bytes) → length xs ≤ n → take n (xs ++ ys) ≡ xs ++ take (n - length xs) ys
take_later n [] ys h = ap (λ (k : ℕ). take k ys) {x = n} {y = n - 0} (omega arith)
take_later zero (x ∷ xs) ys h = absurd (omega arith)
take_later (suc n) (x ∷ xs) ys h =
    ap (λ (l : Bytes). x ∷ l)
      (take_later n xs ys (omega arith)
        ∙ ap (λ (k : ℕ). xs ++ take k ys) {x = n - length xs} {y = suc n - suc (length xs)}
            (omega arith))

byte_at-take : (i n : ℕ) (buf : Bytes) → i < n → byte_at i (take n buf) ≡ byte_at i buf
byte_at-take i zero buf h = absurd (omega arith)
byte_at-take i (suc n) [] h = refl
byte_at-take zero (suc n) (x ∷ buf) h = refl
byte_at-take (suc i) (suc n) (x ∷ buf) h = byte_at-take i n buf (omega arith)

-- The fields of an operation whose fixed part stands before the cut.
op_end-take :
    (n offset : ℕ) (buf : Bytes) → offset + 17 ≤ n → op_end (take n buf) offset ≡ op_end buf offset
op_end-take n offset buf h = omega (
  arith,
  ap from_be (slice-take (offset + 9) (offset + 13) n buf (omega arith) (omega arith)),
  ap from_be (slice-take (offset + 13) (offset + 17) n buf (omega arith) (omega arith)),
)

short_fixed :
    (n : ℕ) (buf : Bytes) (offset : ℕ)
    → length buf < offset + 17
    → decode_ops (suc n) buf offset ≡ ok none
unfolding decode_ops
short_fixed n buf offset h = rw (lt→ltb (length buf) (offset + 17) h)

short_op :
    (n : ℕ) (buf : Bytes) (offset : ℕ)
    → offset + 17 ≤ length buf
    → length buf < op_end buf offset
    → decode_ops (suc n) buf offset ≡ ok none
unfolding decode_ops
short_op n buf offset h k =
    rw (ltb-false (length buf) (offset + 17) h) (rw (lt→ltb (length buf) (op_end buf offset) k))

-- A cut among the operations.
decode_ops_torn :
    (ops : List WalOp) (buf tail : Bytes) (offset n : ℕ)
    → All FitsOp ops
    → offset ≤ n
    → n < length buf
    → drop offset buf ≡ ops_bytes ops ++ tail
    → n < offset + length (ops_bytes ops)
    → decode_ops (length ops) (take n buf) offset ≡ ok none
unfolding ops_bytes
decode_ops_torn [] buf tail offset n f within whole h cut = absurd (omega arith)
decode_ops_torn (op ∷ ops) buf tail offset n f within whole h cut =
    let rest = ops_bytes ops ++ tail in
    let here : drop offset buf ≡ op_frame op rest =
      h ∙ append_assoc (op_bytes op) (ops_bytes ops) tail ∙ op_bytes-append op rest in
    let width : length (take n buf) ≡ n = omega (arith, length-take n buf) in
    let end = op_end_read op f.0 buf rest offset here in
    elim (lt_or_le n (offset + 17))
      as (λ _. decode_ops (suc (length ops)) (take n buf) offset ≡ ok none) [
        | inl short ↦ short_fixed (length ops) (take n buf) offset (omega arith)
        | inr fixed ↦
            let same = op_end-take n offset buf fixed in
            elim (lt_or_le n (offset + length (op_bytes op)))
              as (λ _. decode_ops (suc (length ops)) (take n buf) offset ≡ ok none) [
                | inl short ↦ short_op (length ops) (take n buf) offset (omega arith) (omega arith)
                | inr whole_op ↦
                    let command : is_op_command (byte_at offset (take n buf)) ≡ true =
                      ap (λ (c : ℕ). is_op_command c)
                        (byte_at-take offset n buf (omega arith)
                          ∙ byte_at-drop offset buf op.command _ here)
                      ∙ f.0.command in
                    let ih =
                      decode_ops_torn ops buf tail (offset + length (op_bytes op)) n f.1 whole_op
                        whole (after_op op f.0 buf rest offset here)
                        (omega (arith, length-append (op_bytes op) (ops_bytes ops))) in
                    decode_ops-suc (length ops) (take n buf) offset (omega arith) (omega arith)
                      command
                    ∙ ap (λ (r : OpsDecoded). prepend_op (op_at (take n buf) offset) r)
                        (ap (λ (k : ℕ). decode_ops (length ops) (take n buf) k) (same ∙ end) ∙ ih)
              ]
      ]

module _ (crc32 : Bytes → ℕ) where
  checked_short :
      (buf : Bytes) (end : ℕ) (entry : WalEntry) (message : String)
      → length buf < end + 4
      → checked crc32 buf end entry message ≡ ok none
  checked_short buf end entry message h = rw (lt→ltb (length buf) (end + 4) h)

  decode_single_torn :
      (r : WalRecord) (tail buf : Bytes) (n : ℕ)
      → FitsRecord r
      → buf ≡ record_body r ++ tail
      → n < length buf
      → n < length (record_body r) + 4
      → decode_single crc32 (take n buf) ≡ ok none
  unfolding decode_single
  decode_single_torn r tail buf n f h within cut =
      let here : buf ≡ record_frame r tail = h ∙ record_body-append r tail in
      let width : length (take n buf) ≡ n = omega (arith, length-take n buf) in
      let end = body_end_read r f buf tail here in
      elim (lt_or_le n 29) as (λ _. decode_single crc32 (take n buf) ≡ ok none) [
        | inl short ↦ rw (lt→ltb (length (take n buf)) 29 (omega arith))
        | inr fixed ↦ rw (ltb-false (length (take n buf)) 29 (omega arith)) (
            checked_short (take n buf)
              (25 + from_be (slice 17 21 (take n buf)) + from_be (slice 21 25 (take n buf))) _ _
              (omega (
                arith,
                ap from_be (slice-take 17 21 n buf (omega arith) (omega arith)),
                ap from_be (slice-take 21 25 n buf (omega arith) (omega arith)),
              )))
      ]

  decode_batch_torn :
      (b : WalBatch) (tail buf : Bytes) (n : ℕ)
      → FitsBatch b
      → buf ≡ batch_body b ++ tail
      → n < length buf
      → n < length (batch_body b) + 4
      → decode_batch crc32 (take n buf) ≡ ok none
  unfolding decode_batch
  decode_batch_torn b tail buf n f h within cut =
      let here : buf ≡ batch_frame b tail = h ∙ batch_body-append b tail in
      let width : length (take n buf) ≡ n = omega (arith, length-take n buf) in
      let size = length-batch_body b in
      let ops = after_count b f buf tail here in
      elim (lt_or_le n 13) as (λ _. decode_batch crc32 (take n buf) ≡ ok none) [
        | inl short ↦ rw (lt→ltb (length (take n buf)) 13 (omega arith))
        | inr header ↦
            let count : from_be (slice 9 13 (take n buf)) ≡ length b.ops =
              ap from_be (slice-take 9 13 n buf (omega arith) header)
              ∙ count_read b f buf tail here in
            rw (ltb-false (length (take n buf)) 13 (omega arith)) (
              rw count
                (elim (lt_or_le n (13 + length (ops_bytes b.ops)))
                  as (λ _.
                    finish_batch crc32 (take n buf) (decode_ops (length b.ops) (take n buf) 13)
                    ≡ ok none) [
                      | inl short ↦
                          ap (finish_batch crc32 (take n buf))
                            (decode_ops_torn b.ops buf tail 13 n f.ops header within ops short)
                      | inr whole ↦
                          ap (finish_batch crc32 (take n buf)) (
                            decode_ops-ops_bytes b.ops (take n buf)
                              (take (n - 13 - length (ops_bytes b.ops)) tail) 13 f.ops (omega arith)
                              (drop-take 13 n buf
                                ∙ ap (take (n - 13)) ops
                                ∙ take_later (n - 13) (ops_bytes b.ops) tail (omega arith)))
                          ∙ checked_short (take n buf) (13 + length (ops_bytes b.ops)) _ _
                              (omega arith)
                    ]))
      ]

  -- Decoding an entry that is cut off before its end asks for more bytes, and never fails or
  -- returns an entry, wherever the cut is.
  pub decode_one-take :
      (e : WalEntry) (n : ℕ)
      → FitsEntry e
      → n < length (encode_entry crc32 e)
      → decode_one crc32 (take n (encode_entry crc32 e)) ≡ ok none
  unfolding decode_one encode_entry encode_record encode_batch record_body batch_body entry_body
  decode_one-take e zero f h = refl
  decode_one-take (single r) (suc n) f h =
      decode_one_op crc32 r.command _ f.command
      ∙ decode_single_torn r _ (encode_record crc32 r) (suc n) f refl h
          (omega (arith, length-encode_entry crc32 (single r)))
  decode_one-take (batch b) (suc n) f h =
      decode_batch_torn b _ (encode_batch crc32 b) (suc n) f refl h
        (omega (arith, length-encode_entry crc32 (batch b)))
