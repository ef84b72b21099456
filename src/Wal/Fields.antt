-- ===== src/Wal/Fields.antt =====
-- The fields of a record and of a batch at the front of a buffer.
use zydecodb.Prelude.{
  ◌+◌, ◌≡◌, refl, ap, ◌∷◌, ◌++◌, append_assoc, length, length-append, drop, arith,
}
use zydecodb.Prelude.Bytes.{Bytes, to_be, from_be, length-to_be}
use zydecodb.Prelude.Slices.{slice, byte_at}
use zydecodb.Prelude.Cursor.{read_bytes, read_word, step_over}
use zydecodb.Wal.{WalRecord, WalBatch, wal_batch, record_body, ops_bytes, batch_body}
use zydecodb.Wal.Layout.{FitsRecord, FitsBatch, record_frame, length-record_body}

-- A batch at the front of a buffer.
abbrev pub batch_frame : WalBatch → Bytes → Bytes
batch_frame b tail =
    wal_batch ∷ (to_be 8 b.seq ++ (to_be 4 (length b.ops) ++ (ops_bytes b.ops ++ tail)))

pub batch_body-append : (b : WalBatch) (tail : Bytes) → batch_body b ++ tail ≡ batch_frame b tail
unfolding batch_body
batch_body-append b tail = simp append_assoc

pub length-batch_body : (b : WalBatch) → length (batch_body b) ≡ 13 + length (ops_bytes b.ops)
unfolding batch_body
length-batch_body b = omega (
  arith,
  length-append (to_be 8 b.seq) (to_be 4 (length b.ops) ++ ops_bytes b.ops),
  length-append (to_be 4 (length b.ops)) (ops_bytes b.ops),
  length-to_be 8 b.seq,
  length-to_be 4 (length b.ops),
)

module _ (b : WalBatch) (f : FitsBatch b) (buf tail : Bytes) (here : buf ≡ batch_frame b tail) where
  batch_command :
      drop 1 buf ≡ to_be 8 b.seq ++ (to_be 4 (length b.ops) ++ (ops_bytes b.ops ++ tail))
  batch_command = ap (λ (l : Bytes). drop 1 l) here

  batch_seq : drop 9 buf ≡ to_be 4 (length b.ops) ++ (ops_bytes b.ops ++ tail)
  batch_seq =
      step_over buf 1 9 (to_be 8 b.seq) _ (omega (arith, length-to_be 8 b.seq)) batch_command

  pub after_count : drop 13 buf ≡ ops_bytes b.ops ++ tail
  after_count =
      step_over buf 9 13 (to_be 4 (length b.ops)) _ (omega (arith, length-to_be 4 (length b.ops)))
        batch_seq

  pub seq_read : from_be (slice 1 9 buf) ≡ b.seq
  seq_read = read_word buf 1 9 8 b.seq _ f.seq refl batch_command

  pub count_read : from_be (slice 9 13 buf) ≡ length b.ops
  count_read = read_word buf 9 13 4 (length b.ops) _ f.count refl batch_seq

-- A record at the front of a buffer.
module _ (r : WalRecord) (f : FitsRecord r) (buf tail : Bytes)
    (here : buf ≡ record_frame r tail) where
  after_command :
      drop 1 buf
      ≡ to_be 8 r.seq
        ++ (to_be 8 r.expires_at
            ++ (to_be 4 (length r.key)
                ++ (to_be 4 (length r.value) ++ (r.key ++ (r.value ++ tail)))))
  after_command = ap (λ (l : Bytes). drop 1 l) here

  after_seq :
      drop 9 buf
      ≡ to_be 8 r.expires_at
        ++ (to_be 4 (length r.key) ++ (to_be 4 (length r.value) ++ (r.key ++ (r.value ++ tail))))
  after_seq =
      step_over buf 1 9 (to_be 8 r.seq) _ (omega (arith, length-to_be 8 r.seq)) after_command

  after_expires :
      drop 17 buf
      ≡ to_be 4 (length r.key) ++ (to_be 4 (length r.value) ++ (r.key ++ (r.value ++ tail)))
  after_expires =
      step_over buf 9 17 (to_be 8 r.expires_at) _ (omega (arith, length-to_be 8 r.expires_at))
        after_seq

  after_key_len : drop 21 buf ≡ to_be 4 (length r.value) ++ (r.key ++ (r.value ++ tail))
  after_key_len =
      step_over buf 17 21 (to_be 4 (length r.key)) _ (omega (arith, length-to_be 4 (length r.key)))
        after_expires

  after_value_len : drop 25 buf ≡ r.key ++ (r.value ++ tail)
  after_value_len =
      step_over buf 21 25 (to_be 4 (length r.value)) _
        (omega (arith, length-to_be 4 (length r.value))) after_key_len

  after_key : drop (25 + length r.key) buf ≡ r.value ++ tail
  after_key = step_over buf 25 (25 + length r.key) r.key _ refl after_value_len

  pub key_len_read : from_be (slice 17 21 buf) ≡ length r.key
  key_len_read = read_word buf 17 21 4 (length r.key) _ f.key_len refl after_expires

  pub value_len_read : from_be (slice 21 25 buf) ≡ length r.value
  value_len_read = read_word buf 21 25 4 (length r.value) _ f.value_len refl after_key_len

  pub record_read :
      record {
        command = byte_at 0 buf;
        seq = from_be (slice 1 9 buf);
        expires_at = from_be (slice 9 17 buf);
        key = slice 25 (25 + from_be (slice 17 21 buf)) buf;
        value =
            slice
              (25 + from_be (slice 17 21 buf))
              (25 + from_be (slice 17 21 buf) + from_be (slice 21 25 buf))
              buf;
      }
      ≡ r
  record_read = rw key_len_read (
      rw value_len_read (
        rw (ap (λ (l : Bytes). byte_at 0 l) here) (
          rw (read_word buf 1 9 8 r.seq _ f.seq refl after_command) (
            rw (read_word buf 9 17 8 r.expires_at _ f.expires_at refl after_seq) (
              rw
                (read_bytes buf 25 (25 + length r.key) r.key (r.value ++ tail) refl after_value_len)
                (rw (
                  read_bytes buf (25 + length r.key) (25 + length r.key + length r.value) r.value
                    tail refl after_key)))))))

  pub body_end_read :
      25 + from_be (slice 17 21 buf) + from_be (slice 21 25 buf) ≡ length (record_body r)
  body_end_read = omega (arith, key_len_read, value_len_read, length-record_body r)
