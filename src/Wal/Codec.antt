-- ===== src/Wal/Codec.antt =====
-- The decoder of the log on the bytes of an entry.
use zydecodb.Prelude.{
  ℕ, ◌+◌, ◌^◌, ◌<◌, ◌≡◌, refl, sym, ap, ap₂, ◌∙◌, true, false, some, ◌∷◌, ◌++◌, append_assoc,
  length, length-append, ltb-false, take, drop, take-append, arith, ◌==◌, ==_refl, String, not,
  if◌then◌else◌,
}
use zydecodb.Prelude.Bytes.{Bytes, to_be, from_be, length-to_be}
use zydecodb.Prelude.Slices.{slice, drop_first}
use zydecodb.Prelude.Cursor.{read_word}
use zydecodb.Errors.{EngineError, io, ok, err}
use zydecodb.Wal.{
  WalRecord, WalBatch, WalEntry, single, batch, wal_batch, record_body, ops_bytes, batch_body,
  encode_record, encode_batch, encode_entry,
}
use zydecodb.Wal.Decode.{Decoded, is_op_command, checked, decode_single, decode_batch, decode_one}
use zydecodb.Wal.Layout.{
  FitsRecord, FitsBatch, FitsEntry, record_frame, record_body-append, length-record_body,
}
use zydecodb.Wal.Ops.{decode_ops-ops_bytes}
use zydecodb.Wal.Fields.{
  batch_frame, batch_body-append, length-batch_body, after_count, seq_read, count_read, record_read,
  body_end_read,
}

-- The length of a buffer that holds a body, its CRC and more.
pub length-framed :
    (body rest buf : Bytes) (crc : ℕ)
    → buf ≡ body ++ (to_be 4 crc ++ rest)
    → length buf ≡ length body + 4 + length rest
length-framed body rest buf crc h = omega (
  arith,
  ap (λ (l : Bytes). length l) h,
  length-append body (to_be 4 crc ++ rest),
  length-append (to_be 4 crc) rest,
  length-to_be 4 crc,
)

not_batch : (c : ℕ) → is_op_command c ≡ true → (c == wal_batch) ≡ false
not_batch c h = ground (arith, h)

pub length-encode : (body : Bytes) (crc : ℕ) → length (body ++ to_be 4 crc) ≡ length body + 4
length-encode body crc = omega (arith, length-append body (to_be 4 crc), length-to_be 4 crc)

-- What an encoder writes before the CRC.
unfoldable pub entry_body : WalEntry → Bytes
unfolding record_body batch_body
entry_body (single r) = record_body r
entry_body (batch b) = batch_body b

pub mismatch : WalEntry → EngineError
mismatch (single r) = io "WAL: CRC mismatch (torn write)"
mismatch (batch b) = io "WAL: batch CRC mismatch (torn write)"

module _ (crc32 : Bytes → ℕ) where
  pub encode_entry_framed :
      (e : WalEntry) → encode_entry crc32 e ≡ entry_body e ++ to_be 4 (crc32 (entry_body e))
  unfolding encode_entry encode_record encode_batch entry_body
  encode_entry_framed (single r) = refl
  encode_entry_framed (batch b) = refl

  -- What a decoder says of an entry by the CRC that is stored with it.
  abbrev pub verdict : WalEntry → Bytes → ℕ → EngineError → Decoded
  verdict entry body crc e =
      if not (crc == crc32 body) then err e else ok (some (entry, length body + 4))

  checked-framed :
      (body rest buf : Bytes) (crc end : ℕ) (entry : WalEntry) (message : String)
      → crc < 2 ^ 32
      → end ≡ length body
      → buf ≡ body ++ (to_be 4 crc ++ rest)
      → checked crc32 buf end entry message ≡ verdict entry body crc (io message)
  checked-framed body rest buf crc end entry message fits e h =
      let size = length-framed body rest buf crc h in
      let stored : from_be (slice end (end + 4) buf) ≡ crc =
        read_word buf end (end + 4) 4 crc rest fits refl
          (ap (λ (l : Bytes). drop end l) h ∙ drop_first body (to_be 4 crc ++ rest) (sym e)) in
      let covered : take end buf ≡ body =
        ap₂ (λ (n : ℕ) (l : Bytes). take n l) e h ∙ take-append body (to_be 4 crc ++ rest) in
      rw (ltb-false (length buf) (end + 4) (omega arith)) (
        rw stored (
          rw covered (
            ap
              (λ (n : ℕ).
                if not (crc == crc32 body) then err (io message) else ok (some (entry, n + 4)))
              e)))

  decode_single-framed :
      (r : WalRecord) (crc : ℕ) (rest buf : Bytes)
      → FitsRecord r
      → crc < 2 ^ 32
      → buf ≡ record_body r ++ (to_be 4 crc ++ rest)
      → decode_single crc32 buf ≡ verdict (single r) (record_body r) crc (mismatch (single r))
  unfolding decode_single mismatch
  decode_single-framed r crc rest buf f fits h =
      let tail = to_be 4 crc ++ rest in
      let here : buf ≡ record_frame r tail = h ∙ record_body-append r tail in
      let size = length-framed (record_body r) rest buf crc h in
      rw (ltb-false (length buf) 29 (omega (arith, length-record_body r))) (
        rw (record_read r f buf tail here) (
          checked-framed (record_body r) rest buf crc
            (25 + from_be (slice 17 21 buf) + from_be (slice 21 25 buf)) (single r) _ fits
            (body_end_read r f buf tail here) h))

  decode_batch-framed :
      (b : WalBatch) (crc : ℕ) (rest buf : Bytes)
      → FitsBatch b
      → crc < 2 ^ 32
      → buf ≡ batch_body b ++ (to_be 4 crc ++ rest)
      → decode_batch crc32 buf ≡ verdict (batch b) (batch_body b) crc (mismatch (batch b))
  unfolding decode_batch mismatch
  decode_batch-framed b crc rest buf f fits h =
      let tail = to_be 4 crc ++ rest in
      let here : buf ≡ batch_frame b tail = h ∙ batch_body-append b tail in
      let size = length-framed (batch_body b) rest buf crc h in
      let measured = length-batch_body b in
      rw (ltb-false (length buf) 13 (omega arith)) (
        rw (count_read b f buf tail here) (
          rw
            (decode_ops-ops_bytes b.ops buf tail 13 f.ops (omega arith)
              (after_count b f buf tail here))
            (rw (seq_read b f buf tail here) (
              checked-framed (batch_body b) rest buf crc (13 + length (ops_bytes b.ops)) (batch b) _
                fits (omega arith) h))))

  -- `decode_one` goes by the command.
  pub decode_one_op :
      (c : ℕ) (rest : Bytes)
      → is_op_command c ≡ true
      → decode_one crc32 (c ∷ rest) ≡ decode_single crc32 (c ∷ rest)
  unfolding decode_one
  decode_one_op c rest h = rw (not_batch c h) (rw h)

  -- `decode_one` on the body of an entry, a CRC and more.
  pub decode_one-framed :
      (e : WalEntry) (crc : ℕ) (rest : Bytes)
      → FitsEntry e
      → crc < 2 ^ 32
      → decode_one crc32 (entry_body e ++ (to_be 4 crc ++ rest))
        ≡ verdict e (entry_body e) crc (mismatch e)
  unfolding decode_one entry_body
  decode_one-framed (single r) crc rest f fits =
      decode_one_op r.command _ f.command
      ∙ decode_single-framed r crc rest (record_body r ++ (to_be 4 crc ++ rest)) f fits refl
  decode_one-framed (batch b) crc rest f fits =
      decode_batch-framed b crc rest (batch_body b ++ (to_be 4 crc ++ rest)) f fits refl

  -- An entry whose stored CRC is another one is refused.
  pub decode_one_damaged :
      (e : WalEntry) (crc : ℕ) (rest : Bytes)
      → FitsEntry e
      → crc < 2 ^ 32
      → (crc == crc32 (entry_body e)) ≡ false
      → decode_one crc32 (entry_body e ++ (to_be 4 crc ++ rest)) ≡ err (mismatch e)
  decode_one_damaged e crc rest f fits h = decode_one-framed e crc rest f fits ∙ rw h refl

  pub length-encode_entry :
      (e : WalEntry) → length (encode_entry crc32 e) ≡ length (entry_body e) + 4
  length-encode_entry e =
      ap (λ (l : Bytes). length l) (encode_entry_framed e)
      ∙ length-encode (entry_body e) (crc32 (entry_body e))

  -- Decoding the bytes of an entry, whatever follows them, gives the entry back and the number of
  -- its bytes, if its fields fit their types and the CRC has 32 bits.
  pub decode_one-encode_entry :
      (crc32_lt : (b : Bytes) → crc32 b < 2 ^ 32) (e : WalEntry) (rest : Bytes)
      → FitsEntry e
      → decode_one crc32 (encode_entry crc32 e ++ rest)
        ≡ ok (some (e, length (encode_entry crc32 e)))
  decode_one-encode_entry crc32_lt e rest f =
      let body = entry_body e in
      let crc = crc32 body in
      ap (λ (l : Bytes). decode_one crc32 l)
        (ap (λ (l : Bytes). l ++ rest) (encode_entry_framed e)
          ∙ append_assoc body (to_be 4 crc) rest)
      ∙ decode_one-framed e crc rest f (crc32_lt body)
      ∙ rw (==_refl crc) (ap (λ (n : ℕ). ok (some (e, n))) (sym (length-encode_entry e)))
