-- ===== src/Wal/Decode.antt =====
-- The decoder of the log: `decode_one` and the two functions that it dispatches to.
use zydecodb.Prelude.{
  ℕ, zero, suc, ◌+◌, Bool, Option, none, some, List, [], ◌∷◌, length, ltb, ◌==◌, ◌||◌, not, take,
  String, if◌then◌else◌,
}
use zydecodb.Prelude.Bytes.{Bytes, from_be}
use zydecodb.Prelude.Slices.{slice, byte_at}
use zydecodb.Errors.{EngineResult, ok, err, io}
use zydecodb.Wal.{
  WalOp, WalEntry, single, batch, wal_put, wal_del, wal_batch, entry_fixed, batch_header,
  batch_op_fixed,
}

-- What a decoder returns: `Ok(None)` asks for more bytes.
abbrev pub Decoded : Type 0
Decoded = EngineResult (Option (WalEntry × ℕ))

abbrev pub OpsDecoded : Type 0
OpsDecoded = EngineResult (Option (List WalOp × ℕ))

-- `ops.push(op)`, in front of what the later rounds push; a `return` of theirs stands.
abbrev pub prepend_op : WalOp → OpsDecoded → OpsDecoded
prepend_op op (ok (some (ops, offset))) = ok (some (op ∷ ops, offset))
prepend_op op (ok none) = ok none
prepend_op op (err e) = err e

-- The fields of the operation at `offset`.
abbrev pub op_key_len : Bytes → ℕ → ℕ
op_key_len buf offset = from_be (slice (offset + 9) (offset + 13) buf)

abbrev pub op_value_len : Bytes → ℕ → ℕ
op_value_len buf offset = from_be (slice (offset + 13) (offset + 17) buf)

abbrev pub op_end : Bytes → ℕ → ℕ
op_end buf offset = offset + batch_op_fixed + op_key_len buf offset + op_value_len buf offset

abbrev pub op_at : Bytes → ℕ → WalOp
op_at buf offset =
    let key_end = offset + batch_op_fixed + op_key_len buf offset in
    record {
      command = byte_at offset buf;
      expires_at = from_be (slice (offset + 1) (offset + 9) buf);
      key = slice (offset + batch_op_fixed) key_end buf;
      value = slice key_end (op_end buf offset) buf;
    }

abbrev pub is_op_command : ℕ → Bool
is_op_command c = c == wal_put || c == wal_del

-- The loop of `decode_batch`: the operations, and the offset behind them.
unfoldable pub decode_ops : ℕ → Bytes → ℕ → OpsDecoded
decode_ops zero buf offset = ok (some ([], offset))
decode_ops (suc count) buf offset =
    let rest = decode_ops count buf (op_end buf offset) in
    if ltb (length buf) (offset + batch_op_fixed)
    then ok none
    else if ltb (length buf) (op_end buf offset)
    then ok none
    else if not (is_op_command (byte_at offset buf))
    then err (io "WAL: bad batch op command byte")
    else prepend_op (op_at buf offset) rest

module _ (crc32 : Bytes → ℕ) where
  -- The check of the CRC that is stored at `body_end`, behind the bytes that it covers.
  abbrev pub checked : Bytes → ℕ → WalEntry → String → Decoded
  checked buf body_end entry message =
      if ltb (length buf) (body_end + 4)
      then ok none
      else if not (from_be (slice body_end (body_end + 4) buf) == crc32 (take body_end buf))
      then err (io message)
      else ok (some (entry, body_end + 4))

  -- `decode_single`.
  unfoldable pub decode_single : Bytes → Decoded
  decode_single buf =
      let key_len = from_be (slice 17 21 buf) in
      let value_len = from_be (slice 21 25 buf) in
      let key_end = entry_fixed + key_len in
      let body_end = entry_fixed + key_len + value_len in
      if ltb (length buf) (entry_fixed + 4)
      then ok none
      else checked buf body_end
          (single (record {
            command = byte_at 0 buf;
            seq = from_be (slice 1 9 buf);
            expires_at = from_be (slice 9 17 buf);
            key = slice entry_fixed key_end buf;
            value = slice key_end body_end buf;
          }))
          "WAL: CRC mismatch (torn write)"

  -- The end of `decode_batch`, behind its loop.
  abbrev pub finish_batch : Bytes → OpsDecoded → Decoded
  finish_batch buf (ok (some (ops, offset))) =
      checked buf offset (batch (record { seq = from_be (slice 1 9 buf); ops = ops }))
        "WAL: batch CRC mismatch (torn write)"
  finish_batch buf (ok none) = ok none
  finish_batch buf (err e) = err e

  -- `decode_batch`.
  unfoldable pub decode_batch : Bytes → Decoded
  unfolding decode_ops
  decode_batch buf =
      if ltb (length buf) batch_header
      then ok none
      else finish_batch buf (decode_ops (from_be (slice 9 13 buf)) buf batch_header)

  -- `WalRecord::decode_one`.
  unfoldable pub decode_one : Bytes → Decoded
  unfolding decode_single decode_batch
  decode_one [] = ok none
  decode_one (c ∷ rest) =
      if c == wal_batch
      then decode_batch (c ∷ rest)
      else if c == wal_put || c == wal_del
      then decode_single (c ∷ rest)
      else err (io "WAL: bad command byte")
