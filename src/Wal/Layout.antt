-- ===== src/Wal/Layout.antt =====
-- What the fields of log records must fit, and their bytes with those that follow.
use zydecodb.Prelude.{
  ◌+◌, ◌^◌, ◌<◌, ◌≡◌, true, ◌∷◌, ◌++◌, append_assoc, length, length-append, All, arith,
}
use zydecodb.Prelude.Bytes.{Bytes, to_be, length-to_be}
use zydecodb.Wal.{WalRecord, WalOp, WalBatch, WalEntry, single, batch, record_body, op_bytes}
use zydecodb.Wal.Decode.{is_op_command}

-- What the Rust types of the fields and the casts of the lengths ask.
pub record FitsRecord (r : WalRecord) : Type 0 where
  pub command : is_op_command r.command ≡ true
  pub seq : r.seq < 2 ^ 64
  pub expires_at : r.expires_at < 2 ^ 64
  pub key_len : length r.key < 2 ^ 32
  pub value_len : length r.value < 2 ^ 32

pub record FitsOp (op : WalOp) : Type 0 where
  pub command : is_op_command op.command ≡ true
  pub expires_at : op.expires_at < 2 ^ 64
  pub key_len : length op.key < 2 ^ 32
  pub value_len : length op.value < 2 ^ 32

pub record FitsBatch (b : WalBatch) : Type 0 where
  pub seq : b.seq < 2 ^ 64
  pub count : length b.ops < 2 ^ 32
  pub ops : All FitsOp b.ops

abbrev pub FitsEntry : WalEntry → Type 0
FitsEntry (single r) = FitsRecord r
FitsEntry (batch b) = FitsBatch b

-- The bytes of a record and of an operation in front of others, bracketed to the right.
abbrev pub op_frame : WalOp → Bytes → Bytes
op_frame op tail =
    op.command
    ∷ (to_be 8 op.expires_at
        ++ (to_be 4 (length op.key)
            ++ (to_be 4 (length op.value) ++ (op.key ++ (op.value ++ tail)))))

pub op_bytes-append : (op : WalOp) (tail : Bytes) → op_bytes op ++ tail ≡ op_frame op tail
unfolding op_bytes
op_bytes-append op tail = simp append_assoc

abbrev pub record_frame : WalRecord → Bytes → Bytes
record_frame r tail =
    r.command
    ∷ (to_be 8 r.seq
        ++ (to_be 8 r.expires_at
            ++ (to_be 4 (length r.key)
                ++ (to_be 4 (length r.value) ++ (r.key ++ (r.value ++ tail))))))

pub record_body-append :
    (r : WalRecord) (tail : Bytes) → record_body r ++ tail ≡ record_frame r tail
unfolding record_body
record_body-append r tail = simp append_assoc

pub length-op_bytes : (op : WalOp) → length (op_bytes op) ≡ 17 + length op.key + length op.value
unfolding op_bytes
length-op_bytes op = omega (
  arith,
  length-append (to_be 8 op.expires_at)
      (to_be 4 (length op.key) ++ (to_be 4 (length op.value) ++ (op.key ++ op.value))),
  length-append (to_be 4 (length op.key)) (to_be 4 (length op.value) ++ (op.key ++ op.value)),
  length-append (to_be 4 (length op.value)) (op.key ++ op.value),
  length-append op.key op.value,
  length-to_be 8 op.expires_at,
  length-to_be 4 (length op.key),
  length-to_be 4 (length op.value),
)

pub length-record_body :
    (r : WalRecord) → length (record_body r) ≡ 25 + length r.key + length r.value
unfolding record_body
length-record_body r = omega (
  arith,
  length-append (to_be 8 r.seq) (
      to_be 8 r.expires_at
      ++ (to_be 4 (length r.key) ++ (to_be 4 (length r.value) ++ (r.key ++ r.value)))),
  length-append (to_be 8 r.expires_at)
      (to_be 4 (length r.key) ++ (to_be 4 (length r.value) ++ (r.key ++ r.value))),
  length-append (to_be 4 (length r.key)) (to_be 4 (length r.value) ++ (r.key ++ r.value)),
  length-append (to_be 4 (length r.value)) (r.key ++ r.value),
  length-append r.key r.value,
  length-to_be 8 r.seq,
  length-to_be 8 r.expires_at,
  length-to_be 4 (length r.key),
  length-to_be 4 (length r.value),
)
