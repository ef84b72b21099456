-- ===== src/Wal/Ops.antt =====
-- The loop over the operations of a batch, on the bytes of such operations.
use zydecodb.Prelude.{
  ℕ, suc, ◌+◌, ◌≤◌, ◌≡◌, refl, sym, ap, ap₂, ◌∙◌, true, some, List, [], ◌∷◌, ◌++◌, append_assoc,
  length, length-append, ltb-false, drop, length-drop, All, arith,
}
use zydecodb.Prelude.Bytes.{Bytes, to_be, length-to_be}
use zydecodb.Prelude.Slices.{byte_at}
use zydecodb.Prelude.Cursor.{read_bytes, read_word, step_over, byte_at-drop}
use zydecodb.Errors.{ok}
use zydecodb.Wal.{WalOp, op_bytes, ops_bytes}
use zydecodb.Wal.Decode.{
  decode_ops, op_at, op_end, op_key_len, op_value_len, is_op_command, prepend_op, OpsDecoded,
}
use zydecodb.Wal.Layout.{FitsOp, op_frame, op_bytes-append, length-op_bytes}

-- An operation that stands at `offset`.
module _ (op : WalOp) (f : FitsOp op) (buf tail : Bytes) (offset : ℕ)
    (here : drop offset buf ≡ op_frame op tail) where
  after_command :
      drop (offset + 1) buf
      ≡ to_be 8 op.expires_at
        ++ (to_be 4 (length op.key)
            ++ (to_be 4 (length op.value) ++ (op.key ++ (op.value ++ tail))))
  after_command = step_over buf offset (offset + 1) (op.command ∷ []) _ (omega arith) here

  after_expires :
      drop (offset + 9) buf
      ≡ to_be 4 (length op.key) ++ (to_be 4 (length op.value) ++ (op.key ++ (op.value ++ tail)))
  after_expires =
      step_over buf (offset + 1) (offset + 9) (to_be 8 op.expires_at) _
        (omega (arith, length-to_be 8 op.expires_at)) after_command

  after_key_len :
      drop (offset + 13) buf ≡ to_be 4 (length op.value) ++ (op.key ++ (op.value ++ tail))
  after_key_len =
      step_over buf (offset + 9) (offset + 13) (to_be 4 (length op.key)) _
        (omega (arith, length-to_be 4 (length op.key))) after_expires

  after_value_len : drop (offset + 17) buf ≡ op.key ++ (op.value ++ tail)
  after_value_len =
      step_over buf (offset + 13) (offset + 17) (to_be 4 (length op.value)) _
        (omega (arith, length-to_be 4 (length op.value))) after_key_len

  after_key : drop (offset + 17 + length op.key) buf ≡ op.value ++ tail
  after_key =
      step_over buf (offset + 17) (offset + 17 + length op.key) op.key _ refl after_value_len

  pub key_len_read : op_key_len buf offset ≡ length op.key
  key_len_read =
      read_word buf (offset + 9) (offset + 13) 4 (length op.key) _ f.key_len (omega arith)
        after_expires

  pub value_len_read : op_value_len buf offset ≡ length op.value
  value_len_read =
      read_word buf (offset + 13) (offset + 17) 4 (length op.value) _ f.value_len (omega arith)
        after_key_len

  pub op_end_read : op_end buf offset ≡ offset + length (op_bytes op)
  op_end_read = omega (arith, key_len_read, value_len_read, length-op_bytes op)

  op_read : op_at buf offset ≡ op
  op_read = rw key_len_read (
      rw value_len_read (
        rw (byte_at-drop offset buf op.command _ here) (
          rw
            (read_word buf (offset + 1) (offset + 9) 8 op.expires_at _ f.expires_at (omega arith)
              after_command)
            (rw
              (read_bytes buf (offset + 17) (offset + 17 + length op.key) op.key (op.value ++ tail)
                refl after_value_len)
              (rw (
                read_bytes buf (offset + 17 + length op.key)
                  (offset + 17 + length op.key + length op.value) op.value tail refl after_key))))))

  pub after_op : drop (offset + length (op_bytes op)) buf ≡ tail
  after_op =
      step_over buf (offset + 17 + length op.key) (offset + length (op_bytes op)) op.value tail
        (omega (arith, length-op_bytes op)) after_key

  pub in_range : offset ≤ length buf → offset + length (op_bytes op) + length tail ≤ length buf
  in_range h = omega (
    arith,
    length-drop offset buf,
    ap (λ (l : Bytes). length l) (here ∙ sym (op_bytes-append op tail)),
    length-append (op_bytes op) tail,
  )

-- A round of the loop whose operation is whole.
pub decode_ops-suc :
    (n : ℕ) (buf : Bytes) (offset : ℕ)
    → offset + 17 ≤ length buf
    → op_end buf offset ≤ length buf
    → is_op_command (byte_at offset buf) ≡ true
    → decode_ops (suc n) buf offset
      ≡ prepend_op (op_at buf offset) (decode_ops n buf (op_end buf offset))
unfolding decode_ops
decode_ops-suc n buf offset fixed whole command =
    rw (ltb-false (length buf) (offset + 17) (omega arith))
      (rw (ltb-false (length buf) (op_end buf offset) (omega arith)) (rw command))

-- The loop returns the operations that stand at `offset`, and the offset behind them.
pub decode_ops-ops_bytes :
    (ops : List WalOp) (buf tail : Bytes) (offset : ℕ)
    → All FitsOp ops
    → offset ≤ length buf
    → drop offset buf ≡ ops_bytes ops ++ tail
    → decode_ops (length ops) buf offset ≡ ok (some (ops, offset + length (ops_bytes ops)))
unfolding decode_ops ops_bytes
decode_ops-ops_bytes [] buf tail offset f within h = ap (λ (n : ℕ). ok (some ([], n))) (omega arith)
decode_ops-ops_bytes (op ∷ ops) buf tail offset f within h =
    let rest = ops_bytes ops ++ tail in
    let here : drop offset buf ≡ op_frame op rest =
      h ∙ append_assoc (op_bytes op) (ops_bytes ops) tail ∙ op_bytes-append op rest in
    let size = length-op_bytes op in
    let fits = in_range op f.0 buf rest offset here within in
    let end = op_end_read op f.0 buf rest offset here in
    let command : is_op_command (byte_at offset buf) ≡ true =
      ap (λ (c : ℕ). is_op_command c) (byte_at-drop offset buf op.command _ here) ∙ f.0.command in
    let ih =
      decode_ops-ops_bytes ops buf tail (offset + length (op_bytes op)) f.1 (omega arith)
        (after_op op f.0 buf rest offset here) in
    decode_ops-suc (length ops) buf offset (omega arith) (omega arith) command
    ∙ ap₂ (λ (x : WalOp) (r : OpsDecoded). prepend_op x r) (op_read op f.0 buf rest offset here)
        (ap (λ (n : ℕ). decode_ops (length ops) buf n) end ∙ ih)
    ∙ ap (λ (n : ℕ). ok (some (op ∷ ops, n)))
        {x = offset + length (op_bytes op) + length (ops_bytes ops)}
        {y = offset + length (op_bytes op ++ ops_bytes ops)}
        (omega (arith, length-append (op_bytes op) (ops_bytes ops)))
