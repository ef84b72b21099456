-- ===== src/Wal/Replay.antt =====
-- The replay of the body of a segment: `replay_segment_body`, and the functions by which it tells
-- a torn tail from damage in front of intact records. The loop is recursion on fuel.
use zydecodb.Prelude.{
  ℕ, zero, suc, ◌+◌, ◌^◌, Bool, true, false, Option, none, some, List, [], ◌∷◌, length, ltb, ◌==◌,
  ◌||◌, drop, if◌then◌else◌,
}
use zydecodb.Prelude.Bytes.{Bytes, from_be}
use zydecodb.Prelude.Slices.{slice}
use zydecodb.Errors.{ok, err}
use zydecodb.Wal.{WalEntry, wal_put, wal_del, wal_batch, entry_fixed, batch_header, batch_op_fixed}
use zydecodb.Wal.Decode.{Decoded, decode_one, op_key_len, op_value_len}

-- `enum ReplayOutcome`.
pub data ReplayOutcome : Type 0 where
  clean torn_tail corruption : ReplayOutcome

-- `usize::checked_add`.
abbrev pub checked_add : ℕ → ℕ → Option ℕ
checked_add a b = if ltb (a + b) (2 ^ 64) then some (a + b) else none

-- The operator `?`.
infixl 5 ◌>>=◌
abbrev pub ◌>>=◌ : Option ℕ → (ℕ → Option ℕ) → Option ℕ
none >>= f = none
some n >>= f = f n

-- The loop over the operations in `frame_len`: the offset behind them.
unfoldable pub frame_ops : ℕ → Bytes → ℕ → Option ℕ
frame_ops zero buf offset = some offset
frame_ops (suc count) buf offset = do
  op_fixed_end ← checked_add offset batch_op_fixed
  bounded ← if ltb (length buf) op_fixed_end then none else some op_fixed_end
  key_end ← checked_add bounded (op_key_len buf offset)
  op_end ← checked_add key_end (op_value_len buf offset)
  frame_ops count buf op_end

abbrev pub frame_record : Bytes → Option ℕ
frame_record buf = do
  fixed ← if ltb (length buf) entry_fixed then none else some entry_fixed
  key_end ← checked_add fixed (from_be (slice 17 21 buf))
  body_end ← checked_add key_end (from_be (slice 21 25 buf))
  checked_add body_end 4

abbrev pub frame_batch : Bytes → Option ℕ
frame_batch buf = do
  header ← if ltb (length buf) batch_header then none else some batch_header
  offset ← frame_ops (from_be (slice 9 13 buf)) buf header
  checked_add offset 4

-- `frame_len`.
unfoldable pub frame_len : Bytes → Option ℕ
unfolding frame_ops
frame_len [] = none
frame_len (c ∷ rest) =
    if c == wal_put || c == wal_del
    then frame_record (c ∷ rest)
    else if c == wal_batch
    then frame_batch (c ∷ rest)
    else none

module _ (crc32 : Bytes → ℕ) where
  -- `matches!(…, Ok(Some(_)))`.
  abbrev pub is_intact : Decoded → Bool
  is_intact (ok (some _)) = true
  is_intact (ok none) = false
  is_intact (err _) = false

  abbrev pub intact_at : Bytes → Option ℕ → Bool
  intact_at body (some next) =
      if ltb next (length body) then is_intact (decode_one crc32 (drop next body)) else false
  intact_at body none = false

  -- `has_valid_record_after`.
  unfoldable pub has_valid_record_after : Bytes → ℕ → Bool
  unfolding frame_len decode_one
  has_valid_record_after body fail_offset =
      intact_at body (do len ← frame_len (drop fail_offset body); checked_add fail_offset len)

  -- `records.push(rec)`, in front of what the later rounds push.
  abbrev pub push_record : WalEntry → List WalEntry × ReplayOutcome → List WalEntry × ReplayOutcome
  push_record r (records, outcome) = (r ∷ records, outcome)

  -- The loop of `replay_segment_body`; the outcome of a round that fails is that of the code.
  unfoldable pub replay_from : ℕ → Bytes → ℕ → List WalEntry × ReplayOutcome
  unfolding has_valid_record_after
  replay_from zero body offset = ([], clean)
  replay_from (suc fuel) body offset =
      if ltb offset (length body)
      then elim (decode_one crc32 (drop offset body)) [
        | ok (some (r, consumed)) ↦ push_record r (replay_from fuel body (offset + consumed))
        | ok none ↦ ([], torn_tail)
        | err _ ↦ ([], if has_valid_record_after body offset then corruption else torn_tail)
      ]
      else ([], clean)

  -- `replay_segment_body`. Every round reads a byte at least.
  unfoldable pub replay_segment_body : Bytes → List WalEntry × ReplayOutcome
  unfolding replay_from
  replay_segment_body body = replay_from (length body) body 0
