-- ===== src/Wal/Fuel.antt =====
-- The fuel of `replay_segment_body`: every round that goes on has read at least a byte.
use zydecodb.Prelude.{
  ℕ, zero, suc, ◌+◌, ◌<◌, ◌≤◌, ◌≡◌, refl, sym, ap, ◌∙◌, Bool, true, false, none, some, [], ◌∷◌,
  length, ltb, take, drop, arith, ◌==◌, ◌||◌, not, if◌then◌else◌, ◌⊎◌, inl, inr, String, lt_or_le,
}
use zydecodb.Prelude.Bytes.{Bytes, from_be}
use zydecodb.Prelude.Slices.{slice}
use zydecodb.Errors.{EngineError, io, ok, err}
use zydecodb.Wal.{WalEntry, wal_batch, wal_put, wal_del, batch_header, entry_fixed}
use zydecodb.Wal.Decode.{
  Decoded, decode_one, checked, decode_single, decode_batch, finish_batch, decode_ops, OpsDecoded,
}
use zydecodb.Wal.Replay.{push_record, replay_from, replay_segment_body}
use zydecodb.Wal.Recovery.{round_end, round_entry, round_short, round_damaged}

-- A result whose entry, if there is one, has at least a byte.
abbrev HasByte : Decoded → Type 0
HasByte (ok (some (e, n))) = 0 < n
HasByte (ok none) = Unit
HasByte (err _) = Unit

if-HasByte : (b : Bool) (x y : Decoded) → HasByte x → HasByte y → HasByte (if b then x else y)
if-HasByte true x y h k = h
if-HasByte false x y h k = k

Decoded-cases :
    (r : Decoded)
    → HasByte r
    → ((e : WalEntry) × ((n : ℕ) × (r ≡ ok (some (e, n))) × (0 < n)))
      ⊎ ((r ≡ ok none) ⊎ ((e : EngineError) × (r ≡ err e)))
Decoded-cases (ok (some (e, n))) h = inl (e, (n, refl, h))
Decoded-cases (ok none) h = inr (inl refl)
Decoded-cases (err e) h = inr (inr (e, refl))

module _ (crc32 : Bytes → ℕ) where
  checked-HasByte :
      (buf : Bytes) (end : ℕ) (entry : WalEntry) (m : String)
      → HasByte (checked crc32 buf end entry m)
  checked-HasByte buf end entry m = if-HasByte (ltb (length buf) (end + 4)) (ok none) _ tt (
      if-HasByte (not (from_be (slice end (end + 4) buf) == crc32 (take end buf))) (err (io m)) _ tt
        (omega arith))

  finish_batch-HasByte : (buf : Bytes) (r : OpsDecoded) → HasByte (finish_batch crc32 buf r)
  finish_batch-HasByte buf (ok (some (ops, offset))) = checked-HasByte buf offset _ _
  finish_batch-HasByte buf (ok none) = tt
  finish_batch-HasByte buf (err e) = tt

  decode_batch-HasByte : (buf : Bytes) → HasByte (decode_batch crc32 buf)
  unfolding decode_batch
  decode_batch-HasByte buf =
      if-HasByte (ltb (length buf) batch_header) (ok none) _ tt
        (finish_batch-HasByte buf (decode_ops (from_be (slice 9 13 buf)) buf batch_header))

  decode_single-HasByte : (buf : Bytes) → HasByte (decode_single crc32 buf)
  unfolding decode_single
  decode_single-HasByte buf = if-HasByte (ltb (length buf) (entry_fixed + 4)) (ok none) _ tt (
      checked-HasByte buf (entry_fixed + from_be (slice 17 21 buf) + from_be (slice 21 25 buf)) _ _)

  decode_one-HasByte : (buf : Bytes) → HasByte (decode_one crc32 buf)
  unfolding decode_one
  decode_one-HasByte [] = tt
  decode_one-HasByte (c ∷ rest) =
      let buf = c ∷ rest in
      if-HasByte (c == wal_batch) (decode_batch crc32 buf) _ (decode_batch-HasByte buf) (
        if-HasByte (c == wal_put || c == wal_del) (decode_single crc32 buf) _
          (decode_single-HasByte buf) tt)

  -- Any fuel that is not less than the bytes that are left gives the same result.
  replay_from_enough :
      (fuel more : ℕ) (body : Bytes) (offset : ℕ)
      → length body ≤ offset + fuel
      → replay_from crc32 (fuel + more) body offset ≡ replay_from crc32 fuel body offset
  replay_from_enough zero more body offset h =
      round_end crc32 (0 + more) body offset (omega arith)
      ∙ sym (round_end crc32 0 body offset (omega arith))
  replay_from_enough (suc fuel) more body offset h =
      let goal : Type 0 =
        replay_from crc32 (suc fuel + more) body offset
        ≡ replay_from crc32 (suc fuel) body offset in
      elim (lt_or_le offset (length body)) as (λ _. goal) [
        | inr h ↦
            round_end crc32 (suc fuel + more) body offset h
            ∙ sym (round_end crc32 (suc fuel) body offset h)
        | inl within ↦
            let step =
              ap (λ (n : ℕ). replay_from crc32 n body offset) {x = suc fuel + more}
                {y = suc (fuel + more)} (omega arith) in
            elim (Decoded-cases (decode_one crc32 (drop offset body))
                (decode_one-HasByte (drop offset body)))
              as (λ _. goal) [
                | inl (e, (n, k, positive)) ↦
                    step
                    ∙ round_entry crc32 (fuel + more) body offset e n within k
                    ∙ ap (push_record crc32 e)
                        (replay_from_enough fuel more body (offset + n) (omega arith))
                    ∙ sym (round_entry crc32 fuel body offset e n within k)
                | inr (inl k) ↦
                    step
                    ∙ round_short crc32 (fuel + more) body offset within k
                    ∙ sym (round_short crc32 fuel body offset within k)
                | inr (inr (e, k)) ↦
                    step
                    ∙ round_damaged crc32 (fuel + more) body offset e within k
                    ∙ sym (round_damaged crc32 fuel body offset e within k)
              ]
      ]

  -- The replay of a segment body does not run out of fuel, whatever the bytes are: with any more
  -- fuel the result is the same.
  pub replay_segment_body_fuel :
      (more : ℕ) (body : Bytes)
      → replay_from crc32 (length body + more) body 0 ≡ replay_segment_body crc32 body
  unfolding replay_segment_body
  replay_segment_body_fuel more body = replay_from_enough (length body) more body 0 (omega arith)
