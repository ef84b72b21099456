-- ===== src/Manifest/Fuel.antt =====
-- The fuel of `replay`: every round that goes on has read at least a byte.
use zydecodb.Prelude.{
  ℕ, zero, suc, ◌+◌, ◌<◌, ◌≤◌, ◌≡◌, refl, sym, ap, ◌∙◌, Bool, true, false, none, some, length, ltb,
  take, drop, arith, ◌==◌, not, if◌then◌else◌, ◌⊎◌, inl, inr, lt_or_le,
}
use zydecodb.Prelude.Bytes.{Bytes, from_be}
use zydecodb.Prelude.Slices.{slice, byte_at}
use zydecodb.Errors.{EngineResult, EngineError, io, ok, err, ◌>>=◌}
use zydecodb.Manifest.{ManifestRecord, ManifestState, no_state, apply}
use zydecodb.Manifest.Decode.{
  decode_payload, decode_manifest, replay_manifest_from, replay_manifest,
}
use zydecodb.Manifest.Codec.{Decoded}
use zydecodb.Manifest.Replay.{round_record, round_short, round_refused, round_end}

abbrev HasByte : Decoded → Type 0
HasByte (ok (some (r, n))) = 0 < n
HasByte (ok none) = Unit
HasByte (err _) = Unit

if-HasByte : (b : Bool) (x y : Decoded) → HasByte x → HasByte y → HasByte (if b then x else y)
if-HasByte true x y h k = h
if-HasByte false x y h k = k

counted-HasByte :
    (r : EngineResult ManifestRecord) (n : ℕ) → HasByte (r >>= λ x. ok (some (x, n + 4)))
counted-HasByte (ok r) n = omega arith
counted-HasByte (err e) n = tt

Decoded-cases :
    (r : Decoded)
    → HasByte r
    → ((x : ManifestRecord) × ((n : ℕ) × (r ≡ ok (some (x, n))) × (0 < n)))
      ⊎ ((r ≡ ok none) ⊎ ((e : EngineError) × (r ≡ err e)))
Decoded-cases (ok (some (x, n))) h = inl (x, (n, refl, h))
Decoded-cases (ok none) h = inr (inl refl)
Decoded-cases (err e) h = inr (inr (e, refl))

module _ (crc32 : Bytes → ℕ) where
  decode_manifest-HasByte : (buf : Bytes) → HasByte (decode_manifest crc32 buf)
  unfolding decode_manifest
  decode_manifest-HasByte buf =
      let body_end = 5 + from_be (slice 1 5 buf) in
      if-HasByte (ltb (length buf) 5) (ok none) _ tt (
        if-HasByte (ltb (length buf) (body_end + 4)) (ok none) _ tt (
          if-HasByte
            (not (crc32 (take body_end buf) == from_be (slice body_end (body_end + 4) buf)))
            (err (io "manifest: CRC mismatch")) _ tt
            (counted-HasByte (decode_payload (byte_at 0 buf) (slice 5 body_end buf)) body_end)))

  replay_enough :
      (fuel more : ℕ) (buf : Bytes) (offset : ℕ) (s : ManifestState)
      → length buf ≤ offset + fuel
      → replay_manifest_from crc32 (fuel + more) buf offset s
        ≡ replay_manifest_from crc32 fuel buf offset s
  replay_enough zero more buf offset s h =
      round_end crc32 (0 + more) buf offset s (omega arith)
      ∙ sym (round_end crc32 0 buf offset s (omega arith))
  replay_enough (suc fuel) more buf offset s h =
      let goal : Type 0 =
        replay_manifest_from crc32 (suc fuel + more) buf offset s
        ≡ replay_manifest_from crc32 (suc fuel) buf offset s in
      let step =
        ap (λ (n : ℕ). replay_manifest_from crc32 n buf offset s) {x = suc fuel + more}
          {y = suc (fuel + more)} (omega arith) in
      elim (lt_or_le offset (length buf)) as (λ _. goal) [
        | inr past ↦
            round_end crc32 (suc fuel + more) buf offset s past
            ∙ sym (round_end crc32 (suc fuel) buf offset s past)
        | inl within ↦
            elim (Decoded-cases (decode_manifest crc32 (drop offset buf))
                (decode_manifest-HasByte (drop offset buf)))
              as (λ _. goal) [
                | inl (r, (n, k, positive)) ↦
                    step
                    ∙ round_record crc32 (fuel + more) buf offset n s r within k
                    ∙ replay_enough fuel more buf (offset + n) (apply s r) (omega arith)
                    ∙ sym (round_record crc32 fuel buf offset n s r within k)
                | inr (inl k) ↦
                    step
                    ∙ round_short crc32 (fuel + more) buf offset s within k
                    ∙ sym (round_short crc32 fuel buf offset s within k)
                | inr (inr (e, k)) ↦
                    step
                    ∙ round_refused crc32 (fuel + more) buf offset s e within k
                    ∙ sym (round_refused crc32 fuel buf offset s e within k)
              ]
      ]

  -- The replay of a manifest does not run out of fuel, whatever the bytes are: with any more fuel
  -- the result is the same.
  pub replay_manifest_fuel :
      (more : ℕ) (buf : Bytes)
      → replay_manifest_from crc32 (length buf + more) buf 0 no_state ≡ replay_manifest crc32 buf
  unfolding replay_manifest
  replay_manifest_fuel more buf = replay_enough (length buf) more buf 0 no_state (omega arith)
