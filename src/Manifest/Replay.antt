-- ===== src/Manifest/Replay.antt =====
-- `replay` on the bytes of records, with a last one that may be cut off.
use zydecodb.Prelude.{
  ℕ, zero, suc, ◌+◌, ◌-◌, ◌^◌, ◌<◌, ◌≤◌, ◌≡◌, refl, ap, ◌∙◌, none, some, List, [], ◌∷◌, ◌++◌,
  append_assoc, length, length-append, length-drop, take, drop, drop-append, lt→ltb, ltb-false, All,
  arith, ◌⊎◌, inl, inr, lt_or_le,
}
use zydecodb.Prelude.Bytes.{Bytes, to_be}
use zydecodb.Prelude.Cursor.{step_over}
use zydecodb.Errors.{EngineError, ok, err, format_version}
use zydecodb.Manifest.{ManifestRecord, ManifestState, no_state, apply, framed, encode_manifest}
use zydecodb.Manifest.Decode.{decode_manifest, replay_manifest_from, replay_manifest, stopped}
use zydecodb.Manifest.Payload.{FitsManifest}
use zydecodb.Manifest.Codec.{
  decode-encode_manifest, length-encode_manifest, decode_manifest_unknown, length-framed,
}
use zydecodb.Manifest.Torn.{decode_manifest-take}

-- The state behind a list of records.
unfoldable pub applied : ManifestState → List ManifestRecord → ManifestState
unfolding apply
applied s [] = s
applied s (r ∷ rs) = applied (apply s r) rs

module _ (crc32 : Bytes → ℕ) where
  -- The bytes of a manifest.
  unfoldable pub manifest_bytes : List ManifestRecord → Bytes
  manifest_bytes [] = []
  manifest_bytes (r ∷ rs) = encode_manifest crc32 r ++ manifest_bytes rs

  pub round_record :
      (fuel : ℕ) (buf : Bytes) (offset consumed : ℕ) (s : ManifestState) (r : ManifestRecord)
      → offset < length buf
      → decode_manifest crc32 (drop offset buf) ≡ ok (some (r, consumed))
      → replay_manifest_from crc32 (suc fuel) buf offset s
        ≡ replay_manifest_from crc32 fuel buf (offset + consumed) (apply s r)
  unfolding replay_manifest_from
  round_record fuel buf offset consumed s r h k = rw (lt→ltb offset (length buf) h) (rw k refl)

  pub round_short :
      (fuel : ℕ) (buf : Bytes) (offset : ℕ) (s : ManifestState)
      → offset < length buf
      → decode_manifest crc32 (drop offset buf) ≡ ok none
      → replay_manifest_from crc32 (suc fuel) buf offset s ≡ ok s
  unfolding replay_manifest_from
  round_short fuel buf offset s h k = rw (lt→ltb offset (length buf) h) (rw k refl)

  pub round_refused :
      (fuel : ℕ) (buf : Bytes) (offset : ℕ) (s : ManifestState) (e : EngineError)
      → offset < length buf
      → decode_manifest crc32 (drop offset buf) ≡ err e
      → replay_manifest_from crc32 (suc fuel) buf offset s ≡ stopped crc32 s e
  unfolding replay_manifest_from
  round_refused fuel buf offset s e h k = rw (lt→ltb offset (length buf) h) (rw k refl)

  pub round_end :
      (fuel : ℕ) (buf : Bytes) (offset : ℕ) (s : ManifestState)
      → length buf ≤ offset
      → replay_manifest_from crc32 fuel buf offset s ≡ ok s
  unfolding replay_manifest_from
  round_end zero buf offset s h = refl
  round_end (suc fuel) buf offset s h = rw (ltb-false offset (length buf) h)

  module _ (crc32_lt : (b : Bytes) → crc32 b < 2 ^ 32) where
    pub replay_whole :
        (rs : List ManifestRecord) (fuel : ℕ) (buf tail : Bytes) (offset : ℕ) (s : ManifestState)
        → All FitsManifest rs
        → offset ≤ length buf
        → drop offset buf ≡ manifest_bytes rs ++ tail
        → replay_manifest_from crc32 (length rs + fuel) buf offset s
          ≡ replay_manifest_from crc32 fuel buf (offset + length (manifest_bytes rs)) (applied s rs)
    unfolding manifest_bytes applied
    replay_whole [] fuel buf tail offset s f within h =
        ap (λ (n : ℕ). replay_manifest_from crc32 n buf offset s) {x = 0 + fuel} {y = fuel}
          (omega arith)
        ∙ ap (λ (n : ℕ). replay_manifest_from crc32 fuel buf n s) {x = offset} {y = offset + 0}
            (omega arith)
    replay_whole (r ∷ rs) fuel buf tail offset s f within h =
        let bytes = encode_manifest crc32 r in
        let rest = manifest_bytes rs ++ tail in
        let here : drop offset buf ≡ bytes ++ rest =
          h ∙ append_assoc bytes (manifest_bytes rs) tail in
        let decoded =
          ap (decode_manifest crc32) here ∙ decode-encode_manifest crc32 crc32_lt r rest f.0 in
        let size : length buf - offset ≡ length bytes + length rest = omega (
          arith,
          length-drop offset buf,
          ap (λ (l : Bytes). length l) here,
          length-append bytes rest,
        ) in
        let positive = length-encode_manifest crc32 crc32_lt r in
        let next : drop (offset + length bytes) buf ≡ rest =
          step_over buf offset (offset + length bytes) bytes rest refl here in
        ap (λ (n : ℕ). replay_manifest_from crc32 n buf offset s) {x = suc (length rs) + fuel}
          {y = suc (length rs + fuel)} (omega arith)
        ∙ round_record (length rs + fuel) buf offset (length bytes) s r (omega arith) decoded
        ∙ replay_whole rs fuel buf tail (offset + length bytes) (apply s r) f.1 (omega arith) next
        ∙ ap (λ (n : ℕ). replay_manifest_from crc32 fuel buf n (applied (apply s r) rs))
            {x = offset + length bytes + length (manifest_bytes rs)}
            {y = offset + length (bytes ++ manifest_bytes rs)}
            (omega (arith, length-append bytes (manifest_bytes rs)))

    pub length-manifest_bytes : (rs : List ManifestRecord) → length rs ≤ length (manifest_bytes rs)
    unfolding manifest_bytes
    length-manifest_bytes [] = omega arith
    length-manifest_bytes (r ∷ rs) = omega (
      arith,
      length-manifest_bytes rs,
      length-append (encode_manifest crc32 r) (manifest_bytes rs),
      length-encode_manifest crc32 crc32_lt r,
    )

    tail_stops :
        (fuel : ℕ) (buf : Bytes) (offset : ℕ) (s : ManifestState)
        → decode_manifest crc32 (drop offset buf) ≡ ok none
        → replay_manifest_from crc32 fuel buf offset s ≡ ok s
    unfolding replay_manifest_from
    tail_stops zero buf offset s h = refl
    tail_stops (suc fuel) buf offset s h =
        elim (lt_or_le offset (length buf))
          as (λ _. replay_manifest_from crc32 (suc fuel) buf offset s ≡ ok s) [
            | inl within ↦ round_short fuel buf offset s within h
            | inr past ↦ round_end (suc fuel) buf offset s past
          ]

    -- Replaying the bytes of records gives the state behind all of them, also if another record
    -- follows that is cut off anywhere before its end (a cut at 0 leaves nothing of it).
    pub replay_manifest-torn :
        (rs : List ManifestRecord) (r : ManifestRecord) (n : ℕ)
        → All FitsManifest rs
        → FitsManifest r
        → n < length (encode_manifest crc32 r)
        → replay_manifest crc32 (manifest_bytes rs ++ take n (encode_manifest crc32 r))
          ≡ ok (applied no_state rs)
    unfolding replay_manifest
    replay_manifest-torn rs r n fs f h =
        let tail = take n (encode_manifest crc32 r) in
        let buf = manifest_bytes rs ++ tail in
        let fuel = length buf - length rs in
        let start = length (manifest_bytes rs) in
        ap (λ (k : ℕ). replay_manifest_from crc32 k buf 0 no_state) {x = length buf}
          {y = length rs + fuel}
          (omega (arith, length-manifest_bytes rs, length-append (manifest_bytes rs) tail))
        ∙ replay_whole rs fuel buf tail 0 no_state fs (omega arith) refl
        ∙ tail_stops fuel buf (0 + start) (applied no_state rs) (
            ap (λ (k : ℕ). decode_manifest crc32 (drop k buf)) {x = 0 + start} {y = start}
              (omega arith)
            ∙ ap (decode_manifest crc32) (drop-append (manifest_bytes rs) tail)
            ∙ decode_manifest-take crc32 crc32_lt r n f h)

    -- An intact record of a type that the build does not know, which is 0 or above 4, makes the
    -- whole replay fail with an unsupported format, behind whatever records and in front of
    -- whatever bytes.
    pub replay_manifest_unknown :
        (rs : List ManifestRecord) (t : ℕ) (p rest : Bytes)
        → All FitsManifest rs
        → length p < 2 ^ 32
        → (t ≡ 0) ⊎ (4 < t)
        → replay_manifest crc32
            (manifest_bytes rs ++ (framed t p ++ (to_be 4 (crc32 (framed t p)) ++ rest)))
          ≡ err (format_version "manifest: unknown record type")
    unfolding replay_manifest
    replay_manifest_unknown rs t p rest fs small other =
        let frame = framed t p ++ (to_be 4 (crc32 (framed t p)) ++ rest) in
        let buf = manifest_bytes rs ++ frame in
        let fuel = length buf - length rs - 1 in
        let start = length (manifest_bytes rs) in
        let size : 0 < length frame = omega (
          arith,
          length-append (framed t p) (to_be 4 (crc32 (framed t p)) ++ rest),
          length-framed t p,
        ) in
        let whole = length-append (manifest_bytes rs) frame in
        ap (λ (k : ℕ). replay_manifest_from crc32 k buf 0 no_state) {x = length buf}
          {y = length rs + suc fuel} (omega (arith, length-manifest_bytes rs))
        ∙ replay_whole rs (suc fuel) buf frame 0 no_state fs (omega arith) refl
        ∙ round_refused fuel buf (0 + start) (applied no_state rs) _ (omega arith) (
            ap (λ (k : ℕ). decode_manifest crc32 (drop k buf)) {x = 0 + start} {y = start}
              (omega arith)
            ∙ ap (decode_manifest crc32) (drop-append (manifest_bytes rs) frame)
            ∙ decode_manifest_unknown crc32 crc32_lt t p rest small other)
