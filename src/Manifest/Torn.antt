-- ===== src/Manifest/Torn.antt =====
-- The decoder of the manifest on a record that was cut off.
use zydecodb.Prelude.{
  ℕ, ◌+◌, ◌^◌, ◌<◌, ◌≡◌, refl, ap, ◌∙◌, none, length, length-take, take, lt→ltb, ltb-false, arith,
  inl, inr, lt_or_le,
}
use zydecodb.Prelude.Bytes.{Bytes, to_be, from_be}
use zydecodb.Prelude.Slices.{slice}
use zydecodb.Prelude.Cursor.{slice-take}
use zydecodb.Errors.{ok}
use zydecodb.Manifest.{ManifestRecord, payload, type_byte, framed, encode_manifest}
use zydecodb.Manifest.Decode.{decode_manifest}
use zydecodb.Manifest.Payload.{FitsManifest}
use zydecodb.Manifest.Codec.{length_word, length-encode_manifest, payload_small}

-- Decoding a record that is cut off before its end asks for more bytes, wherever the cut is.
pub decode_manifest-take :
    (crc32 : Bytes → ℕ) (crc32_lt : (b : Bytes) → crc32 b < 2 ^ 32) (r : ManifestRecord) (n : ℕ)
    → FitsManifest r
    → n < length (encode_manifest crc32 r)
    → decode_manifest crc32 (take n (encode_manifest crc32 r)) ≡ ok none
unfolding decode_manifest encode_manifest
decode_manifest-take crc32 crc32_lt r n f h =
    let buf = encode_manifest crc32 r in
    let p = payload r in
    let width : length (take n buf) ≡ n = omega (arith, length-take n buf) in
    elim (lt_or_le n 5) as (λ _. decode_manifest crc32 (take n buf) ≡ ok none) [
      | inl short ↦ rw (lt→ltb (length (take n buf)) 5 (omega arith))
      | inr header ↦
          let word : from_be (slice 1 5 (take n buf)) ≡ length p =
            ap from_be (slice-take 1 5 n buf (omega arith) header)
            ∙ length_word (type_byte r) p (to_be 4 (crc32 (framed (type_byte r) p))) buf
                (payload_small crc32 crc32_lt r f) refl in
          rw (ltb-false (length (take n buf)) 5 (omega arith)) (
            rw word (
              rw
                (lt→ltb (length (take n buf)) (5 + length p + 4)
                  (omega (arith, length-encode_manifest crc32 crc32_lt r)))
                refl))
    ]
