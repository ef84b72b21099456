-- ===== src/Manifest/Codec.antt =====
-- The decoder of the manifest on the bytes of a record.
use zydecodb.Prelude.{
  ℕ, ◌+◌, ◌^◌, ◌<◌, ◌≡◌, refl, sym, ap, ◌∙◌, Option, some, ◌++◌, append_assoc, length,
  length-append, take, drop, take-append, ltb-false, ==_refl, ==_ne, arith, ◌⊎◌,
}
use zydecodb.Prelude.Bytes.{Bytes, to_be, from_be, length-to_be}
use zydecodb.Prelude.Slices.{slice, byte_at, drop_first}
use zydecodb.Prelude.Cursor.{read_bytes, read_word, step_over}
use zydecodb.Errors.{EngineResult, ok, err, format_version, ◌>>=◌}
use zydecodb.Manifest.{
  ManifestRecord, sstable_add, sstable_remove, seq_checkpoint, wal_truncate, payload, type_byte,
  framed, encode_manifest,
}
use zydecodb.Manifest.Decode.{decode_payload, decode_manifest}
use zydecodb.Manifest.Payload.{FitsManifest, decode_payload-payload}

-- A frame in front of other bytes: its length word, its CRC and its payload.
module _ (t : ℕ) (p tail buf : Bytes) (small : length p < 2 ^ 32)
    (h : buf ≡ framed t p ++ tail) where
  pub length_word : from_be (slice 1 5 buf) ≡ length p
  unfolding framed
  length_word =
      read_word buf 1 5 4 (length p) (p ++ tail) small refl
        (ap (λ (l : Bytes). drop 1 l) h ∙ append_assoc (to_be 4 (length p)) p tail)

  payload_slice : slice 5 (5 + length p) buf ≡ p
  unfolding framed
  payload_slice = read_bytes buf 5 (5 + length p) p tail refl (
      step_over buf 1 5 (to_be 4 (length p)) (p ++ tail) (omega (arith, length-to_be 4 (length p)))
        (ap (λ (l : Bytes). drop 1 l) h ∙ append_assoc (to_be 4 (length p)) p tail))

  first_byte : byte_at 0 buf ≡ t
  unfolding framed
  first_byte = ap (λ (l : Bytes). byte_at 0 l) h

pub length-framed : (t : ℕ) (p : Bytes) → length (framed t p) ≡ 5 + length p
unfolding framed
length-framed t p = omega (arith, length-append (to_be 4 (length p)) p, length-to_be 4 (length p))

abbrev pub Decoded : Type 0
Decoded = EngineResult (Option (ManifestRecord × ℕ))

module _ (crc32 : Bytes → ℕ) (crc32_lt : (b : Bytes) → crc32 b < 2 ^ 32) where
  -- The decoder on a whole frame is the decoder of its payload.
  pub decode_manifest-framed :
      (t : ℕ) (p rest : Bytes)
      → length p < 2 ^ 32
      → decode_manifest crc32 (framed t p ++ (to_be 4 (crc32 (framed t p)) ++ rest))
        ≡ (decode_payload t p >>= λ r. ok (some (r, 5 + length p + 4)))
  unfolding decode_manifest
  decode_manifest-framed t p rest small =
      let body = framed t p in
      let crc = to_be 4 (crc32 body) in
      let buf = body ++ (crc ++ rest) in
      let width = length-framed t p in
      let size : length buf ≡ 5 + length p + 4 + length rest = omega (
        arith,
        length-append body (crc ++ rest),
        length-append crc rest,
        length-to_be 4 (crc32 body),
        width,
      ) in
      let covered : take (5 + length p) buf ≡ body =
        ap (λ (n : ℕ). take n buf) (sym width) ∙ take-append body (crc ++ rest) in
      let stored : from_be (slice (5 + length p) (5 + length p + 4) buf) ≡ crc32 body =
        read_word buf (5 + length p) (5 + length p + 4) 4 (crc32 body) rest (crc32_lt body) refl
          (drop_first body (crc ++ rest) width) in
      rw (ltb-false (length buf) 5 (omega arith)) (
        rw (length_word t p (crc ++ rest) buf small refl) (
          rw (ltb-false (length buf) (5 + length p + 4) (omega arith)) (
            rw covered (
              rw stored (
                rw (==_refl (crc32 body)) (
                  rw (first_byte t p (crc ++ rest) buf small refl)
                    (rw (payload_slice t p (crc ++ rest) buf small refl) refl)))))))

  pub encode_manifest_frame :
      (r : ManifestRecord) (rest : Bytes)
      → encode_manifest crc32 r ++ rest
        ≡ framed (type_byte r) (payload r)
          ++ (to_be 4 (crc32 (framed (type_byte r) (payload r))) ++ rest)
  unfolding encode_manifest
  encode_manifest_frame r rest =
      let body = framed (type_byte r) (payload r) in append_assoc body (to_be 4 (crc32 body)) rest

  pub length-encode_manifest :
      (r : ManifestRecord) → length (encode_manifest crc32 r) ≡ 5 + length (payload r) + 4
  unfolding encode_manifest
  length-encode_manifest r =
      let body = framed (type_byte r) (payload r) in
      omega (
        arith,
        length-append body (to_be 4 (crc32 body)),
        length-to_be 4 (crc32 body),
        length-framed (type_byte r) (payload r),
      )

  pub payload_small : (r : ManifestRecord) → FitsManifest r → length (payload r) < 2 ^ 32
  unfolding payload
  payload_small (sstable_add m) f = f.1
  payload_small (sstable_remove n) f = omega (arith, length-to_be 8 n)
  payload_small (seq_checkpoint n) f = omega (arith, length-to_be 8 n)
  payload_small (wal_truncate n) f = omega (arith, length-to_be 8 n)

  -- A record of the manifest is decoded as it was encoded, whatever follows it, with the number of
  -- its bytes, if its fields and lengths fit their types and the CRC has 32 bits.
  pub decode-encode_manifest :
      (r : ManifestRecord) (rest : Bytes)
      → FitsManifest r
      → decode_manifest crc32 (encode_manifest crc32 r ++ rest)
        ≡ ok (some (r, length (encode_manifest crc32 r)))
  decode-encode_manifest r rest f =
      ap (decode_manifest crc32) (encode_manifest_frame r rest)
      ∙ decode_manifest-framed (type_byte r) (payload r) rest (payload_small r f)
      ∙ ap
          (λ (x : EngineResult ManifestRecord).
            x >>= λ y. ok (some (y, 5 + length (payload r) + 4)))
          (decode_payload-payload r f)
      ∙ ap (λ (n : ℕ). ok (some (r, n))) (sym (length-encode_manifest r))

  -- A record that is intact, but of a type above 4, is refused as of an unknown version, and so is
  -- one of type 0.
  pub decode_manifest_unknown :
      (t : ℕ) (p rest : Bytes)
      → length p < 2 ^ 32
      → (t ≡ 0) ⊎ (4 < t)
      → decode_manifest crc32 (framed t p ++ (to_be 4 (crc32 (framed t p)) ++ rest))
        ≡ err (format_version "manifest: unknown record type")
  unfolding decode_payload
  decode_manifest_unknown t p rest small other =
      decode_manifest-framed t p rest small
      ∙ rw (==_ne t 1 (ground (arith, other))) (
          rw (==_ne t 2 (ground (arith, other)))
            (rw (==_ne t 3 (ground (arith, other))) (rw (==_ne t 4 (ground (arith, other))) refl)))
