-- ===== src/Manifest/Payload.antt =====
-- The payload of a record of the manifest, and the decoder on it.
use zydecodb.Prelude.{
  ℕ, ◌+◌, ◌-◌, ◌^◌, ◌<◌, ◌≡◌, refl, sym, ap, ◌∙◌, [], ◌∷◌, ◌++◌, append-nil, length, length-append,
  length-drop, drop, lt→ltb, ltb-false, arith,
}
use zydecodb.Prelude.Bytes.{Bytes, to_be, length-to_be}
use zydecodb.Prelude.Slices.{drop_first}
use zydecodb.Prelude.Cursor.{read_bytes, read_word, step_over, byte_at-drop}
use zydecodb.Errors.{ok}
use zydecodb.Manifest.{
  SstableMeta, ManifestRecord, sstable_add, sstable_remove, seq_checkpoint, wal_truncate, payload,
  type_byte,
}
use zydecodb.Manifest.Decode.{
  get_slice, read_u64, read_u8, read_sized, decode_sstable_meta, decode_payload,
}

-- What the Rust types of the fields and the casts of the lengths ask.
pub record FitsMeta (m : SstableMeta) : Type 0 where
  pub id : m.id < 2 ^ 64
  pub min_key : length m.min_key < 2 ^ 32
  pub max_key : length m.max_key < 2 ^ 32
  pub min_seq : m.min_seq < 2 ^ 64
  pub max_seq : m.max_seq < 2 ^ 64
  pub size_bytes : m.size_bytes < 2 ^ 64

abbrev pub FitsManifest : ManifestRecord → Type 0
FitsManifest (sstable_add m) = FitsMeta m × (length (payload (sstable_add m)) < 2 ^ 32)
FitsManifest (sstable_remove n) = n < 2 ^ 64
FitsManifest (seq_checkpoint n) = n < 2 ^ 64
FitsManifest (wal_truncate n) = n < 2 ^ 64

-- A reader at a place where its field stands.
module _ (buf : Bytes) (off : ℕ) where
  read_u64_at :
      (n : ℕ) (rest : Bytes)
      → n < 2 ^ 64
      → drop off buf ≡ to_be 8 n ++ rest
      → read_u64 buf off ≡ ok n
  unfolding read_u64 get_slice
  read_u64_at n rest fits h =
      rw
        (ltb-false (length buf) (off + 8) (
          omega (
            arith,
            length-drop off buf,
            ap (λ (l : Bytes). length l) h,
            length-append (to_be 8 n) rest,
            length-to_be 8 n,
          )))
        (ap ok (read_word buf off (off + 8) 8 n rest fits refl h))

  read_u8_at : (x : ℕ) (rest : Bytes) → drop off buf ≡ x ∷ rest → read_u8 buf off ≡ ok x
  unfolding read_u8
  read_u8_at x rest h =
      rw
        (lt→ltb off (length buf)
          (omega (arith, length-drop off buf, ap (λ (l : Bytes). length l) h)))
        (ap ok (byte_at-drop off buf x rest h))

  read_sized_at :
      (xs rest : Bytes)
      → length xs < 2 ^ 32
      → drop off buf ≡ to_be 4 (length xs) ++ (xs ++ rest)
      → read_sized buf off ≡ ok (xs, 4 + length xs)
  unfolding read_sized get_slice
  read_sized_at xs rest fits h =
      let size : length buf - off ≡ 4 + length xs + length rest = omega (
        arith,
        length-drop off buf,
        ap (λ (l : Bytes). length l) h,
        length-append (to_be 4 (length xs)) (xs ++ rest),
        length-append xs rest,
        length-to_be 4 (length xs),
      ) in
      let there : drop (off + 4) buf ≡ xs ++ rest =
        step_over buf off (off + 4) (to_be 4 (length xs)) (xs ++ rest)
          (omega (arith, length-to_be 4 (length xs))) h in
      rw (ltb-false (length buf) (off + 4) (omega arith)) (
        rw (read_word buf off (off + 4) 4 (length xs) (xs ++ rest) fits refl h) (
          rw (ltb-false (length buf) (off + 4 + length xs) (omega arith))
            (rw (read_bytes buf (off + 4) (off + 4 + length xs) xs rest refl there) refl)))

-- The fields of a table.
module _ (m : SstableMeta) (f : FitsMeta m) where
  abbrev seqs : Bytes
  seqs = to_be 8 m.min_seq ++ (to_be 8 m.max_seq ++ to_be 8 m.size_bytes)

  abbrev buf : Bytes
  buf = payload (sstable_add m)

  at_min_key :
      drop 9 buf
      ≡ to_be 4 (length m.min_key)
        ++ (m.min_key ++ (to_be 4 (length m.max_key) ++ (m.max_key ++ seqs)))
  unfolding payload
  at_min_key =
      step_over buf 8 9 (m.level ∷ []) _ refl (drop_first (to_be 8 m.id) _ (length-to_be 8 m.id))

  at_max_key :
      drop (9 + (4 + length m.min_key)) buf ≡ to_be 4 (length m.max_key) ++ (m.max_key ++ seqs)
  at_max_key = step_over buf 13 (9 + (4 + length m.min_key)) m.min_key _ (omega arith) (
      step_over buf 9 13 (to_be 4 (length m.min_key)) _
        (omega (arith, length-to_be 4 (length m.min_key))) at_min_key)

  abbrev off : ℕ
  off = 9 + (4 + length m.min_key) + (4 + length m.max_key)

  at_seqs : drop off buf ≡ seqs
  at_seqs = step_over buf (9 + (4 + length m.min_key) + 4) off m.max_key _ (omega arith) (
      step_over buf (9 + (4 + length m.min_key)) (9 + (4 + length m.min_key) + 4)
        (to_be 4 (length m.max_key)) _ (omega (arith, length-to_be 4 (length m.max_key)))
        at_max_key)

  at_max_seq : drop (off + 8) buf ≡ to_be 8 m.max_seq ++ to_be 8 m.size_bytes
  at_max_seq =
      step_over buf off (off + 8) (to_be 8 m.min_seq) _ (omega (arith, length-to_be 8 m.min_seq))
        at_seqs

  at_size : drop (off + 8 + 8) buf ≡ to_be 8 m.size_bytes ++ []
  at_size =
      step_over buf (off + 8) (off + 8 + 8) (to_be 8 m.max_seq) (to_be 8 m.size_bytes)
        (omega (arith, length-to_be 8 m.max_seq)) at_max_seq
      ∙ sym (append-nil (to_be 8 m.size_bytes))

  decode_sstable_meta-payload : decode_sstable_meta buf ≡ ok m
  unfolding decode_sstable_meta payload
  decode_sstable_meta-payload = rw (read_u64_at buf 0 m.id _ f.id refl) (
      rw (read_u8_at buf 8 m.level _ (drop_first (to_be 8 m.id) _ (length-to_be 8 m.id))) (
        rw (read_sized_at buf 9 m.min_key _ f.min_key at_min_key) (
          rw (read_sized_at buf (9 + (4 + length m.min_key)) m.max_key _ f.max_key at_max_key) (
            rw (read_u64_at buf off m.min_seq _ f.min_seq at_seqs) (
              rw (read_u64_at buf (off + 8) m.max_seq _ f.max_seq at_max_seq)
                (rw (read_u64_at buf (off + 8 + 8) m.size_bytes _ f.size_bytes at_size) refl))))))

read_whole_u64 : (n : ℕ) → n < 2 ^ 64 → read_u64 (to_be 8 n) 0 ≡ ok n
read_whole_u64 n h = read_u64_at (to_be 8 n) 0 n [] h (sym (append-nil (to_be 8 n)))

pub decode_payload-payload :
    (r : ManifestRecord) → FitsManifest r → decode_payload (type_byte r) (payload r) ≡ ok r
unfolding decode_payload type_byte payload
decode_payload-payload (sstable_add m) f = rw (decode_sstable_meta-payload m f.0) refl
decode_payload-payload (sstable_remove n) f = rw (read_whole_u64 n f) refl
decode_payload-payload (seq_checkpoint n) f = rw (read_whole_u64 n f) refl
decode_payload-payload (wal_truncate n) f = rw (read_whole_u64 n f) refl
