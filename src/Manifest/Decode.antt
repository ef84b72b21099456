-- ===== src/Manifest/Decode.antt =====
-- `ManifestRecord::decode_one` and `replay`, the latter as recursion on fuel.
use zydecodb.Prelude.{
  ℕ, zero, suc, ◌+◌, Option, none, some, length, take, drop, ltb, ◌==◌, not, if◌then◌else◌,
}
use zydecodb.Prelude.Bytes.{Bytes, from_be}
use zydecodb.Prelude.Slices.{slice, byte_at}
use zydecodb.Errors.{
  EngineResult, EngineError, ok, err, io, format_version, missing, bad_key, bad_value, busy,
  protocol, clash, rejected, not_authenticated, not_permitted, locked, other, ◌>>=◌,
}
use zydecodb.Manifest.{
  SstableMeta, ManifestRecord, sstable_add, sstable_remove, seq_checkpoint, wal_truncate,
  rec_sstable_add, rec_sstable_remove, rec_seq_checkpoint, rec_wal_truncate, ManifestState,
  no_state, apply,
}

-- `short`.
abbrev pub short : EngineError
short = io "manifest: short record payload"

-- `p.get(a..b).ok_or_else(short)?`.
unfoldable pub get_slice : ℕ → ℕ → Bytes → EngineResult Bytes
get_slice a b p = if ltb (length p) b then err short else ok (slice a b p)

-- `read_u64`.
unfoldable pub read_u64 : Bytes → ℕ → EngineResult ℕ
unfolding get_slice
read_u64 p off = get_slice off (off + 8) p >>= λ s. ok (from_be s)

-- `read_bytes`.
unfoldable pub read_sized : Bytes → ℕ → EngineResult (Bytes × ℕ)
unfolding get_slice
read_sized p off = get_slice off (off + 4) p >>= λ s.
    get_slice (off + 4) (off + 4 + from_be s) p >>= λ bytes. ok (bytes, 4 + from_be s)

-- `*p.get(off).ok_or_else(short)?`.
unfoldable pub read_u8 : Bytes → ℕ → EngineResult ℕ
read_u8 p off = if ltb off (length p) then ok (byte_at off p) else err short

-- `decode_sstable_meta`.
unfoldable pub decode_sstable_meta : Bytes → EngineResult SstableMeta
unfolding read_u64 read_sized read_u8
decode_sstable_meta p = read_u64 p 0 >>= λ id. read_u8 p 8 >>= λ level.
    read_sized p 9 >>= λ (min_key, n). read_sized p (9 + n) >>= λ (max_key, n').
    let off = 9 + n + n' in
    read_u64 p off >>= λ min_seq. read_u64 p (off + 8) >>= λ max_seq.
    read_u64 p (off + 8 + 8) >>= λ size_bytes. ok (record {
      id = id;
      level = level;
      min_key = min_key;
      max_key = max_key;
      min_seq = min_seq;
      max_seq = max_seq;
      size_bytes = size_bytes;
    })

-- `match rtype`.
unfoldable pub decode_payload : ℕ → Bytes → EngineResult ManifestRecord
unfolding decode_sstable_meta
decode_payload rtype p =
    if rtype == rec_sstable_add
    then (decode_sstable_meta p >>= λ m. ok (sstable_add m))
    else if rtype == rec_sstable_remove
    then (read_u64 p 0 >>= λ id. ok (sstable_remove id))
    else if rtype == rec_seq_checkpoint
    then (read_u64 p 0 >>= λ n. ok (seq_checkpoint n))
    else if rtype == rec_wal_truncate
    then (read_u64 p 0 >>= λ n. ok (wal_truncate n))
    else err (format_version "manifest: unknown record type")

module _ (crc32 : Bytes → ℕ) where
  -- `decode_one`.
  unfoldable pub decode_manifest : Bytes → EngineResult (Option (ManifestRecord × ℕ))
  unfolding decode_payload
  decode_manifest buf =
      let body_end = 5 + from_be (slice 1 5 buf) in
      if ltb (length buf) 5
      then ok none
      else if ltb (length buf) (body_end + 4)
      then ok none
      else if not (crc32 (take body_end buf) == from_be (slice body_end (body_end + 4) buf))
      then err (io "manifest: CRC mismatch")
      else (decode_payload (byte_at 0 buf) (slice 5 body_end buf) >>= λ r.
          ok (some (r, body_end + 4)))

  -- What `replay` makes of an error: a torn write ends the replay, any other error is its result.
  abbrev pub stopped : ManifestState → EngineError → EngineResult ManifestState
  stopped s e = elim e [
    | io _ ↦ ok s
    | missing ↦ err missing
    | bad_key m ↦ err (bad_key m)
    | bad_value m ↦ err (bad_value m)
    | busy m ↦ err (busy m)
    | protocol m ↦ err (protocol m)
    | clash ↦ err clash
    | rejected m ↦ err (rejected m)
    | format_version m ↦ err (format_version m)
    | not_authenticated m ↦ err (not_authenticated m)
    | not_permitted m ↦ err (not_permitted m)
    | locked m ↦ err (locked m)
    | other m ↦ err (other m)
  ]

  -- The loop of `replay`.
  unfoldable pub replay_manifest_from : ℕ → Bytes → ℕ → ManifestState → EngineResult ManifestState
  unfolding decode_manifest apply
  replay_manifest_from zero buf offset s = ok s
  replay_manifest_from (suc fuel) buf offset s =
      if ltb offset (length buf)
      then elim (decode_manifest (drop offset buf)) [
        | ok (some (r, consumed)) ↦ replay_manifest_from fuel buf (offset + consumed) (apply s r)
        | ok none ↦ ok s
        | err e ↦ stopped s e
      ]
      else ok s

  -- `replay`. Every round reads a byte at least.
  unfoldable pub replay_manifest : Bytes → EngineResult ManifestState
  unfolding replay_manifest_from
  replay_manifest buf = replay_manifest_from (length buf) buf 0 no_state
