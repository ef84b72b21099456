-- ===== src/Wal/Recovery.antt =====
-- What the replay of a segment makes of a log: of whole entries, of a cut-off end, and of an entry
-- whose stored CRC is wrong.
use zydecodb.Prelude.{
  ℕ, zero, suc, ◌+◌, ◌-◌, ◌^◌, ◌<◌, ◌≤◌, ◌≡◌, refl, sym, ap, ◌∙◌, none, some, List, [], ◌∷◌, ◌++◌,
  append_assoc, append-nil, length, length-append, lt→ltb, ltb-false, take, drop, drop-append,
  length-take, length-drop, All, arith, if◌then◌else◌,
}
use zydecodb.Prelude.Bytes.{Bytes}
use zydecodb.Prelude.Cursor.{step_over}
use zydecodb.Errors.{EngineError, ok, err}
use zydecodb.Wal.{WalEntry, encode_entry}
use zydecodb.Wal.Decode.{decode_one}
use zydecodb.Wal.Layout.{FitsEntry}
use zydecodb.Wal.Codec.{length-encode_entry, decode_one-encode_entry}
use zydecodb.Wal.Torn.{decode_one-take}
use zydecodb.Wal.Replay.{
  ReplayOutcome, clean, torn_tail, corruption, has_valid_record_after, push_record, replay_from,
  replay_segment_body,
}

module _ (crc32 : Bytes → ℕ) where
  -- The entries of a segment, one behind the other.
  unfoldable pub log_bytes : List WalEntry → Bytes
  log_bytes [] = []
  log_bytes (e ∷ es) = encode_entry crc32 e ++ log_bytes es

  abbrev pub push_all :
      List WalEntry → List WalEntry × ReplayOutcome → List WalEntry × ReplayOutcome
  push_all [] r = r
  push_all (e ∷ es) r = push_record crc32 e (push_all es r)

  pub round_entry :
      (fuel : ℕ) (body : Bytes) (offset : ℕ) (e : WalEntry) (consumed : ℕ)
      → offset < length body
      → decode_one crc32 (drop offset body) ≡ ok (some (e, consumed))
      → replay_from crc32 (suc fuel) body offset
        ≡ push_record crc32 e (replay_from crc32 fuel body (offset + consumed))
  unfolding replay_from
  round_entry fuel body offset e consumed h k = rw (lt→ltb offset (length body) h) (rw k refl)

  pub round_short :
      (fuel : ℕ) (body : Bytes) (offset : ℕ)
      → offset < length body
      → decode_one crc32 (drop offset body) ≡ ok none
      → replay_from crc32 (suc fuel) body offset ≡ ([], torn_tail)
  unfolding replay_from
  round_short fuel body offset h k = rw (lt→ltb offset (length body) h) (rw k refl)

  pub round_damaged :
      (fuel : ℕ) (body : Bytes) (offset : ℕ) (e : EngineError)
      → offset < length body
      → decode_one crc32 (drop offset body) ≡ err e
      → replay_from crc32 (suc fuel) body offset
        ≡ ([], if has_valid_record_after crc32 body offset then corruption else torn_tail)
  unfolding replay_from
  round_damaged fuel body offset e h k = rw (lt→ltb offset (length body) h) (rw k refl)

  pub round_end :
      (fuel : ℕ) (body : Bytes) (offset : ℕ)
      → length body ≤ offset
      → replay_from crc32 fuel body offset ≡ ([], clean)
  unfolding replay_from
  round_end zero body offset h = refl
  round_end (suc fuel) body offset h = rw (ltb-false offset (length body) h)

  pub length-log_bytes : (es : List WalEntry) → length es ≤ length (log_bytes es)
  unfolding log_bytes
  length-log_bytes [] = omega arith
  length-log_bytes (e ∷ es) = omega (
    arith,
    length-log_bytes es,
    length-append (encode_entry crc32 e) (log_bytes es),
    length-encode_entry crc32 e,
  )

  module _ (crc32_lt : (b : Bytes) → crc32 b < 2 ^ 32) where
    -- The rounds over whole entries.
    replay_whole :
        (es : List WalEntry) (fuel : ℕ) (body tail : Bytes) (offset : ℕ)
        → All FitsEntry es
        → offset ≤ length body
        → drop offset body ≡ log_bytes es ++ tail
        → replay_from crc32 (length es + fuel) body offset
          ≡ push_all es (replay_from crc32 fuel body (offset + length (log_bytes es)))
    unfolding log_bytes
    replay_whole [] fuel body tail offset f h here =
        ap (λ (n : ℕ). replay_from crc32 n body offset) {x = 0 + fuel} {y = fuel} (omega arith)
        ∙ ap (λ (n : ℕ). replay_from crc32 fuel body n) {x = offset} {y = offset + 0} (omega arith)
    replay_whole (e ∷ es) fuel body tail offset f h here =
        let bytes = encode_entry crc32 e in
        let here' : drop offset body ≡ bytes ++ (log_bytes es ++ tail) =
          here ∙ append_assoc bytes (log_bytes es) tail in
        let decoded =
          ap (decode_one crc32) here'
          ∙ decode_one-encode_entry crc32 crc32_lt e (log_bytes es ++ tail) f.0 in
        let size : length body - offset ≡ length bytes + length (log_bytes es ++ tail) = omega (
          arith,
          length-drop offset body,
          ap (λ (l : Bytes). length l) here',
          length-append bytes (log_bytes es ++ tail),
        ) in
        let positive = length-encode_entry crc32 e in
        let next : drop (offset + length bytes) body ≡ log_bytes es ++ tail =
          step_over body offset (offset + length bytes) bytes (log_bytes es ++ tail) refl here' in
        ap (λ (n : ℕ). replay_from crc32 n body offset) {x = suc (length es) + fuel}
          {y = suc (length es + fuel)} (omega arith)
        ∙ round_entry (length es + fuel) body offset e (length bytes) (omega arith) decoded
        ∙ ap (push_record crc32 e) (
            replay_whole es fuel body tail (offset + length bytes) f.1 (omega arith) next
            ∙ ap (λ (n : ℕ). push_all es (replay_from crc32 fuel body n))
                {x = offset + length bytes + length (log_bytes es)}
                {y = offset + length (bytes ++ log_bytes es)}
                (omega (arith, length-append bytes (log_bytes es))))

    push_all-nil : (es : List WalEntry) (o : ReplayOutcome) → push_all es ([], o) ≡ (es, o)
    push_all-nil [] o = refl
    push_all-nil (e ∷ es) o = ap (push_record crc32 e) (push_all-nil es o)

    -- The replay of whole entries and a tail, by the round that stops at the tail.
    pub replay_stops :
        (es : List WalEntry) (tail : Bytes) (o : ReplayOutcome)
        → All FitsEntry es
        → ((fuel : ℕ)
            → length es + fuel ≡ length (log_bytes es ++ tail)
            → replay_from crc32 fuel (log_bytes es ++ tail) (length (log_bytes es)) ≡ ([], o))
        → replay_segment_body crc32 (log_bytes es ++ tail) ≡ (es, o)
    unfolding replay_segment_body
    replay_stops es tail o f stops =
        let body = log_bytes es ++ tail in
        let fuel = length body - length es in
        let size : length es + fuel ≡ length body =
          omega (arith, length-log_bytes es, length-append (log_bytes es) tail) in
        ap (λ (n : ℕ). replay_from crc32 n body 0) (sym size)
        ∙ replay_whole es fuel body tail 0 f (omega arith) refl
        ∙ ap (push_all es) (
            ap (λ (n : ℕ). replay_from crc32 fuel body n) {x = 0 + length (log_bytes es)}
              {y = length (log_bytes es)} (omega arith)
            ∙ stops fuel size)
        ∙ push_all-nil es o

    -- Replaying the bytes of a list of entries gives exactly those entries, in their order, and
    -- reports a clean end, if their fields fit their types and the CRC has 32 bits.
    pub replay_segment_body-log_bytes :
        (es : List WalEntry)
        → All FitsEntry es
        → replay_segment_body crc32 (log_bytes es) ≡ (es, clean)
    replay_segment_body-log_bytes es f =
        ap (replay_segment_body crc32) (sym (append-nil (log_bytes es)))
        ∙ replay_stops es [] clean f (λ fuel _.
          round_end fuel (log_bytes es ++ []) (length (log_bytes es))
            (omega (arith, length-append (log_bytes es) [])))

    -- The round that meets a tail which is not empty.
    pub stops_at :
        (es : List WalEntry) (tail : Bytes) (r : List WalEntry × ReplayOutcome)
        → 0 < length tail
        → ((fuel : ℕ)
            → length (log_bytes es) < length (log_bytes es ++ tail)
            → replay_from crc32 (suc fuel) (log_bytes es ++ tail) (length (log_bytes es)) ≡ r)
        → (fuel : ℕ) → length es + fuel ≡ length (log_bytes es ++ tail)
        → replay_from crc32 fuel (log_bytes es ++ tail) (length (log_bytes es)) ≡ r
    stops_at es tail r h k zero size =
        absurd (omega (arith, length-log_bytes es, length-append (log_bytes es) tail))
    stops_at es tail r h k (suc fuel) size =
        k fuel (omega (arith, length-append (log_bytes es) tail))

    -- If a crash cuts off the last entry of a log anywhere behind its first byte, the replay gives
    -- exactly the entries before it, and reports a torn tail: of an entry that was not written
    -- whole nothing is replayed, and nothing before it is lost. In particular a batch is replayed
    -- with all its operations or with none.
    pub replay_segment_body-torn :
        (es : List WalEntry) (e : WalEntry) (n : ℕ)
        → All FitsEntry es
        → FitsEntry e
        → 0 < n
        → n < length (encode_entry crc32 e)
        → replay_segment_body crc32 (log_bytes es ++ take n (encode_entry crc32 e))
          ≡ (es, torn_tail)
    replay_segment_body-torn es e n fs f h k =
        let tail = take n (encode_entry crc32 e) in
        replay_stops es tail torn_tail fs (
          stops_at es tail ([], torn_tail) (omega (arith, length-take n (encode_entry crc32 e)))
            (λ fuel within. round_short fuel (log_bytes es ++ tail) (length (log_bytes es)) within (
              ap (decode_one crc32) (drop-append (log_bytes es) tail)
              ∙ decode_one-take crc32 e n f k)))
