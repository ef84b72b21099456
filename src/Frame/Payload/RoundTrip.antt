-- ===== src/Frame/Payload/RoundTrip.antt =====
-- The payload codecs are inverse to one another, in both directions.
use zydecodb.Prelude.{
  ℕ, ◌≡◌, ◌<◌, ◌≤◌, ◌+◌, ◌-◌, ◌^◌, refl, sym, ap, ap₂, ◌∙◌, ◌++◌, take, drop, length, length-append,
  ltb-false, ==_refl, arith,
}
use zydecodb.Prelude.Bytes.{Bytes, to_be, from_be, length-to_be}
use zydecodb.Prelude.Slices.{
  slice, slice_first, slice_past, drop_first, drop_past, drop-drop, word_first,
}
use zydecodb.Errors.{ok}
use zydecodb.Frame.Payload.{PutPayload, encode_put, decode_put, KeyPayload, encode_key, decode_key}

-- What the fields' Rust types and the casts of the lengths ask.
pub record FitsKey (p : KeyPayload) : Type 0 where
  pub routing : length p.routing_key ≡ 16
  pub seq : p.snapshot_seq < 2 ^ 64
  pub key_len : length p.key < 2 ^ 32

-- What the fields' Rust types and the casts of the lengths ask.
pub record FitsPut (p : PutPayload) : Type 0 where
  pub routing : length p.routing_key ≡ 16
  pub txid : p.txid < 2 ^ 64
  pub expires_at : p.expires_at < 2 ^ 64
  pub key_len : length p.key < 2 ^ 32
  pub value_len : length p.value < 2 ^ 32

module _ (p : KeyPayload) (f : FitsKey p) where
  abbrev key_words : Bytes
  key_words = to_be 8 p.snapshot_seq ++ (to_be 4 (length p.key) ++ p.key)

  length-key_words : length (p.routing_key ++ key_words) ≡ 28 + length p.key
  length-key_words = omega (
    arith,
    length-append p.routing_key key_words,
    length-append (to_be 8 p.snapshot_seq) (to_be 4 (length p.key) ++ p.key),
    length-append (to_be 4 (length p.key)) p.key,
    length-to_be 8 p.snapshot_seq,
    length-to_be 4 (length p.key),
  )

  past_key_routing :
      (a b : ℕ)
      → 16 ≤ a
      → slice a b (p.routing_key ++ key_words) ≡ slice (a - 16) (b - 16) key_words
  past_key_routing a b h = slice_past p.routing_key key_words f.routing a b h

  key_len_word : from_be (slice 24 28 (p.routing_key ++ key_words)) ≡ length p.key
  key_len_word =
      ap from_be (
        past_key_routing 24 28 (omega arith)
        ∙ slice_past (to_be 8 p.snapshot_seq) (to_be 4 (length p.key) ++ p.key)
            (length-to_be 8 p.snapshot_seq) 8 12 (omega arith))
      ∙ word_first 4 (length p.key) p.key f.key_len

  seq_word : from_be (slice 16 24 (p.routing_key ++ key_words)) ≡ p.snapshot_seq
  seq_word =
      ap from_be (past_key_routing 16 24 (omega arith))
      ∙ word_first 8 p.snapshot_seq (to_be 4 (length p.key) ++ p.key) f.seq

  key_rest : drop 28 (p.routing_key ++ key_words) ≡ p.key
  key_rest =
      drop_past p.routing_key key_words f.routing 28 (omega arith)
      ∙ drop_past (to_be 8 p.snapshot_seq) (to_be 4 (length p.key) ++ p.key)
          (length-to_be 8 p.snapshot_seq) 12 (omega arith)
      ∙ drop_first (to_be 4 (length p.key)) p.key (length-to_be 4 (length p.key))

  -- A GET or DEL payload whose fields fit their types is decoded as it was encoded.
  pub decode-encode_key : decode_key (encode_key p) ≡ ok p
  unfolding decode_key encode_key
  decode-encode_key =
      rw (ltb-false (length (p.routing_key ++ key_words)) 28 (omega (arith, length-key_words))) (
        rw (key_len_word, length-key_words, ==_refl)
          (rw (seq_word, key_rest, slice_first p.routing_key key_words f.routing)))

module _ (p : PutPayload) (f : FitsPut p) where
  abbrev tail4 : Bytes
  tail4 = to_be 4 (length p.value) ++ (p.key ++ p.value)

  abbrev tail3 : Bytes
  tail3 = to_be 4 (length p.key) ++ tail4

  abbrev tail2 : Bytes
  tail2 = to_be 8 p.expires_at ++ tail3

  abbrev tail1 : Bytes
  tail1 = to_be 8 p.txid ++ tail2

  abbrev whole : Bytes
  whole = p.routing_key ++ tail1

  length-whole : length whole ≡ 40 + length p.key + length p.value
  length-whole = omega (
    arith,
    length-append p.routing_key tail1,
    length-append (to_be 8 p.txid) tail2,
    length-append (to_be 8 p.expires_at) tail3,
    length-append (to_be 4 (length p.key)) tail4,
    length-append (to_be 4 (length p.value)) (p.key ++ p.value),
    length-append p.key p.value,
    length-to_be 8 p.txid,
    length-to_be 8 p.expires_at,
    length-to_be 4 (length p.key),
    length-to_be 4 (length p.value),
  )

  past_routing : (a b : ℕ) → 16 ≤ a → slice a b whole ≡ slice (a - 16) (b - 16) tail1
  past_routing a b h = slice_past p.routing_key tail1 f.routing a b h

  past_txid : (a b : ℕ) → 8 ≤ a → slice a b tail1 ≡ slice (a - 8) (b - 8) tail2
  past_txid a b h = slice_past (to_be 8 p.txid) tail2 (length-to_be 8 p.txid) a b h

  past_expires : (a b : ℕ) → 8 ≤ a → slice a b tail2 ≡ slice (a - 8) (b - 8) tail3
  past_expires a b h = slice_past (to_be 8 p.expires_at) tail3 (length-to_be 8 p.expires_at) a b h

  past_key_len : (a b : ℕ) → 4 ≤ a → slice a b tail3 ≡ slice (a - 4) (b - 4) tail4
  past_key_len a b h =
      slice_past (to_be 4 (length p.key)) tail4 (length-to_be 4 (length p.key)) a b h

  txid_word : from_be (slice 16 24 whole) ≡ p.txid
  txid_word = ap from_be (past_routing 16 24 (omega arith)) ∙ word_first 8 p.txid tail2 f.txid

  expires_word : from_be (slice 24 32 whole) ≡ p.expires_at
  expires_word =
      ap from_be (past_routing 24 32 (omega arith) ∙ past_txid 8 16 (omega arith))
      ∙ word_first 8 p.expires_at tail3 f.expires_at

  key_len_field : from_be (slice 32 36 whole) ≡ length p.key
  key_len_field =
      ap from_be (
        past_routing 32 36 (omega arith)
        ∙ past_txid 16 20 (omega arith)
        ∙ past_expires 8 12 (omega arith))
      ∙ word_first 4 (length p.key) tail4 f.key_len

  value_len_field : from_be (slice 36 40 whole) ≡ length p.value
  value_len_field =
      ap from_be (
        past_routing 36 40 (omega arith)
        ∙ past_txid 20 24 (omega arith)
        ∙ past_expires 12 16 (omega arith)
        ∙ past_key_len 4 8 (omega arith))
      ∙ word_first 4 (length p.value) (p.key ++ p.value) f.value_len

  after_header : (n : ℕ) → drop (40 + n) whole ≡ drop n (p.key ++ p.value)
  after_header n =
      sym (drop-drop n 40 whole)
      ∙ ap (λ (l : Bytes). drop n l)
          (drop_past p.routing_key tail1 f.routing 40 (omega arith)
            ∙ drop_past (to_be 8 p.txid) tail2 (length-to_be 8 p.txid) 24 (omega arith)
            ∙ drop_past (to_be 8 p.expires_at) tail3 (length-to_be 8 p.expires_at) 16 (omega arith)
            ∙ drop_past (to_be 4 (length p.key)) tail4 (length-to_be 4 (length p.key)) 8
                (omega arith)
            ∙ drop_first (to_be 4 (length p.value)) (p.key ++ p.value)
                (length-to_be 4 (length p.value)))

  key_field : slice 40 (40 + length p.key) whole ≡ p.key
  unfolding slice
  key_field =
      ap₂ (λ (k : ℕ) (l : Bytes). take k l) {x = 40 + length p.key - 40} {y = length p.key - 0}
        (omega arith) (after_header 0)
      ∙ slice_first p.key p.value refl

  -- A PUT payload whose fields fit their types is decoded as it was encoded.
  pub decode-encode_put : decode_put (encode_put p) ≡ ok p
  unfolding decode_put encode_put
  decode-encode_put = rw (ltb-false (length whole) 40 (omega (arith, length-whole))) (
      rw (key_len_field, value_len_field, length-whole, ==_refl)
        (rw (
          txid_word,
          expires_word,
          key_field,
          after_header (length p.key),
          slice_first p.routing_key tail1 f.routing,
          drop_first p.key p.value refl,
        )))
