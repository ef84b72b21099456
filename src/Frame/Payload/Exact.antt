-- ===== src/Frame/Payload/Exact.antt =====
-- The decoders accept only what the encoders write: the other direction of the round trip.
use zydecodb.Prelude.{ℕ, ◌≡◌, ◌≤◌, ◌+◌, ap, ◌∙◌, ◌++◌, drop, length, length-drop, arith}
use zydecodb.Prelude.Bytes.{Bytes, IsBytes, to_be, from_be}
use zydecodb.Prelude.Slices.{slice, slice-append-drop, to_be-slice, from_be-slice-lt, length-slice}
use zydecodb.Errors.{ok}
use zydecodb.Frame.Payload.{PutPayload, encode_put, decode_put, KeyPayload, encode_key, decode_key}
use zydecodb.Frame.Payload.RoundTrip.{FitsKey, FitsPut}

-- A word in the middle of a string, with what follows it.
pub word_and_rest :
    (a b w : ℕ) (p : Bytes)
    → IsBytes p
    → b ≤ length p
    → a + w ≡ b
    → to_be w (from_be (slice a b p)) ++ drop b p ≡ drop a p
word_and_rest a b w p bytes h e =
    ap (λ (l : Bytes). l ++ drop b p) (to_be-slice a b w p bytes h e)
    ∙ slice-append-drop a b p (omega arith)

module _ (b : Bytes) (bytes : IsBytes b) where
  key_parts :
      (p : KeyPayload)
      → decode_key b ≡ ok p
      → (28 ≤ length b)
        × (length b ≡ 28 + from_be (slice 24 28 b))
        × (p.routing_key ≡ slice 0 16 b)
        × (p.snapshot_seq ≡ from_be (slice 16 24 b))
        × (p.key ≡ drop 28 b)
  unfolding decode_key
  key_parts p h = ground arith

  -- The key payload that `decode` accepts fits its types, and encodes to the very same bytes.
  pub encode-decode_key : (p : KeyPayload) → decode_key b ≡ ok p → FitsKey p × (encode_key p ≡ b)
  unfolding encode_key
  encode-decode_key p h =
      let (long, total, routing, seq, key) = key_parts p h in
      let key_len : length p.key ≡ from_be (slice 24 28 b) =
        omega (arith, ap (λ (l : Bytes). length l) key, length-drop 28 b) in
      let width = from_be-slice-lt 24 28 4 b bytes (omega arith) (omega arith) in
      (
        record {
          routing =
              ap (λ (l : Bytes). length l) routing
              ∙ length-slice 0 16 b (omega arith) (omega arith);
          seq = rw seq (from_be-slice-lt 16 24 8 b bytes (omega arith) (omega arith));
          key_len = omega arith;
        },
        rw key_len (
            rw (routing, seq, key)
              (rw (word_and_rest 24 28 4 b bytes (omega arith) (omega arith)) (
                rw (word_and_rest 16 24 8 b bytes (omega arith) (omega arith))
                  (slice-append-drop 0 16 b (omega arith))))),
      )

  put_parts :
      (p : PutPayload)
      → decode_put b ≡ ok p
      → (40 ≤ length b)
        × (length b ≡ 40 + from_be (slice 32 36 b) + from_be (slice 36 40 b))
        × (p.routing_key ≡ slice 0 16 b)
        × (p.txid ≡ from_be (slice 16 24 b))
        × (p.expires_at ≡ from_be (slice 24 32 b))
        × (p.key ≡ slice 40 (40 + from_be (slice 32 36 b)) b)
        × (p.value ≡ drop (40 + from_be (slice 32 36 b)) b)
  unfolding decode_put
  put_parts p h = ground arith

  -- The PUT payload that `decode` accepts fits its types, and encodes to the very same bytes.
  pub encode-decode_put : (p : PutPayload) → decode_put b ≡ ok p → FitsPut p × (encode_put p ≡ b)
  unfolding encode_put
  encode-decode_put p h =
      let (long, total, routing, txid, expires, key, value) = put_parts p h in
      let n = from_be (slice 32 36 b) in
      let key_len : length p.key ≡ n =
        ap (λ (l : Bytes). length l) key
        ∙ length-slice 40 (40 + n) b (omega arith) (omega arith)
        ∙ omega arith in
      let value_len : length p.value ≡ from_be (slice 36 40 b) =
        omega (arith, ap (λ (l : Bytes). length l) value, length-drop (40 + n) b) in
      let key_width = from_be-slice-lt 32 36 4 b bytes (omega arith) (omega arith) in
      let value_width = from_be-slice-lt 36 40 4 b bytes (omega arith) (omega arith) in
      (
        record {
          routing =
              ap (λ (l : Bytes). length l) routing
              ∙ length-slice 0 16 b (omega arith) (omega arith);
          txid = rw txid (from_be-slice-lt 16 24 8 b bytes (omega arith) (omega arith));
          expires_at = rw expires (from_be-slice-lt 24 32 8 b bytes (omega arith) (omega arith));
          key_len = omega arith;
          value_len = omega arith;
        },
        rw (key_len, value_len)
            (rw (routing, txid, expires, key, value)
              (rw (slice-append-drop 40 (40 + n) b (omega arith)) (
                rw (word_and_rest 36 40 4 b bytes (omega arith) (omega arith)) (
                  rw (word_and_rest 32 36 4 b bytes (omega arith) (omega arith)) (
                    rw (word_and_rest 24 32 8 b bytes (omega arith) (omega arith)) (
                      rw (word_and_rest 16 24 8 b bytes (omega arith) (omega arith))
                        (slice-append-drop 0 16 b (omega arith)))))))),
      )
