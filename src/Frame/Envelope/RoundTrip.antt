-- ===== src/Frame/Envelope/RoundTrip.antt =====
-- What is encoded is decoded, and nothing else is accepted.
use zydecodb.Prelude.{
  ℕ, ◌≡◌, ◌<◌, ◌≤◌, ◌+◌, ◌^◌, refl, sym, ap, ◌∙◌, none, [], ◌∷◌, ◌++◌, take, drop, length,
  length-append, length-take, take-append, ltb-false, arith, append_assoc, take-append-drop, inl,
  inr,
}
use zydecodb.Prelude.Bytes.{Bytes, IsBytes, to_be, from_be, from_be-to_be, length-to_be}
use zydecodb.Prelude.Slices.{
  slice, slice_first, drop_first, slice-append-drop, to_be-slice, drop-drop,
}
use zydecodb.Errors.{ok, err, protocol, result_cases}
use zydecodb.Errors.Status
use zydecodb.Errors.Codes as StatusCodes
use zydecodb.Frame.Command
use zydecodb.Frame.Command.{Command}
use zydecodb.Frame.Codes as CommandCodes
use zydecodb.Frame.Envelope.{
  RequestEnvelope, ResponseEnvelope, encode_request, decode_request, parse_header,
  parse_request_header, encode_response, parse_response_header, unknown, proto_version,
  known_or_unknown,
}

-- The length field of a header, in front of a payload.
length_field :
    (c n : ℕ) (rest : Bytes)
    → n < 2 ^ 32
    → from_be (slice 2 6 (proto_version ∷ c ∷ (to_be 4 n ++ rest))) ≡ n
unfolding slice
length_field c n rest h =
    ap from_be (slice_first (to_be 4 n) rest (length-to_be 4 n)) ∙ from_be-to_be 4 n h

header_length : (c n : ℕ) (rest : Bytes) → 6 ≤ length (proto_version ∷ c ∷ (to_be 4 n ++ rest))
header_length c n rest = omega (arith, length-append (to_be 4 n) rest, length-to_be 4 n)

-- A header in front of any bytes is parsed to its code and its length.
parsed :
    (c n : ℕ) (rest : Bytes)
    → n < 2 ^ 32
    → parse_request_header (proto_version ∷ c ∷ (to_be 4 n ++ rest))
      ≡ ok (known_or_unknown (Command.from_u8 c) c n)
unfolding parse_request_header
parsed c n rest h =
    rw (ltb-false _ 6 (header_length c n rest))
      (ap (λ (k : ℕ). ok (known_or_unknown (Command.from_u8 c) c k)) (length_field c n rest h))

-- The payload that a length field announces is taken from what follows the header.
body_length : (n : ℕ) (payload rest : Bytes) → length payload ≡ n → n ≤ length (payload ++ rest)
body_length n payload rest e = omega (arith, length-append payload rest)

body_taken :
    (n : ℕ) (payload rest : Bytes) → length payload ≡ n → take n (payload ++ rest) ≡ payload
body_taken n payload rest e =
    ap (λ (k : ℕ). take k (payload ++ rest)) (sym e) ∙ take-append payload rest

-- A request whose payload fits a 32-bit length is decoded as it was encoded, whatever follows it.
pub decode-encode_request :
    (r : RequestEnvelope) (rest : Bytes)
    → length r.payload < 2 ^ 32
    → decode_request (encode_request r ++ rest) ≡ ok r
unfolding decode_request encode_request
decode-encode_request r rest h =
    let n = length r.payload in
    rw (append_assoc (to_be 4 n) r.payload rest) (
      rw (parsed (Command.as_u8 r.command) n (r.payload ++ rest) h) (
        rw (CommandCodes.from_u8-as_u8 r.command) (
          rw (drop_first (to_be 4 n) (r.payload ++ rest) (length-to_be 4 n)) (
            rw (ltb-false _ n (body_length n r.payload rest refl))
              (rw (body_taken n r.payload rest refl))))))

header_facts :
    (x y : ℕ) (t : Bytes) (c : Command) (n : ℕ)
    → parse_header (x ∷ y ∷ t) ≡ ok (c, n)
    → (4 ≤ length t)
      × (x ≡ proto_version)
      × (Command.as_u8 c ≡ y)
      × (from_be (slice 2 6 (x ∷ y ∷ t)) ≡ n)
unfolding parse_header
header_facts x y t c n h = ground (arith, CommandCodes.as_u8_of_from_u8 y c)

-- What `parse_header` accepts begins with the bytes that the encoder writes.
accepted :
    (buf : Bytes) (c : Command) (n : ℕ)
    → IsBytes buf
    → parse_header buf ≡ ok (c, n)
    → (6 ≤ length buf) × (buf ≡ proto_version ∷ Command.as_u8 c ∷ (to_be 4 n ++ drop 6 buf))
unfolding parse_header
accepted [] c n b h = cc
accepted (x ∷ []) c n b h = ground arith
accepted (x ∷ y ∷ t) c n b h =
    let (len, version, code, field) = header_facts x y t c n h in
    let word = to_be-slice 2 6 4 (x ∷ y ∷ t) b (omega arith) (omega arith) in
    let rest = slice-append-drop 2 6 (x ∷ y ∷ t) (omega arith) in (omega arith, cc)

request_parts :
    (buf : Bytes) (r : RequestEnvelope)
    → decode_request buf ≡ ok r
    → (n : ℕ) × (parse_header buf ≡ ok (r.command, n))
      × (n ≤ length (drop 6 buf))
      × (r.payload ≡ take n (drop 6 buf))
unfolding decode_request
request_parts buf r h = elim (result_cases (parse_header buf)) [
  | inl (p, e) ↦ (p.1, ground arith, ground arith, ground arith)
  | inr (x, e) ↦ absurd (ground arith)
]

-- What `decode` accepts is what the encoder writes for its result, followed by the bytes that are
-- left over: no two requests have a common encoding, and a cut one is refused.
pub encode-decode_request :
    (buf : Bytes) (r : RequestEnvelope)
    → IsBytes buf
    → decode_request buf ≡ ok r
    → encode_request r ++ drop (6 + length r.payload) buf ≡ buf
unfolding encode_request
encode-decode_request buf r b h =
    let (n, header, fits, payload) = request_parts buf r h in
    let (len, start) = accepted buf r.command n b header in
    let size : length r.payload ≡ n =
      omega (arith, ap (λ (l : Bytes). length l) payload, length-take n (drop 6 buf)) in
    rw (append_assoc (to_be 4 (length r.payload)) r.payload (drop (6 + length r.payload) buf))
      (rw size (rw (payload, ← drop-drop n 6 buf, take-append-drop n (drop 6 buf)) (sym start)))

-- The reader of a response finds the status that was sent and the length of the payload, whatever
-- the payload and what follows.
pub parse-encode_response :
    (r : ResponseEnvelope) (rest : Bytes)
    → length r.payload < 2 ^ 32
    → parse_response_header (encode_response r ++ rest) ≡ ok (r.status, length r.payload)
unfolding parse_response_header encode_response
parse-encode_response r rest h =
    let n = length r.payload in
    rw (append_assoc (to_be 4 n) r.payload rest) (
      rw (ltb-false _ 6 (header_length (Status.as_u8 r.status) n (r.payload ++ rest))) (
        rw (StatusCodes.from_u8-as_u8 r.status) (
          ap (λ (k : ℕ). ok (r.status, k))
            (length_field (Status.as_u8 r.status) n (r.payload ++ rest) h))))

-- The client's parser and the server's read the framing alike: a header with an opcode that is no
-- command keeps its length, so the payload can be skipped, and the strict parser refuses it.
pub unknown_opcode :
    (c n : ℕ) (rest : Bytes)
    → n < 2 ^ 32
    → Command.from_u8 c ≡ none
    → (parse_request_header (proto_version ∷ c ∷ (to_be 4 n ++ rest)) ≡ ok (unknown c n))
      × (decode_request (proto_version ∷ c ∷ (to_be 4 n ++ rest))
          ≡ err (protocol "unknown command"))
unfolding decode_request
unknown_opcode c n rest h e =
    let p : parse_request_header (proto_version ∷ c ∷ (to_be 4 n ++ rest)) ≡ ok (unknown c n) =
      rw (parsed c n rest h, e) refl in
    (p, rw p)
