-- ===== src/Frame/Tests.antt =====
-- Runs of the wire codecs, and the theorems at concrete messages.
use zydecodb.Prelude.{◌≡◌, refl, none, true, [], ◌∷◌, ◌++◌, replicate, arith, ◌||◌, false}
use zydecodb.Prelude.Bytes.{Bytes, to_be, from_be}
use zydecodb.Prelude.Slices.{slice}
use zydecodb.Errors.{ok, err, protocol}
use zydecodb.Errors.Status
use zydecodb.Frame.Command
use zydecodb.Frame.Command.{Command}
use zydecodb.Frame.Routing.{allowed_in_transaction}
use zydecodb.Frame.Envelope.{
  RequestEnvelope, encode_request, decode_request, encode_response, parse_request_header,
  parse_response_header, unknown, proto_version,
}
use zydecodb.Frame.Envelope.RoundTrip.{
  decode-encode_request, encode-decode_request, parse-encode_response, unknown_opcode,
}
use zydecodb.Frame.Payload.{PutPayload, KeyPayload, encode_put, decode_put, decode_key}
use zydecodb.Frame.Payload.RoundTrip.{FitsPut, FitsKey}
use zydecodb.Frame.Payload.Exact.{encode-decode_put}

abbrev request : RequestEnvelope
request = record { command = Command.put; payload = 1 ∷ 2 ∷ 3 ∷ [] }

abbrev wire : Bytes
wire = 1 ∷ 1 ∷ 0 ∷ 0 ∷ 0 ∷ 3 ∷ 1 ∷ 2 ∷ 3 ∷ 9 ∷ []

request_bytes : encode_request request ++ 9 ∷ [] ≡ wire
unfolding encode_request Command.as_u8 to_be
request_bytes = refl

wire_decodes : decode_request wire ≡ ok request
unfolding decode_request Command.from_u8 from_be slice
wire_decodes = refl

-- `truncated_payload_rejected`.
cut : decode_request (1 ∷ 1 ∷ 0 ∷ 0 ∷ 0 ∷ 4 ∷ 1 ∷ 2 ∷ []) ≡ err (protocol "truncated payload")
unfolding decode_request Command.from_u8 from_be slice
cut = refl

decode-encode_request_example : decode_request (encode_request request ++ 9 ∷ []) ≡ ok request
decode-encode_request_example = decode-encode_request request (9 ∷ []) (omega arith)

encode-decode_request_example : encode_request request ++ 9 ∷ [] ≡ wire
encode-decode_request_example = encode-decode_request wire request (omega arith) wire_decodes

parse-encode_response_example :
    parse_response_header
      (encode_response (record { status = Status.success; payload = 5 ∷ [] }) ++ [])
    ≡ ok (Status.success, 1)
parse-encode_response_example =
    parse-encode_response (record { status = Status.success; payload = 5 ∷ [] }) [] (omega arith)

not_a_command : Command.from_u8 0x99 ≡ none
unfolding Command.from_u8
not_a_command = refl

unknown_opcode_example :
    (parse_request_header (proto_version ∷ 0x99 ∷ (to_be 4 4 ++ [])) ≡ ok (unknown 0x99 4))
    × (decode_request (proto_version ∷ 0x99 ∷ (to_be 4 4 ++ [])) ≡ err (protocol "unknown command"))
unknown_opcode_example = unknown_opcode 0x99 4 [] (omega arith) not_a_command

abbrev put_payload : PutPayload
put_payload = record {
  routing_key = replicate 16 7;
  txid = 0;
  expires_at = 12345;
  key = 1 ∷ b'k' ∷ [];
  value = b'v' ∷ [];
}

put_fits : FitsPut put_payload
put_fits = omega arith

abbrev put_wire : Bytes
put_wire =
    replicate 16 7
    ++ (replicate 8 0
        ++ (replicate 6 0 ++ (48 ∷ 57 ∷ 0 ∷ 0 ∷ 0 ∷ 2 ∷ 0 ∷ 0 ∷ 0 ∷ 1 ∷ 1 ∷ b'k' ∷ b'v' ∷ [])))

put_wire_decodes : decode_put put_wire ≡ ok put_payload
unfolding decode_put from_be slice
put_wire_decodes = refl

encode-decode_put_example : FitsPut put_payload × (encode_put put_payload ≡ put_wire)
encode-decode_put_example = encode-decode_put put_wire (omega arith) put_payload put_wire_decodes

abbrev key_payload : KeyPayload
key_payload = record { routing_key = replicate 16 7; snapshot_seq = 0; key = 1 ∷ b'a' ∷ [] }

key_fits : FitsKey key_payload
key_fits = omega arith

abbrev key_wire : Bytes
key_wire = replicate 16 7 ++ (replicate 8 0 ++ (0 ∷ 0 ∷ 0 ∷ 2 ∷ 1 ∷ b'a' ∷ []))

key_wire_decodes : decode_key key_wire ≡ ok key_payload
unfolding decode_key from_be slice
key_wire_decodes = refl

allowed_in_transaction_example :
    ((Command.is_kv_command Command.get || Command.is_document_command Command.get) ≡ true)
    × (Command.is_transaction_command Command.get ≡ false)
allowed_in_transaction_example =
    allowed_in_transaction Command.get (unfold Command.is_transaction_allowed in refl)
