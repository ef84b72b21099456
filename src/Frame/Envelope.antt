-- ===== src/Frame/Envelope.antt =====
-- The request and response envelopes: version, code, length, payload.
pub mod RoundTrip
use zydecodb.Prelude.{
  ℕ, ◌≡◌, ◌<◌, ◌+◌, ◌^◌, Option, none, some, List, [], ◌∷◌, ◌++◌, take, drop, length, ltb, ◌==◌,
  not, if◌then◌else◌, String,
}
use zydecodb.Prelude.Bytes.{Bytes, to_be, from_be}
use zydecodb.Prelude.Slices.{slice, byte_at}
use zydecodb.Errors.{EngineResult, ok, err, protocol, ◌>>=◌}
use zydecodb.Errors.Status
use zydecodb.Frame.Command
use zydecodb.Frame.Command.{Command}

abbrev pub proto_version : ℕ
proto_version = 0x01

abbrev pub envelope_header_len : ℕ
envelope_header_len = 6

-- `struct RequestEnvelope`.
pub record RequestEnvelope : Type 0 where
  pub command : Command
  pub payload : Bytes

-- `enum RequestHeader`.
pub data RequestHeader : Type 0 where
  known : Command → ℕ → RequestHeader
  unknown : ℕ → ℕ → RequestHeader

-- `RequestEnvelope::encode`; `len() as u32` keeps the low 32 bits.
unfoldable pub encode_request : RequestEnvelope → Bytes
encode_request r =
    proto_version ∷ Command.as_u8 r.command ∷ (to_be 4 (length r.payload) ++ r.payload)

known_or_unknown : Option Command → ℕ → ℕ → RequestHeader
known_or_unknown (some command) opcode len = known command len
known_or_unknown none opcode len = unknown opcode len

-- `parse_request_header`.
unfoldable pub parse_request_header : Bytes → EngineResult RequestHeader
unfolding known_or_unknown
parse_request_header header =
    if ltb (length header) envelope_header_len
    then err (protocol "short header")
    else if not (byte_at 0 header == proto_version)
    then err (protocol "unsupported protocol version")
    else ok (
        known_or_unknown (Command.from_u8 (byte_at 1 header)) (byte_at 1 header)
          (from_be (slice 2 6 header)))

only_known : RequestHeader → EngineResult (Command × ℕ)
only_known (known command len) = ok (command, len)
only_known (unknown opcode len) = err (protocol "unknown command")

-- `RequestEnvelope::parse_header`.
unfoldable pub parse_header : Bytes → EngineResult (Command × ℕ)
unfolding only_known parse_request_header
parse_header header = do h ← parse_request_header header; only_known h

-- `RequestEnvelope::decode`.
unfoldable pub decode_request : Bytes → EngineResult RequestEnvelope
unfolding parse_header
decode_request buf = do
  (command, len) ← parse_header buf
  let body = drop envelope_header_len buf
  if ltb (length body) len
      then err (protocol "truncated payload")
      else ok (record { command = command; payload = take len body })

-- `struct ResponseEnvelope`.
pub record ResponseEnvelope : Type 0 where
  pub status : Status.Status
  pub payload : Bytes

-- `ResponseEnvelope::encode`.
unfoldable pub encode_response : ResponseEnvelope → Bytes
encode_response r =
    proto_version ∷ Status.as_u8 r.status ∷ (to_be 4 (length r.payload) ++ r.payload)

with_len : Option Status.Status → ℕ → EngineResult (Status.Status × ℕ)
with_len (some status) len = ok (status, len)
with_len none len = err (protocol "unknown status")

-- `ResponseEnvelope::parse_header`.
unfoldable pub parse_response_header : Bytes → EngineResult (Status.Status × ℕ)
unfolding with_len
parse_response_header header =
    if ltb (length header) envelope_header_len
    then err (protocol "short response header")
    else if not (byte_at 0 header == proto_version)
    then err (protocol "bad response version")
    else with_len (Status.from_u8 (byte_at 1 header)) (from_be (slice 2 6 header))
