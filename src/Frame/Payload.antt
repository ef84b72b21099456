-- ===== src/Frame/Payload.antt =====
-- The payloads of PUT and of GET and DEL.
pub mod RoundTrip
pub mod Exact
use zydecodb.Prelude.{
  ℕ, ◌≡◌, ◌<◌, ◌+◌, ◌^◌, List, ◌++◌, take, drop, length, ltb, ◌==◌, not, if◌then◌else◌, String,
}
use zydecodb.Prelude.Bytes.{Bytes, to_be, from_be}
use zydecodb.Prelude.Slices.{slice}
use zydecodb.Errors.{EngineResult, ok, err, protocol}

-- `struct PutPayload`; the routing key is a `[u8; 16]`.
pub record PutPayload : Type 0 where
  pub routing_key : Bytes
  pub txid : ℕ
  pub expires_at : ℕ
  pub key : Bytes
  pub value : Bytes

abbrev pub put_fixed : ℕ
put_fixed = 40

-- `PutPayload::encode`.
unfoldable pub encode_put : PutPayload → Bytes
encode_put p =
    p.routing_key
    ++ (to_be 8 p.txid
        ++ (to_be 8 p.expires_at
            ++ (to_be 4 (length p.key) ++ (to_be 4 (length p.value) ++ (p.key ++ p.value)))))

-- `PutPayload::decode`.
unfoldable pub decode_put : Bytes → EngineResult PutPayload
decode_put p =
    let key_len = from_be (slice 32 36 p) in
    let value_len = from_be (slice 36 40 p) in
    if ltb (length p) put_fixed
    then err (protocol "PUT payload too short")
    else if not (length p == put_fixed + key_len + value_len)
    then err (protocol "PUT payload length mismatch")
    else ok (record {
      routing_key = slice 0 16 p;
      txid = from_be (slice 16 24 p);
      expires_at = from_be (slice 24 32 p);
      key = slice put_fixed (put_fixed + key_len) p;
      value = drop (put_fixed + key_len) p;
    })

-- `struct KeyPayload`.
pub record KeyPayload : Type 0 where
  pub routing_key : Bytes
  pub snapshot_seq : ℕ
  pub key : Bytes

abbrev pub key_fixed : ℕ
key_fixed = 28

-- `KeyPayload::encode`.
unfoldable pub encode_key : KeyPayload → Bytes
encode_key p = p.routing_key ++ (to_be 8 p.snapshot_seq ++ (to_be 4 (length p.key) ++ p.key))

-- `KeyPayload::decode`.
unfoldable pub decode_key : Bytes → EngineResult KeyPayload
decode_key p =
    let key_len = from_be (slice 24 28 p) in
    if ltb (length p) key_fixed
    then err (protocol "key payload too short")
    else if not (length p == key_fixed + key_len)
    then err (protocol "key payload length mismatch")
    else ok (record {
      routing_key = slice 0 16 p;
      snapshot_seq = from_be (slice 16 24 p);
      key = drop key_fixed p;
    })
