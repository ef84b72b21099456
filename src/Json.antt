-- ===== src/Json.antt =====
-- `serde_json::Value`, as crates/zydecodb-document sees it. serde_json is a dependency: its numbers
-- are a parameter, of which the code asks `as_f64` only. A string is its UTF-8 bytes, and a map is
-- the list of its entries.
use zydecodb.Prelude.{Bool}
use zydecodb.Prelude.Bytes.{Bytes}

mutual
  pub data Value (N : Type 0) : Type 0 where
    null : Value N
    boolean : Bool → Value N
    number : N → Value N
    string : Bytes → Value N
    array : Items N → Value N
    object : Fields N → Value N

  pub data Items (N : Type 0) : Type 0 where
    nil : Items N
    cons : Value N → Items N → Items N

  pub data Fields (N : Type 0) : Type 0 where
    end : Fields N
    field : Bytes → Value N → Fields N → Fields N
