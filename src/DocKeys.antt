-- ===== src/DocKeys.antt =====
-- crates/zydecodb-document/src/keys.rs: the layout of document and index keys, and the upper bound
-- of a prefix scan.
pub mod Scan
pub mod Layout
pub mod Parse
mod Tests
use zydecodb.Prelude.{
  ℕ, zero, suc, ◌+◌, ◌-◌, Bool, true, false, Option, none, some, List, [], ◌∷◌, ◌++◌, reverse,
  length, take, drop, ltb, ◌==◌, if◌then◌else◌, not, ◌||◌,
}
use zydecodb.Prelude.Bytes.{Bytes, to_be, from_be}
use zydecodb.Prelude.Slices.{slice, byte_at}
use zydecodb.Encoding.{try_decode_fields}

abbrev pub rec_doc : ℕ
rec_doc = b'd'

abbrev pub rec_index : ℕ
rec_index = b'i'

-- `doc_prefix`.
unfoldable pub doc_prefix : Bytes → ℕ → Bytes
doc_prefix prefix collection_id = prefix ++ (rec_doc ∷ to_be 4 collection_id)

-- `doc_key`.
unfoldable pub doc_key : Bytes → ℕ → Bytes → Bytes
unfolding doc_prefix
doc_key prefix collection_id doc_id = doc_prefix prefix collection_id ++ doc_id

-- `doc_id_from_doc_key`: empty where the key is shorter than the header.
unfoldable pub doc_id_from_doc_key : ℕ → Bytes → Bytes
doc_id_from_doc_key prefix_len key = drop (prefix_len + 1 + 4) key

-- `index_prefix`.
unfoldable pub index_prefix : Bytes → ℕ → ℕ → Bytes
index_prefix prefix collection_id index_id =
    prefix ++ (rec_index ∷ (to_be 4 collection_id ++ to_be 4 index_id))

-- `index_key`.
unfoldable pub index_key : Bytes → ℕ → ℕ → Bytes → Bytes → Bytes
unfolding index_prefix
index_key prefix collection_id index_id encoded_fields doc_id =
    index_prefix prefix collection_id index_id ++ (encoded_fields ++ doc_id)

decodes : Option ℕ → Bool
decodes none = false
decodes (some n) = true

-- The loop over `end in 0..=rest.len()`: the last `end` at which the front decodes.
unfoldable pub best_end : ℕ → ℕ → Bytes → ℕ → ℕ
unfolding decodes
best_end zero end rest best = best
best_end (suc rounds) end rest best =
    best_end rounds (end + 1) rest
      (if decodes (try_decode_fields (take end rest)) then end else best)

-- `try_parse_index_key`.
unfoldable pub try_parse_index_key : ℕ → Bytes → Option (ℕ × ℕ × ℕ × Bytes)
unfolding best_end
try_parse_index_key prefix_len key =
    let header = prefix_len + 1 + 4 + 4 in
    let rest = drop header key in
    let best = best_end (length rest + 1) 0 rest 0 in
    if ltb (length key) header || not (byte_at prefix_len key == rec_index)
    then none
    else some (
      from_be (slice (prefix_len + 1) (prefix_len + 5) key),
      from_be (slice (prefix_len + 5) (prefix_len + 9) key),
      best,
      drop best rest,
    )

-- The loop of `prefix_upper_bound`, over `out` from its last byte on.
unfoldable pub bump_last : Bytes → Bytes
bump_last [] = []
bump_last (last ∷ before) =
    let shorter = bump_last before in
    if last == 0xFF then shorter else reverse ((last + 1) ∷ before)

-- `prefix_upper_bound`.
unfoldable pub prefix_upper_bound : Bytes → Bytes
unfolding bump_last
prefix_upper_bound prefix = bump_last (reverse prefix)
