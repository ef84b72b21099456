-- ===== src/Store.antt =====
-- crates/zydecodb-document/src/store.rs: the index keys that a document occupies.
use zydecodb.Prelude.{ℕ, Option, List, map}
use zydecodb.Prelude.Bytes.{Bytes}
use zydecodb.Json.{Value}
use zydecodb.Encoding.{encode_fields_with_directions}
use zydecodb.Encoding.Path.{extract_path}
use zydecodb.DocKeys.{index_key}
use zydecodb.Catalog.{IndexMeta, CollectionMeta, ascending}

module _ {N : Type 0} (as_f64 : N → Option ℕ) where
  -- The encoded fields of a document under an index.
  unfoldable pub encoded_fields : IndexMeta → Value N → Bytes
  unfolding extract_path encode_fields_with_directions ascending
  encoded_fields idx doc =
      encode_fields_with_directions as_f64 (map (extract_path doc) idx.fields) (ascending idx)

  -- `index_keys_for`.
  unfoldable pub index_keys_for : CollectionMeta → Bytes → Bytes → Value N → List Bytes
  unfolding encoded_fields index_key
  index_keys_for coll prefix doc_id doc =
      map (λ idx. index_key prefix coll.id idx.id (encoded_fields idx doc) doc_id) coll.indexes
