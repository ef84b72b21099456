-- ===== src/Catalog.antt =====
-- crates/zydecodb-document/src/catalog.rs: the metadata of collections and indexes, and the operations
-- on the schema.
pub mod Schema
pub mod Define
pub mod Counters
pub mod Touched
pub mod Count
pub mod Applied
mod Tests
use zydecodb.Prelude.{
  ℕ, ◌+◌, ◌-◌, ◌%◌, ◌^◌, Bool, true, false, Option, none, some, List, [], ◌∷◌, ◌++◌, map, length,
  take, replicate, ◌==◌, ◌&&◌, ◌||◌, not, if◌then◌else◌,
}
use zydecodb.Prelude.Bytes.{Bytes}
use zydecodb.Encoding.Path.{same_str}
use zydecodb.DocErrors.{DocError, protocol, already_exists, DocResult, ok, err}

-- `IndexMeta`.
pub record IndexMeta : Type 0 where
  pub id : ℕ
  pub name : Bytes
  pub fields : List Bytes
  pub directions : List Bool
  pub unique : Bool
  pub expire_after_seconds : Option ℕ
  pub entry_count : ℕ

-- `CollectionMeta`.
pub record CollectionMeta : Type 0 where
  pub id : ℕ
  pub prefix : Bytes
  pub name : Bytes
  pub indexes : List IndexMeta
  pub doc_count : ℕ

-- `Vec::resize`, to at least as many.
abbrev pub resize : List Bool → ℕ → Bool → List Bool
resize ds n d = take n ds ++ replicate (n - length ds) d

-- `IndexMeta::ascending`: where the lengths agree, resizing changes nothing.
unfoldable pub ascending : IndexMeta → List Bool
ascending idx = elim idx.directions [
  | [] ↦ replicate (length idx.fields) true
  | d ∷ ds ↦ resize (d ∷ ds) (length idx.fields) true
]

-- `CollectionMeta::ttl_index`.
unfoldable pub ttl_index : List IndexMeta → Option IndexMeta
ttl_index [] = none
ttl_index (idx ∷ indexes) =
    let rest = ttl_index indexes in
    elim idx.expire_after_seconds [ some secs ↦ some idx | none ↦ rest ]

-- `Catalog`.
pub record Catalog : Type 0 where
  pub next_collection_id : ℕ
  pub next_index_id : ℕ
  pub collections : List CollectionMeta

-- `+= 1` on a `u32`.
abbrev pub next_id : ℕ → ℕ
next_id n = (n + 1) % 2 ^ 32

-- `iter().find`, and what `iter_mut().find` leaves when the element that it finds is changed.
unfoldable pub find_first {ℓ} : {A : Type ℓ} → (A → Bool) → List A → Option A
find_first p [] = none
find_first p (x ∷ xs) = let rest = find_first p xs in if p x then some x else rest

unfoldable pub update_first {ℓ} : {A : Type ℓ} → (A → Bool) → (A → A) → List A → List A
update_first p g [] = []
update_first p g (x ∷ xs) = let rest = update_first p g xs in if p x then g x ∷ xs else x ∷ rest

-- `Vec::retain`.
unfoldable pub retain {ℓ} : {A : Type ℓ} → (A → Bool) → List A → List A
retain p [] = []
retain p (x ∷ xs) = let rest = retain p xs in if p x then x ∷ rest else rest

abbrev pub is_named : Bytes → Bytes → CollectionMeta → Bool
is_named prefix name c = same_str c.prefix prefix && same_str c.name name

abbrev pub has_id : ℕ → CollectionMeta → Bool
has_id id c = c.id == id

-- `Catalog::collection`.
unfoldable pub collection : Catalog → Bytes → Bytes → Option CollectionMeta
unfolding find_first same_str
collection cat prefix name = find_first (is_named prefix name) cat.collections

-- `ensure_collection`.
unfoldable pub ensure_collection : Catalog → Bytes → Bytes → Catalog × ℕ
unfolding collection
ensure_collection cat prefix name = elim (collection cat prefix name) [
  | some c ↦ (cat, c.id)
  | none ↦ (
    record cat {
      next_collection_id = next_id cat.next_collection_id;
      collections =
          cat.collections
          ++ record {
            id = cat.next_collection_id;
            prefix = prefix;
            name = name;
            indexes = [];
            doc_count = 0;
          }
            ∷ [];
    },
    cat.next_collection_id,
  )
]

abbrev pub any_index : (IndexMeta → Bool) → List IndexMeta → Bool
any_index p [] = false
any_index p (idx ∷ indexes) = p idx || any_index p indexes

abbrev pub all_true : List Bool → Bool
all_true [] = true
all_true (d ∷ ds) = d && all_true ds

abbrev pub is_some {ℓ} : {A : Type ℓ} → Option A → Bool
is_some none = false
is_some (some a) = true

abbrev pub push_index : IndexMeta → CollectionMeta → CollectionMeta
push_index meta c = record c { indexes = c.indexes ++ meta ∷ [] }

-- The three checks of `add_index_directed` that come first.
unfoldable pub index_refused : List Bytes → List Bool → Option ℕ → Option DocError
index_refused fields directions expire =
    if length fields == 0
    then some (protocol "index must have at least one field")
    else if not (length directions == 0) && not (length directions == length fields)
    then some (protocol "index directions length must match fields")
    else if is_some expire && not (length fields == 1)
    then some (protocol "TTL index must have exactly one field (unix millis)")
    else none

-- The metadata of the new index.
abbrev pub new_index : ℕ → Bytes → List Bytes → List Bool → Bool → Option ℕ → IndexMeta
new_index id name fields directions unique expire = record {
  id = id;
  name = name;
  fields = fields;
  directions = if all_true directions then [] else directions;
  unique = unique;
  expire_after_seconds = expire;
  entry_count = 0;
}

-- `add_index_directed`, behind those: the catalog that it leaves, and its result. The `expect` that
-- would panic gives `none`.
unfoldable pub add_to_collection : Catalog → ℕ → IndexMeta → Option (Catalog × DocResult IndexMeta)
unfolding find_first update_first ttl_index same_str
add_to_collection cat collection_id meta =
    elim (find_first (has_id collection_id) cat.collections) [
      | none ↦ none
      | some c ↦
          if any_index (λ i. same_str i.name meta.name) c.indexes
          then some (cat, err (already_exists "index"))
          else if is_some meta.expire_after_seconds && is_some (ttl_index c.indexes)
          then some (cat, err (protocol "collection already has a TTL index"))
          else some (
            record cat {
              next_index_id = next_id cat.next_index_id;
              collections = update_first (has_id collection_id) (push_index meta) cat.collections;
            },
            ok meta,
          )
    ]

-- `add_index_directed`.
unfoldable pub add_index_directed :
    Catalog
    → Bytes
    → Bytes
    → Bytes
    → List Bytes
    → List Bool
    → Bool
    → Option ℕ
    → Option (Catalog × DocResult IndexMeta)
unfolding index_refused ensure_collection add_to_collection
add_index_directed cat prefix collection name fields directions unique expire =
    elim (index_refused fields directions expire) [
      | some e ↦ some (cat, err e)
      | none ↦
          let (ensured, collection_id) = ensure_collection cat prefix collection in
          add_to_collection ensured collection_id
            (new_index ensured.next_index_id name fields directions unique expire)
    ]

-- `remove_collections_with_prefix`: what is left, and the ids that are removed.
unfoldable pub remove_collections_with_prefix : Catalog → Bytes → Catalog × List ℕ
unfolding retain same_str
remove_collections_with_prefix cat prefix = (
  record cat { collections = retain (λ c. not (same_str c.prefix prefix)) cat.collections },
  map (λ (c : CollectionMeta). c.id) (retain (λ c. same_str c.prefix prefix) cat.collections),
)
