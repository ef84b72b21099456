-- ===== src/Query/Tests.antt =====
-- A collection with one document and one index, and a search in it.
use zydecodb.Prelude.{
  ℕ, ◌≡◌, ◌↔◌, refl, sym, ap, subst, inl, inr, Bool, true, false, none, some, List, [], ◌∷◌, ◌++◌,
  arith, take, drop, All,
}
use zydecodb.Prelude.Bytes.{Bytes, IsBytes, to_be, cmp_bytes}
use zydecodb.Prelude.SortedMap.{Has}
use zydecodb.Json.{Value, number, object, end, field}
use zydecodb.Encoding.Path.{same_str, extract_path}
use zydecodb.DocKeys.{doc_prefix}
use zydecodb.DocErrors.{ok}
use zydecodb.Catalog.{IndexMeta, CollectionMeta}
use zydecodb.Filter.{Filter, on_field, field_pred, and_atom, no_atoms, equals}
use zydecodb.Encoding.Reference.{IsPlain}
use zydecodb.Planner.Front.{IsIndexable}
use zydecodb.Planner.Meets.{IsPlainPred}
use zydecodb.Store.{index_keys_for}
use zydecodb.Planner.Constraints.{top_level_fields}
use zydecodb.Query.{find_ids}
use zydecodb.Query.Found.{IsMatch}
use zydecodb.Query.Snapshot.{SnapshotHandle}
use zydecodb.Query.Table.{snapshot_of, snapshot_of-IsCoherent, scan_short, get-Has, IsTable}
use zydecodb.Query.FindIds.{find_ids_exact, IsIndexed}

abbrev one : ℕ
one = 0x3ff0_0000_0000_0000

abbrev path_a : Bytes
path_a = b'a' ∷ []

abbrev index_on_a : IndexMeta
index_on_a = record {
  id = 7;
  name = path_a;
  fields = path_a ∷ [];
  directions = [];
  unique = false;
  expire_after_seconds = none;
  entry_count = 1;
}

abbrev users : CollectionMeta
users = record {
  id = 1;
  prefix = 1 ∷ [];
  name = b'u' ∷ [];
  indexes = index_on_a ∷ [];
  doc_count = 1;
}

-- Every body is `{"a": 1}` to the reader.
abbrev body : Bytes → Value ℕ
body stored = object (field path_a (number one) end)

abbrev filter_one : Filter ℕ Unit
filter_one = on_field (field_pred path_a (and_atom (equals (number one)) no_atoms))

abbrev any_regex : Unit {0} → Bytes → Bool
any_regex re s = true

abbrev utf8 : Bytes → Bytes
utf8 s = s

abbrev table : List (Bytes × Bytes)
table =
    (1 ∷ b'd' ∷ 0 ∷ 0 ∷ 0 ∷ 1 ∷ b'x' ∷ [], 0 ∷ [])
    ∷ (
      1 ∷ b'i' ∷ 0 ∷ 0 ∷ 0 ∷ 1 ∷ 0 ∷ 0 ∷ 0 ∷ 7 ∷ 2 ∷ 0xbf ∷ 0xf0 ∷ 0 ∷ 0 ∷ 0 ∷ 0 ∷ 0 ∷ 0 ∷ b'x'
          ∷ [],
      b'x' ∷ [],
    )
    ∷ []

search_runs :
    find_ids some any_regex utf8 body (snapshot_of table) filter_one (1 ∷ []) users 10
    ≡ some (ok ((b'x' ∷ []) ∷ []))
unfolding find_ids snapshot_of to_be
search_runs = refl

abbrev snap : SnapshotHandle
snap = snapshot_of table

keys_apart : IsTable table
unfolding same_str cmp_bytes
keys_apart = ((refl, tt), omega arith, (tt, omega arith, tt))

found_x :
    (id stored : Bytes) → snap.get (doc_prefix (1 ∷ []) 1 ++ id) ≡ some stored → id ≡ b'x' ∷ []
unfolding doc_prefix to_be
found_x id stored e = elim (get-Has table (doc_prefix (1 ∷ []) 1 ++ id) stored e) [
  | inl h ↦ ap (λ (kv : Bytes × Bytes). drop 6 kv.0) h
  | inr (inl h) ↦ absurd (tags_apart (ap (λ (kv : Bytes × Bytes). take 2 kv.0) h))
  | inr (inr h) ↦ absurd h
]
  where
    tags_apart : ¬ (◌≡◌ {A = Bytes} (1 ∷ b'd' ∷ []) (1 ∷ b'i' ∷ []))
    tags_apart h = ground arith

value_of_a : (stored : Bytes) → extract_path (body stored) path_a ≡ number one
unfolding extract_path
value_of_a stored = refl

indexable : (stored : Bytes) → IsIndexable some (body stored) (path_a ∷ [])
unfolding same_str
indexable stored = ((subst (IsPlain some) (sym (value_of_a stored)) (omega arith), refl), tt)

entry_of_x :
    (key : Bytes)
    → Has key (index_keys_for some users (1 ∷ []) (b'x' ∷ []) (body []))
    → snap.get key ≡ some (b'x' ∷ [])
unfolding snapshot_of index_keys_for to_be
entry_of_x key (inl e) = rw e refl
entry_of_x key (inr h) = absurd h

all_indexed : IsIndexed some any_regex utf8 body snap filter_one (1 ∷ []) users
all_indexed id stored e =
    let x = found_x id stored e in
    (
      refl,
      subst IsBytes (sym x) (omega arith),
      (indexable stored, tt),
      λ key h.
          subst (λ i. snap.get key ≡ some i) (sym x)
            (entry_of_x key
              (subst (λ i. Has key (index_keys_for some users (1 ∷ []) i (body stored))) x h)),
    )

literal_plain : All (IsPlainPred some) (top_level_fields filter_one)
unfolding top_level_fields
literal_plain = omega arith

find_ids_exact_example :
    (ids : List Bytes) × (find_ids some any_regex utf8 body snap filter_one (1 ∷ []) users 10
      ≡ some (ok ids))
    × ((id : Bytes)
        → Has id ids ↔ IsMatch some any_regex utf8 body snap filter_one (doc_prefix (1 ∷ []) 1) id)
find_ids_exact_example =
    find_ids_exact some any_regex utf8 body snap filter_one (1 ∷ []) users 10
      (snapshot_of-IsCoherent table keys_apart) all_indexed (omega arith) literal_plain
      (λ lo hi. omega (arith, scan_short table lo hi)) (omega arith) (omega arith)
