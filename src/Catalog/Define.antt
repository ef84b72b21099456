-- ===== src/Catalog/Define.antt =====
-- Defining an index keeps the schema of crates/zydecodb-document/src/catalog.rs sound.
use zydecodb.Prelude.{
  ℕ, ◌+◌, ◌^◌, ◌≤◌, ◌<◌, ◌≡◌, ◌≢◌, ◌⊎◌, refl, sym, ap, subst, inl, inr, Bool, true, false, Option,
  none, some, List, [], ◌∷◌, ◌++◌, map, append-nil, length, All, arith, ◌==◌, ◌&&◌, not,
  if◌then◌else◌, Bool-cases, Option-cases, ==_refl,
}
use zydecodb.Prelude.Bytes.{Bytes}
use zydecodb.Prelude.SortedMap.{All-imp}
use zydecodb.Encoding.Path.{same_str}
use zydecodb.DocErrors.{DocError, already_exists, protocol, DocResult, ok, err}
use zydecodb.Catalog.{
  IndexMeta, CollectionMeta, Catalog, next_id, find_first, update_first, is_named, has_id,
  collection, ensure_collection, any_index, all_true, is_some, push_index, index_refused,
  add_to_collection, add_index_directed, ttl_index, new_index,
}
use zydecodb.Catalog.Schema.{
  IsSchema, IsDistinct, IsSoundIndex, IsSoundCollection, index_ids, collection_ids, ttl_count,
  All-insert, insert-IsDistinct, fresh_apart, push-index_ids, push-collection_ids, update_first-All,
  find_first_again, find_first_snoc,
}

below_next :
    (xs : List ℕ) (n : ℕ) → n + 1 < 2 ^ 32 → All (λ x. x < n) xs → All (λ x. x < next_id n) xs
below_next xs n h a = All-imp (λ x. x < n) (λ x. x < next_id n) xs (λ x l. omega arith) a

collection_snoc :
    (cs : List CollectionMeta) (c : CollectionMeta)
    → collection_ids (cs ++ c ∷ []) ≡ collection_ids cs ++ c.id ∷ []
collection_snoc [] c = refl
collection_snoc (d ∷ cs) c = ap (λ (l : List ℕ). d.id ∷ l) (collection_snoc cs c)

index_snoc :
    (cs : List CollectionMeta) (c : CollectionMeta)
    → c.indexes ≡ []
    → index_ids (cs ++ c ∷ []) ≡ index_ids cs
index_snoc [] c e = rw e refl
index_snoc (d ∷ cs) c e =
    ap (λ (l : List ℕ). map (λ (i : IndexMeta). i.id) d.indexes ++ l) (index_snoc cs c e)

All-snoc : (P : ℕ → Type 0) (xs : List ℕ) (x : ℕ) → All P xs → P x → All P (xs ++ x ∷ [])
All-snoc P xs x a p = All-insert P xs [] x (subst (All P) (sym (append-nil xs)) a) p

snoc-IsDistinct :
    (xs : List ℕ) (n : ℕ) → IsDistinct xs → All (λ x. x < n) xs → IsDistinct (xs ++ n ∷ [])
snoc-IsDistinct xs n d a =
    insert-IsDistinct xs [] n (subst IsDistinct (sym (append-nil xs)) d)
      (subst (All (λ y. y ≢ n)) (sym (append-nil xs)) (fresh_apart xs n a))

sound_snoc :
    (cs : List CollectionMeta) (c : CollectionMeta)
    → All IsSoundCollection cs
    → IsSoundCollection c
    → All IsSoundCollection (cs ++ c ∷ [])
sound_snoc [] c a p = (p, tt)
sound_snoc (d ∷ cs) c a p = (a.0, sound_snoc cs c a.1 p)

abbrev empty_collection : ℕ → Bytes → Bytes → CollectionMeta
empty_collection id prefix name = record {
  id = id;
  prefix = prefix;
  name = name;
  indexes = [];
  doc_count = 0;
}

new_collection-IsSchema :
    (cat : Catalog) (prefix name : Bytes)
    → IsSchema cat
    → cat.next_collection_id + 1 < 2 ^ 32
    → IsSchema (record cat {
      next_collection_id = next_id cat.next_collection_id;
      collections = cat.collections ++ empty_collection cat.next_collection_id prefix name ∷ [];
    })
new_collection-IsSchema cat prefix name s h =
    let c = empty_collection cat.next_collection_id prefix name in
    let n = cat.next_collection_id in
    record {
      distinct_collections = subst IsDistinct (sym (collection_snoc cat.collections c)) (
          snoc-IsDistinct (collection_ids cat.collections) n s.distinct_collections
            s.old_collections);
      old_collections = subst (All (λ x. x < next_id n)) (sym (collection_snoc cat.collections c)) (
          All-snoc (λ x. x < next_id n) (collection_ids cat.collections) n
            (below_next (collection_ids cat.collections) n h s.old_collections) (omega arith));
      distinct_indexes =
          subst IsDistinct (sym (index_snoc cat.collections c refl)) s.distinct_indexes;
      old_indexes =
          subst (All (λ x. x < cat.next_index_id)) (sym (index_snoc cat.collections c refl))
            s.old_indexes;
      sound = sound_snoc cat.collections c s.sound (tt, omega arith);
    }

-- Creating a collection keeps the schema, and the collection is found under the id.
ensure_collection-IsSchema :
    (cat : Catalog) (prefix name : Bytes)
    → IsSchema cat
    → cat.next_collection_id + 1 < 2 ^ 32
    → IsSchema (ensure_collection cat prefix name).0
      × ((ensure_collection cat prefix name).0.next_index_id ≡ cat.next_index_id)
      × ((c : CollectionMeta) × (find_first
              (has_id (ensure_collection cat prefix name).1)
              (ensure_collection cat prefix name).0.collections
            ≡ some c))
unfolding ensure_collection collection
ensure_collection-IsSchema cat prefix name s h = elim (Option-cases (collection cat prefix name)) [
  | inr (c, e) ↦
      rw (e, ensure_collection)
        (
          s,
          refl,
          find_first_again (is_named prefix name) (has_id c.id) cat.collections c e (==_refl c.id),
        )
  | inl e ↦
      rw (e, ensure_collection)
        (
          new_collection-IsSchema cat prefix name s h,
          refl,
          find_first_snoc (has_id cat.next_collection_id) cat.collections
              (empty_collection cat.next_collection_id prefix name)
              (==_refl cat.next_collection_id),
        )
]

ttl_none : (is : List IndexMeta) → is_some (ttl_index is) ≡ false → ttl_count is ≡ 0
unfolding ttl_index
ttl_none [] h = refl
ttl_none (i ∷ is) h = elim (Option-cases i.expire_after_seconds) [
  | inl n ↦ rw n (let z = ttl_none is (rw (n, ttl_index) at h) in omega (arith, z))
  | inr (t, e) ↦ absurd (apart (rw (e, ttl_index) at h))
]
  where
    apart : ¬ (true ≡ false)
    apart k = ground arith

push_sound :
    (is : List IndexMeta) (meta : IndexMeta)
    → All IsSoundIndex is
    → IsSoundIndex meta
    → All IsSoundIndex (is ++ meta ∷ [])
push_sound [] meta a p = (p, tt)
push_sound (i ∷ is) meta a p = (a.0, push_sound is meta a.1 p)

ttl_count_push :
    (is : List IndexMeta) (meta : IndexMeta)
    → ttl_count (is ++ meta ∷ [])
      ≡ ttl_count is + (if is_some meta.expire_after_seconds then 1 else 0)
ttl_count_push [] meta = omega arith
ttl_count_push (i ∷ is) meta = omega (arith, ttl_count_push is meta)

push-IsSoundCollection :
    (c : CollectionMeta) (meta : IndexMeta)
    → IsSoundIndex meta
    → (is_some meta.expire_after_seconds && is_some (ttl_index c.indexes)) ≡ false
    → IsSoundCollection c
    → IsSoundCollection (push_index meta c)
push-IsSoundCollection c meta p free s = (
  push_sound c.indexes meta s.0 p,
  elim (Bool-cases (is_some meta.expire_after_seconds)) [
    | inl t ↦
        rw (ttl_count_push c.indexes meta, t)
          (let z = ttl_none c.indexes (rw t at free) in omega (arith, z))
    | inr f ↦ rw (ttl_count_push c.indexes meta, f) (let b = s.1 in omega (arith, b))
  ],
)

-- An index that is pushed under the next id keeps the schema.
push-IsSchema :
    (cat : Catalog) (id : ℕ) (c : CollectionMeta) (meta : IndexMeta)
    → IsSchema cat
    → cat.next_index_id + 1 < 2 ^ 32
    → find_first (has_id id) cat.collections ≡ some c
    → meta.id ≡ cat.next_index_id
    → IsSoundIndex meta
    → (is_some meta.expire_after_seconds && is_some (ttl_index c.indexes)) ≡ false
    → IsSchema (record cat {
      next_index_id = next_id cat.next_index_id;
      collections = update_first (has_id id) (push_index meta) cat.collections;
    })
push-IsSchema cat id c meta s h e m p free =
    let (xs, ys, old, new) = push-index_ids (has_id id) meta cat.collections c e in
    let below : All (λ x. x < cat.next_index_id) (xs ++ ys) =
      subst (All (λ x. x < cat.next_index_id)) old s.old_indexes in
    record {
      distinct_collections =
          subst IsDistinct (sym (push-collection_ids (has_id id) meta cat.collections))
            s.distinct_collections;
      old_collections =
          subst (All (λ x. x < cat.next_collection_id))
            (sym (push-collection_ids (has_id id) meta cat.collections)) s.old_collections;
      distinct_indexes = subst IsDistinct (sym new) (
          insert-IsDistinct xs ys meta.id (subst IsDistinct old s.distinct_indexes) (
            subst (λ n. All (λ y. y ≢ n) (xs ++ ys)) (sym m)
              (fresh_apart (xs ++ ys) cat.next_index_id below)));
      old_indexes = subst (All (λ x. x < next_id cat.next_index_id)) (sym new) (
          All-insert (λ x. x < next_id cat.next_index_id) xs ys meta.id
            (below_next (xs ++ ys) cat.next_index_id h below) (omega (arith, m)));
      sound =
          update_first-All IsSoundCollection (has_id id) (push_index meta) cat.collections c e
            s.sound (push-IsSoundCollection c meta p free);
    }

accepted-IsSoundIndex :
    (fields : List Bytes) (directions : List Bool) (expire : Option ℕ) (meta : IndexMeta)
    → index_refused fields directions expire ≡ none
    → meta.fields ≡ fields
    → meta.directions ≡ (if all_true directions then [] else directions)
    → IsSoundIndex meta
unfolding index_refused
accepted-IsSoundIndex fields directions expire meta h f d =
    rw (f, d)
      (elim (Bool-cases (length fields == 0)) [
        | inl z ↦ absurd (clash (rw z at h))
        | inr nz ↦
            let size : 1 ≤ length fields = ground (arith, nz) in
            elim (Bool-cases
              (not (length directions == 0) && not (length directions == length fields))) [
                | inl bad ↦ absurd (clash (rw (nz, bad) at h))
                | inr fits ↦ (size, shorter directions (length fields) fits)
              ]
      ])
  where
    clash : {e : DocError} → ¬ (some e ≡ none)
    clash k = ground arith

    shorter :
        (ds : List Bool) (n : ℕ)
        → (not (length ds == 0) && not (length ds == n)) ≡ false
        → (length (if all_true ds then [] else ds) ≡ 0)
          ⊎ (length (if all_true ds then [] else ds) ≡ n)
    shorter ds n k = elim (Bool-cases (all_true ds)) [
      | inl t ↦ rw t (inl refl)
      | inr f ↦ rw f (ground (arith, k))
    ]

-- What is left of the catalog, and what is returned.
add_to_collection-IsSchema :
    (cat : Catalog) (id : ℕ) (c : CollectionMeta) (meta : IndexMeta)
    → IsSchema cat
    → cat.next_index_id + 1 < 2 ^ 32
    → find_first (has_id id) cat.collections ≡ some c
    → meta.id ≡ cat.next_index_id
    → IsSoundIndex meta
    → (after : Catalog) × (result : DocResult IndexMeta) × (add_to_collection cat id meta
        ≡ some (after, result))
      × IsSchema after
unfolding add_to_collection
add_to_collection-IsSchema cat id c meta s h e m p =
    elim (Bool-cases (any_index (λ i. same_str i.name meta.name) c.indexes)) [
      | inl taken ↦ (cat, err (already_exists "index"), rw (e, add_to_collection, taken) refl, s)
      | inr new_name ↦
          elim (Bool-cases (is_some meta.expire_after_seconds && is_some (ttl_index c.indexes))) [
            | inl second ↦ (
              cat,
              err (protocol "collection already has a TTL index"),
              rw (e, add_to_collection, new_name, second) refl,
              s,
            )
            | inr free ↦ (
              _,
              ok meta,
              rw (e, add_to_collection, new_name, free) refl,
              push-IsSchema cat id c meta s h e m p free,
            )
          ]
    ]

-- Defining an index never panics, and keeps the schema sound, also where it is refused: ids of
-- collections and of indexes stay unique, an index has fields and directions that match them, and a
-- collection has one TTL index at most. The ids have not run out of 32 bits.
pub add_index_directed-IsSchema :
    (cat : Catalog) (prefix name index_name : Bytes) (fields : List Bytes) (directions : List Bool)
    (unique : Bool) (expire : Option ℕ)
    → IsSchema cat
    → cat.next_collection_id + 1 < 2 ^ 32
    → cat.next_index_id + 1 < 2 ^ 32
    → (after : Catalog) × (result : DocResult IndexMeta) × (add_index_directed cat prefix name
          index_name fields directions unique expire
        ≡ some (after, result))
      × IsSchema after
unfolding add_index_directed
add_index_directed-IsSchema cat prefix name index_name fields directions unique expire s hc hi =
    elim (Option-cases (index_refused fields directions expire)) [
      | inr (r, e) ↦ (cat, err r, rw (e, add_index_directed) refl, s)
      | inl e ↦
          let (sound, same, (c, found)) = ensure_collection-IsSchema cat prefix name s hc in
          let meta =
            new_index (ensure_collection cat prefix name).0.next_index_id index_name fields
              directions unique expire in
          let (after, result, q, done) =
            add_to_collection-IsSchema (ensure_collection cat prefix name).0
              (ensure_collection cat prefix name).1 c meta sound (rw same hi) found refl
              (accepted-IsSoundIndex fields directions expire meta e refl refl) in
          (after, result, rw (e, add_index_directed) q, done)
    ]
