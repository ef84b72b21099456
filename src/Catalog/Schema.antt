-- ===== src/Catalog/Schema.antt =====
-- The schema of crates/zydecodb-document/src/catalog.rs: what holds of the catalog whatever indexes are
-- defined.
use zydecodb.Prelude.{
  ℕ, ◌+◌, ◌≤◌, ◌<◌, ◌≡◌, ◌≢◌, ◌⊎◌, refl, sym, ap, subst, ◌∙◌, inl, inr, Bool, true, false, some,
  List, [], ◌∷◌, ◌++◌, map, append_assoc, length, All, arith, if◌then◌else◌, Bool-cases,
}
use zydecodb.Prelude.SortedMap.{All-imp}
use zydecodb.Catalog.{
  IndexMeta, CollectionMeta, Catalog, find_first, update_first, is_some, push_index,
}

abbrev pub IsDistinct : List ℕ → Type 0
IsDistinct [] = Unit
IsDistinct (x ∷ xs) = All (λ y. y ≢ x) xs × IsDistinct xs

pub All-insert {κ} :
    {A : Type 0} (P : A → Type κ) (xs ys : List A) (x : A)
    → All P (xs ++ ys)
    → P x
    → All P (xs ++ x ∷ ys)
All-insert P [] ys x a p = (p, a)
All-insert P (y ∷ xs) ys x a p = (a.0, All-insert P xs ys x a.1 p)

pub insert-IsDistinct :
    (xs ys : List ℕ) (x : ℕ)
    → IsDistinct (xs ++ ys)
    → All (λ y. y ≢ x) (xs ++ ys)
    → IsDistinct (xs ++ x ∷ ys)
insert-IsDistinct [] ys x d a = (a, d)
insert-IsDistinct (y ∷ xs) ys x d a =
    (All-insert (λ z. z ≢ y) xs ys x d.0 (λ e. a.0 (sym e)), insert-IsDistinct xs ys x d.1 a.1)

-- New ids are above all that are there.
pub fresh_apart : (xs : List ℕ) (n : ℕ) → All (λ x. x < n) xs → All (λ x. x ≢ n) xs
fresh_apart xs n a = All-imp (λ x. x < n) (λ x. x ≢ n) xs (λ x l e. absurd (omega arith)) a

abbrev pub index_ids : List CollectionMeta → List ℕ
index_ids [] = []
index_ids (c ∷ cs) = map (λ (i : IndexMeta). i.id) c.indexes ++ index_ids cs

abbrev pub collection_ids : List CollectionMeta → List ℕ
collection_ids = map (λ (c : CollectionMeta). c.id)

abbrev pub ttl_count : List IndexMeta → ℕ
ttl_count [] = 0
ttl_count (idx ∷ indexes) = (if is_some idx.expire_after_seconds then 1 else 0) + ttl_count indexes

-- An index has fields, and no directions or one for each.
abbrev pub IsSoundIndex : IndexMeta → Type 0
IsSoundIndex i =
    (1 ≤ length i.fields) × ((length i.directions ≡ 0) ⊎ (length i.directions ≡ length i.fields))

abbrev pub IsSoundCollection : CollectionMeta → Type 0
IsSoundCollection c = All IsSoundIndex c.indexes × (ttl_count c.indexes ≤ 1)

-- Ids are unique, those of indexes across all collections, and below the next ones; every collection
-- has one TTL index at most.
pub record IsSchema (cat : Catalog) : Type 0 where
  pub distinct_collections : IsDistinct (collection_ids cat.collections)
  pub old_collections : All (λ n. n < cat.next_collection_id) (collection_ids cat.collections)
  pub distinct_indexes : IsDistinct (index_ids cat.collections)
  pub old_indexes : All (λ n. n < cat.next_index_id) (index_ids cat.collections)
  pub sound : All IsSoundCollection cat.collections

-- The id of a pushed index stands somewhere among the others.
pub push-index_ids :
    (p : CollectionMeta → Bool) (meta : IndexMeta) (cs : List CollectionMeta) (c : CollectionMeta)
    → find_first p cs ≡ some c
    → (xs : List ℕ) × (ys : List ℕ) × (index_ids cs ≡ xs ++ ys)
      × (index_ids (update_first p (push_index meta) cs) ≡ xs ++ meta.id ∷ ys)
unfolding find_first update_first
push-index_ids p meta [] c e = ground arith
push-index_ids p meta (d ∷ cs) c e = elim (Bool-cases (p d)) [
  | inl t ↦
      rw (t, update_first)
        (
          map (λ (i : IndexMeta). i.id) d.indexes,
          index_ids cs,
          refl,
          ap (λ (l : List ℕ). l ++ index_ids cs) (map_snoc d.indexes)
              ∙ append_assoc (map (λ (i : IndexMeta). i.id) d.indexes) (meta.id ∷ [])
                  (index_ids cs),
        )
  | inr f ↦
      let (xs, ys, old, new) = push-index_ids p meta cs c (rw (f, find_first) at e) in
      rw (f, update_first)
        (
          map (λ (i : IndexMeta). i.id) d.indexes ++ xs,
          ys,
          ap (λ (l : List ℕ). map (λ (i : IndexMeta). i.id) d.indexes ++ l) old
              ∙ sym (append_assoc (map (λ (i : IndexMeta). i.id) d.indexes) xs ys),
          ap (λ (l : List ℕ). map (λ (i : IndexMeta). i.id) d.indexes ++ l) new
              ∙ sym (append_assoc (map (λ (i : IndexMeta). i.id) d.indexes) xs (meta.id ∷ ys)),
        )
]
  where
    map_snoc :
        (is : List IndexMeta)
        → map (λ (i : IndexMeta). i.id) (is ++ meta ∷ [])
          ≡ map (λ (i : IndexMeta). i.id) is ++ meta.id ∷ []
    map_snoc [] = refl
    map_snoc (i ∷ is) = ap (λ (l : List ℕ). i.id ∷ l) (map_snoc is)

pub push-collection_ids :
    (p : CollectionMeta → Bool) (meta : IndexMeta) (cs : List CollectionMeta)
    → collection_ids (update_first p (push_index meta) cs) ≡ collection_ids cs
unfolding update_first
push-collection_ids p meta [] = refl
push-collection_ids p meta (d ∷ cs) = ground (arith, push-collection_ids p meta cs)

pub update_first-All :
    (P : CollectionMeta → Type 0) (p : CollectionMeta → Bool) (g : CollectionMeta → CollectionMeta)
    (cs : List CollectionMeta) (c : CollectionMeta)
    → find_first p cs ≡ some c
    → All P cs
    → (P c → P (g c))
    → All P (update_first p g cs)
unfolding find_first update_first
update_first-All P p g [] c e a h = tt
update_first-All P p g (d ∷ cs) c e a h = elim (Bool-cases (p d)) [
  | inl t ↦
      let q = same_collection (rw (t, find_first) at e) in
      rw (t, update_first) (subst (λ x. P (g x)) (sym q) (h (subst P q a.0)), a.1)
  | inr f ↦ rw (f, update_first) (a.0, update_first-All P p g cs c (rw (f, find_first) at e) a.1 h)
]
  where
    same_collection : {x y : CollectionMeta} → some x ≡ some y → x ≡ y
    same_collection k = ground arith

pub find_first_again :
    (p q : CollectionMeta → Bool) (cs : List CollectionMeta) (c : CollectionMeta)
    → find_first p cs ≡ some c
    → q c ≡ true
    → (d : CollectionMeta) × (find_first q cs ≡ some d)
unfolding find_first
find_first_again p q [] c e t = ground arith
find_first_again p q (d ∷ cs) c e t = elim (Bool-cases (q d)) [
  | inl yes_d ↦ (d, rw (yes_d, find_first) refl)
  | inr no_d ↦ elim (Bool-cases (p d)) [
    | inl s ↦ absurd (apart (sym no_d ∙ ap q (same_collection (rw (s, find_first) at e)) ∙ t))
    | inr f ↦
        let (x, h) = find_first_again p q cs c (rw (f, find_first) at e) t in
        (x, rw (no_d, find_first) h)
  ]
]
  where
    same_collection : {x y : CollectionMeta} → some x ≡ some y → x ≡ y
    same_collection k = ground arith

    apart : ¬ (false ≡ true)
    apart k = ground arith

pub find_first_snoc :
    (q : CollectionMeta → Bool) (cs : List CollectionMeta) (x : CollectionMeta)
    → q x ≡ true
    → (d : CollectionMeta) × (find_first q (cs ++ x ∷ []) ≡ some d)
unfolding find_first
find_first_snoc q [] x t = (x, rw (t, find_first) refl)
find_first_snoc q (d ∷ cs) x t = elim (Bool-cases (q d)) [
  | inl s ↦ (d, rw (s, find_first) refl)
  | inr f ↦ let (y, h) = find_first_snoc q cs x t in (y, rw (f, find_first) h)
]
