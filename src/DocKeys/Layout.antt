-- ===== src/DocKeys/Layout.antt =====
-- What the layout of the keys guarantees: ids are read back, and the ranges of collections, of
-- indexes and of the two kinds of record are apart.
use Prim.Native.Nat.Ordering.{eq}
use zydecodb.Prelude.{
  ℕ, ◌^◌, ◌<◌, ◌≡◌, refl, sym, ap, ◌∙◌, Ordering, compare, Bool, true, false, [], ◌∷◌, ◌++◌, length,
  length-append, arith, ◌==◌, append_assoc, append-nil, ◌&&◌,
}
use zydecodb.Prelude.Bytes.{
  Bytes, IsBytes, append-IsBytes, to_be-IsBytes, cmp_bytes, to_be, length-to_be,
}
use zydecodb.Prelude.Slices.{drop_first}
use zydecodb.Prelude.Decided.{Decided-words, cmp_bytes_of_Decided}
use zydecodb.DocKeys.{
  rec_doc, rec_index, doc_prefix, doc_key, doc_id_from_doc_key, index_prefix, index_key,
  prefix_upper_bound,
}
use zydecodb.DocKeys.Scan.{is_prefix, in_range, scan_exact}

-- The id is what follows the prefix, the tag and the collection's number.
pub doc_id-doc_key :
    (prefix : Bytes) (c : ℕ) (doc_id : Bytes)
    → doc_id_from_doc_key (length prefix) (doc_key prefix c doc_id) ≡ doc_id
unfolding doc_id_from_doc_key doc_key
doc_id-doc_key prefix c doc_id =
    let head = prefix ++ (rec_doc ∷ to_be 4 c) in
    drop_first head doc_id
      (omega (arith, length-append prefix (rec_doc ∷ to_be 4 c), length-to_be 4 c))

abbrev is_eq : Ordering → Bool
is_eq eq = true
is_eq _ = false

is_prefix-append :
    (xs ys a b : Bytes)
    → length xs ≡ length ys
    → is_prefix (xs ++ a) (ys ++ b) ≡ (is_eq (cmp_bytes xs ys) && is_prefix a b)
unfolding is_prefix cmp_bytes
is_prefix-append [] [] a b e = refl
is_prefix-append [] (y ∷ ys) a b e = absurd (omega arith)
is_prefix-append (x ∷ xs) [] a b e = absurd (omega arith)
is_prefix-append (x ∷ xs) (y ∷ ys) a b e = ground (arith, is_prefix-append xs ys a b (omega arith))

is_prefix_same : (p a b : Bytes) → is_prefix (p ++ a) (p ++ b) ≡ is_prefix a b
unfolding is_prefix
is_prefix_same [] a b = refl
is_prefix_same (x ∷ p) a b = ground (arith, is_prefix_same p a b)

is_prefix_word :
    (c d : ℕ) (a b : Bytes)
    → c < 2 ^ 32
    → d < 2 ^ 32
    → is_prefix (to_be 4 c ++ a) (to_be 4 d ++ b) ≡ (c == d && is_prefix a b)
is_prefix_word c d a b hc hd =
    is_prefix-append (to_be 4 c) (to_be 4 d) a b (length-to_be 4 c ∙ sym (length-to_be 4 d))
    ∙ ap (λ (o : Ordering). is_eq o && is_prefix a b)
        (cmp_bytes_of_Decided (to_be 4 c) (to_be 4 d) (compare c d) (Decided-words 4 c d hc hd))

is_prefix_last :
    (c d : ℕ) (b : Bytes)
    → c < 2 ^ 32
    → d < 2 ^ 32
    → is_prefix (to_be 4 c) (to_be 4 d ++ b) ≡ (c == d)
is_prefix_last c d b hc hd =
    ap (λ (l : Bytes). is_prefix l (to_be 4 d ++ b)) (sym (append-nil (to_be 4 c)))
    ∙ is_prefix_word c d [] b hc hd
    ∙ unfold is_prefix in and_true (c == d)
  where
    and_true : (t : Bool) → (t && true) ≡ t
    and_true t = ground arith

module _ (p : Bytes) (c d i j : ℕ) (fields id : Bytes) where
  doc_in_doc : c < 2 ^ 32 → d < 2 ^ 32 → is_prefix (doc_prefix p c) (doc_key p d id) ≡ (c == d)
  unfolding doc_prefix doc_key
  doc_in_doc hc hd = rw (append_assoc p (rec_doc ∷ to_be 4 d) id) (
      is_prefix_same p (rec_doc ∷ to_be 4 c) (rec_doc ∷ (to_be 4 d ++ id))
      ∙ unfold is_prefix in is_prefix_last c d id hc hd)

  index_in_index :
      c < 2 ^ 32
      → d < 2 ^ 32
      → i < 2 ^ 32
      → j < 2 ^ 32
      → is_prefix (index_prefix p c i) (index_key p d j fields id) ≡ (c == d && i == j)
  unfolding index_prefix index_key
  index_in_index hc hd hi hj =
      rw (append_assoc p (rec_index ∷ (to_be 4 d ++ to_be 4 j)) (fields ++ id)) (
        is_prefix_same p (rec_index ∷ (to_be 4 c ++ to_be 4 i))
          (rec_index ∷ ((to_be 4 d ++ to_be 4 j) ++ (fields ++ id)))
        ∙ unfold is_prefix in
          rw (append_assoc (to_be 4 d) (to_be 4 j) (fields ++ id)) (
            is_prefix_word c d (to_be 4 i) (to_be 4 j ++ (fields ++ id)) hc hd
            ∙ ap (λ t. c == d && t) (is_prefix_last i j (fields ++ id) hi hj)))

  index_in_doc : is_prefix (index_prefix p c i) (doc_key p d id) ≡ false
  unfolding index_prefix doc_key
  index_in_doc = rw (append_assoc p (rec_doc ∷ to_be 4 d) id) (
      is_prefix_same p (rec_index ∷ (to_be 4 c ++ to_be 4 i)) (rec_doc ∷ (to_be 4 d ++ id))
      ∙ unfold is_prefix in refl)

  doc_in_index : is_prefix (doc_prefix p c) (index_key p d j fields id) ≡ false
  unfolding doc_prefix index_key
  doc_in_index = rw (append_assoc p (rec_index ∷ (to_be 4 d ++ to_be 4 j)) (fields ++ id)) (
      is_prefix_same p (rec_doc ∷ to_be 4 c)
        (rec_index ∷ ((to_be 4 d ++ to_be 4 j) ++ (fields ++ id)))
      ∙ unfold is_prefix in refl)

pub doc_prefix-IsBytes : (p : Bytes) (c : ℕ) → IsBytes p → IsBytes (doc_prefix p c)
unfolding doc_prefix
doc_prefix-IsBytes p c h = append-IsBytes p (rec_doc ∷ to_be 4 c) h (omega arith, to_be-IsBytes 4 c)

doc_key-IsBytes :
    (p : Bytes) (c : ℕ) (id : Bytes) → IsBytes p → IsBytes id → IsBytes (doc_key p c id)
unfolding doc_key
doc_key-IsBytes p c id h k = append-IsBytes (doc_prefix p c) id (doc_prefix-IsBytes p c h) k

pub index_prefix-IsBytes : (p : Bytes) (c i : ℕ) → IsBytes p → IsBytes (index_prefix p c i)
unfolding index_prefix
index_prefix-IsBytes p c i h =
    append-IsBytes p (rec_index ∷ (to_be 4 c ++ to_be 4 i)) h
      (omega arith, append-IsBytes (to_be 4 c) (to_be 4 i) (to_be-IsBytes 4 c) (to_be-IsBytes 4 i))

index_key-IsBytes :
    (p : Bytes) (c i : ℕ) (fields id : Bytes)
    → IsBytes p
    → IsBytes fields
    → IsBytes id
    → IsBytes (index_key p c i fields id)
unfolding index_key
index_key-IsBytes p c i fields id h hf k =
    append-IsBytes (index_prefix p c i) (fields ++ id) (index_prefix-IsBytes p c i h)
      (append-IsBytes fields id hf k)

-- The scan of a collection's documents returns a document key exactly when it is of that collection,
-- and never an index entry of the same tenant; the scan of an index returns an index entry exactly
-- when it is of that collection and that index, and never a document.
pub scans_apart :
    (p : Bytes) (c d i j : ℕ) (fields id : Bytes)
    → IsBytes p
    → IsBytes fields
    → IsBytes id
    → c < 2 ^ 32
    → d < 2 ^ 32
    → i < 2 ^ 32
    → j < 2 ^ 32
    → (in_range (doc_prefix p c) (prefix_upper_bound (doc_prefix p c)) (doc_key p d id) ≡ (c == d))
      × (in_range (doc_prefix p c) (prefix_upper_bound (doc_prefix p c)) (index_key p d j fields id)
          ≡ false)
      × (in_range
            (index_prefix p c i)
            (prefix_upper_bound (index_prefix p c i))
            (index_key p d j fields id)
          ≡ (c == d && i == j))
      × (in_range (index_prefix p c i) (prefix_upper_bound (index_prefix p c i)) (doc_key p d id)
          ≡ false)
scans_apart p c d i j fields id hp hf hid hc hd hi hj =
    let dp = doc_prefix-IsBytes p c hp in
    let ip = index_prefix-IsBytes p c i hp in
    let dk = doc_key-IsBytes p d id hp hid in
    let ik = index_key-IsBytes p d j fields id hp hf hid in
    (
      scan_exact (doc_prefix p c) (doc_key p d id) dp dk ∙ doc_in_doc p c d i j fields id hc hd,
      scan_exact (doc_prefix p c) (index_key p d j fields id) dp ik
          ∙ doc_in_index p c d i j fields id,
      scan_exact (index_prefix p c i) (index_key p d j fields id) ip ik
          ∙ index_in_index p c d i j fields id hc hd hi hj,
      scan_exact (index_prefix p c i) (doc_key p d id) ip dk ∙ index_in_doc p c d i j fields id,
    )
