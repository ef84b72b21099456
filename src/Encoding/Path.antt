-- ===== src/Encoding/Path.antt =====
-- Dotted paths into documents: `extract_path` of crates/zydecodb-document/src/encoding.rs, and
-- `ValueView::get_path` of crates/zydecodb-document/src/binary.rs on an intact document.
use Prim.Native.Nat.Ordering.{eq}
use zydecodb.Prelude.{
  ◌≡◌, refl, Ordering, Bool, true, false, Option, none, some, List, [], ◌∷◌, ◌==◌, if◌then◌else◌,
  arith, inl, inr, Option-cases,
}
use zydecodb.Prelude.Bytes.{Bytes, cmp_bytes, cmp_bytes-IsTotal}
use zydecodb.Json.{Value, null, boolean, number, string, array, object, Fields, end, field}

abbrev is_eq : Ordering → Bool
is_eq eq = true
is_eq _ = false

-- `==` on strings.
unfoldable pub same_str : Bytes → Bytes → Bool
unfolding cmp_bytes
same_str a b = is_eq (cmp_bytes a b)

pub same_str_sound : (a b : Bytes) → same_str a b ≡ true → a ≡ b
unfolding same_str
same_str_sound a b h = cmp_bytes-IsTotal.same a b (is_eq_sound (cmp_bytes a b) h)
  where
    is_eq_sound : (o : Ordering) → is_eq o ≡ true → o ≡ eq
    is_eq_sound o e = ground arith

pub same_str_refl : (a : Bytes) → same_str a a ≡ true
unfolding same_str
same_str_refl a = rw (cmp_bytes-IsTotal.self a)

-- `map.get(key)`.
unfoldable pub get_field : {N : Type 0} → Bytes → Fields N → Option (Value N)
unfolding same_str
get_field key end = none
get_field key (field k v rest) =
    let later = get_field key rest in if same_str k key then some v else later

-- `path.split('.')`: the segment that is open, and those behind it.
split_from : Bytes → Bytes × List Bytes
split_from [] = ([], [])
split_from (b ∷ path) =
    let (first, later) = split_from path in
    if b == b'.' then ([], first ∷ later) else (b ∷ first, later)

unfoldable pub split_dots : Bytes → List Bytes
unfolding split_from
split_dots path = let (first, later) = split_from path in first ∷ later

-- The loop of `extract_path`.
unfoldable extract_segments : {N : Type 0} → Value N → List Bytes → Value N
unfolding get_field
extract_segments cur [] = cur
extract_segments (object map) (seg ∷ segs) = elim (get_field seg map) [
  | some v ↦ extract_segments v segs
  | none ↦ null
]
extract_segments _ (seg ∷ segs) = null

-- `extract_path`.
unfoldable pub extract_path : {N : Type 0} → Value N → Bytes → Value N
unfolding extract_segments split_dots
extract_path doc path = extract_segments doc (split_dots path)

-- The loop of `get_path`.
unfoldable get_segments : {N : Type 0} → Value N → List Bytes → Option (Value N)
unfolding get_field
get_segments cur [] = some cur
get_segments (object map) (part ∷ parts) = elim (get_field part map) [
  | some v ↦ get_segments v parts
  | none ↦ none
]
get_segments _ (part ∷ parts) = none

-- `get_path`.
unfoldable pub get_path : {N : Type 0} → Value N → Bytes → Option (Value N)
unfolding get_segments split_dots
get_path doc path = get_segments doc (split_dots path)

abbrev pub or_null : {N : Type 0} → Option (Value N) → Value N
or_null none = null
or_null (some v) = v

extract_segments-get_segments :
    {N : Type 0} (doc : Value N) (segs : List Bytes)
    → extract_segments doc segs ≡ or_null (get_segments doc segs)
unfolding extract_segments get_segments
extract_segments-get_segments doc [] = refl
extract_segments-get_segments null (s ∷ segs) = refl
extract_segments-get_segments (boolean b) (s ∷ segs) = refl
extract_segments-get_segments (number n) (s ∷ segs) = refl
extract_segments-get_segments (string t) (s ∷ segs) = refl
extract_segments-get_segments (array items) (s ∷ segs) = refl
extract_segments-get_segments (object map) (s ∷ segs) = elim (Option-cases (get_field s map)) [
  | inl e ↦ rw (e, extract_segments, get_segments) refl
  | inr (v, e) ↦ rw (e, extract_segments, get_segments) (extract_segments-get_segments v segs)
]

-- The two readers agree: a missing field is null to the one and nothing to the other.
pub extract_path-get_path :
    {N : Type 0} (doc : Value N) (path : Bytes)
    → extract_path doc path ≡ or_null (get_path doc path)
unfolding extract_path get_path
extract_path-get_path doc path = extract_segments-get_segments doc (split_dots path)
