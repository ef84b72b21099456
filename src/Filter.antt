-- ===== src/Filter.antt =====
-- crates/zydecodb-document/src/filter.rs: filters as predicate trees, and their evaluation on a
-- document. A `ValueView` of an intact document is the value that the document encodes; the regular
-- expressions are those of the regex crate, of which the code asks `is_match` only.
pub mod Compare
pub mod Scalars
use zydecodb.Prelude.{
  ℕ, Ordering, Bool, true, false, Option, none, some, List, [], ◌∷◌, ◌&&◌, ◌||◌, not, if◌then◌else◌,
}
use Prim.Native.Nat.Ordering.{lt, eq, gt}
use zydecodb.Prelude.Bytes.{Bytes, cmp_bytes}
use zydecodb.Json.{Value, null, boolean, number, string, array, object, Items, nil, cons}
use zydecodb.Encoding.Path.{same_str, get_path}
use zydecodb.Filter.Compare.{value_eq_view, cmp_scalar_view}

-- The names that `$type` takes.
pub data TypeName : Type 0 where
  string_type number_type bool_type null_type array_type object_type binary_type : TypeName

-- `Filter`, `FieldPred` and `Atom`, with the lists that they hold.
mutual
  pub data Filter (N R : Type 0) : Type 0 where
    match_all : Filter N R
    all_of : Filters N R → Filter N R
    any_of : Filters N R → Filter N R
    negated : Filter N R → Filter N R
    on_field : FieldPred N R → Filter N R

  pub data Filters (N R : Type 0) : Type 0 where
    no_filters : Filters N R
    and_filter : Filter N R → Filters N R → Filters N R

  pub data FieldPred (N R : Type 0) : Type 0 where
    field_pred : Bytes → Atoms N R → FieldPred N R

  pub data Atoms (N R : Type 0) : Type 0 where
    no_atoms : Atoms N R
    and_atom : Atom N R → Atoms N R → Atoms N R

  pub data Atom (N R : Type 0) : Type 0 where
    equals differs above at_least below at_most : Value N → Atom N R
    one_of none_of : List (Value N) → Atom N R
    exists : Bool → Atom N R
    of_type : TypeName → Atom N R
    holds_all : List (Value N) → Atom N R
    elem_match : Filter N R → Atom N R
    regex : Bytes → Bool → R → Atom N R

-- `planner::ID_FIELD`.
abbrev pub id_field : Bytes
id_field = b'_' ∷ b'i' ∷ b'd' ∷ []

-- The `accept` lists of `ordering_match`, as tests.
abbrev pub is_gt : Ordering → Bool
is_gt gt = true
is_gt _ = false

abbrev pub is_ge : Ordering → Bool
is_ge lt = false
is_ge _ = true

abbrev pub is_lt : Ordering → Bool
is_lt lt = true
is_lt _ = false

abbrev pub is_le : Ordering → Bool
is_le gt = false
is_le _ = true

-- `Iterator::any` over a list, and over the elements of an array.
abbrev pub any_of_list {ℓ} : {A : Type ℓ} → (A → Bool) → List A → Bool
any_of_list p [] = false
any_of_list p (x ∷ xs) = p x || any_of_list p xs

abbrev pub all_of_list {ℓ} : {A : Type ℓ} → (A → Bool) → List A → Bool
all_of_list p [] = true
all_of_list p (x ∷ xs) = p x && all_of_list p xs

abbrev pub any_item : {N : Type 0} → (Value N → Bool) → Items N → Bool
any_item p nil = false
any_item p (cons v items) = p v || any_item p items

abbrev pub is_null : {N : Type 0} → Value N → Bool
is_null null = true
is_null _ = false

abbrev as_str : {N : Type 0} → Value N → Option Bytes
as_str (string s) = some s
as_str _ = none

-- `type_match`.
abbrev pub type_match : {N : Type 0} → Option (Value N) → TypeName → Bool
type_match (some (string s)) string_type = true
type_match (some (number n)) number_type = true
type_match (some (boolean b)) bool_type = true
type_match (some null) null_type = true
type_match (some (array items)) array_type = true
type_match (some (object fields)) object_type = true
type_match _ _ = false

-- `str_eq`.
unfoldable pub str_eq : {N : Type 0} → Bytes → Value N → Bool
unfolding same_str
str_eq id (string s) = same_str s id
str_eq id _ = false

-- `str_ordering`.
unfoldable pub str_ordering : {N : Type 0} → Bytes → Value N → (Ordering → Bool) → Bool
unfolding cmp_bytes
str_ordering id null accept = accept gt
str_ordering id (boolean b) accept = accept gt
str_ordering id (number n) accept = accept gt
str_ordering id (string s) accept = accept (cmp_bytes id s)
str_ordering id _ accept = false

-- `as_f64` of a number.
module _ {N : Type 0} (as_f64 : N → Option ℕ) where
  -- `eq_match`.
  unfoldable pub eq_match : Option (Value N) → Value N → Bool
  unfolding value_eq_view
  eq_match none target = is_null target
  eq_match (some v) target = value_eq_view as_f64 v target

  -- `ordering_match`.
  unfoldable pub ordering_match : Option (Value N) → Value N → (Ordering → Bool) → Bool
  unfolding cmp_scalar_view
  ordering_match none target accept = false
  ordering_match (some v) target accept = elim (cmp_scalar_view as_f64 v target) [
    | none ↦ false
    | some ord ↦ accept ord
  ]

  -- Any element of `$in` and `$nin`.
  unfoldable pub in_match : Option (Value N) → List (Value N) → Bool
  unfolding value_eq_view
  in_match none list = any_of_list is_null list
  in_match (some v) list = any_of_list (value_eq_view as_f64 v) list

  -- `$all`.
  unfoldable pub all_match : Option (Value N) → List (Value N) → Bool
  unfolding value_eq_view
  all_match (some (array items)) operands =
      all_of_list (λ op. any_item (λ e. value_eq_view as_f64 e op) items) operands
  all_match _ operands = false

-- `Regex::is_match`.
module _ {N R : Type 0} (is_match : R → Bytes → Bool) where
  -- `$regex`.
  abbrev pub regex_match : Option (Value N) → R → Bool
  regex_match (some (string s)) re = is_match re s
  regex_match _ re = false

  -- `Atom::matches_str`.
  unfoldable pub matches_str : Atom N R → Bytes → Bool
  unfolding str_eq str_ordering
  matches_str (equals target) id = str_eq id target
  matches_str (differs target) id = not (str_eq id target)
  matches_str (above target) id = str_ordering id target is_gt
  matches_str (at_least target) id = str_ordering id target is_ge
  matches_str (below target) id = str_ordering id target is_lt
  matches_str (at_most target) id = str_ordering id target is_le
  matches_str (one_of list) id = any_of_list (str_eq id) list
  matches_str (none_of list) id = not (any_of_list (str_eq id) list)
  matches_str (exists want) id = want
  matches_str (of_type string_type) id = true
  matches_str (of_type _) id = false
  matches_str (holds_all operands) id = false
  matches_str (elem_match sub) id = false
  matches_str (regex pattern insensitive re) id = is_match re id

  unfoldable pub all_match_str : Atoms N R → Bytes → Bool
  unfolding matches_str
  all_match_str no_atoms id = true
  all_match_str (and_atom a atoms) id = matches_str a id && all_match_str atoms id

-- `String::from_utf8_lossy`.
module _ {N R : Type 0} (as_f64 : N → Option ℕ) (is_match : R → Bytes → Bool)
    (lossy : Bytes → Bytes) where
  unfoldable mutual
    unfolding eq_match ordering_match in_match all_match all_match_str same_str get_path

    -- `Filter::matches`.
    pub matches : Filter N R → Value N → Option Bytes → Bool
    matches match_all doc id = true
    matches (all_of fs) doc id = all_filters fs doc id
    matches (any_of fs) doc id = any_filter fs doc id
    matches (negated f) doc id = not (matches f doc id)
    matches (on_field fp) doc id = pred_matches fp doc id

    pub all_filters : Filters N R → Value N → Option Bytes → Bool
    all_filters no_filters doc id = true
    all_filters (and_filter f fs) doc id = matches f doc id && all_filters fs doc id

    pub any_filter : Filters N R → Value N → Option Bytes → Bool
    any_filter no_filters doc id = false
    any_filter (and_filter f fs) doc id = matches f doc id || any_filter fs doc id

    -- `FieldPred::matches`.
    pub pred_matches : FieldPred N R → Value N → Option Bytes → Bool
    pred_matches (field_pred path atoms) doc none = all_atoms atoms (get_path doc path)
    pred_matches (field_pred path atoms) doc (some id) =
        let by_value = all_atoms atoms (get_path doc path) in
        if same_str path id_field then all_match_str is_match atoms (lossy id) else by_value

    pub all_atoms : Atoms N R → Option (Value N) → Bool
    all_atoms no_atoms v = true
    all_atoms (and_atom a atoms) v = atom_matches a v && all_atoms atoms v

    -- `Atom::matches`.
    pub atom_matches : Atom N R → Option (Value N) → Bool
    atom_matches (equals target) v = eq_match as_f64 v target
    atom_matches (differs target) v = not (eq_match as_f64 v target)
    atom_matches (above target) v = ordering_match as_f64 v target is_gt
    atom_matches (at_least target) v = ordering_match as_f64 v target is_ge
    atom_matches (below target) v = ordering_match as_f64 v target is_lt
    atom_matches (at_most target) v = ordering_match as_f64 v target is_le
    atom_matches (exists want) none = not want
    atom_matches (exists want) (some v) = want
    atom_matches (one_of list) v = in_match as_f64 v list
    atom_matches (none_of list) v = not (in_match as_f64 v list)
    atom_matches (of_type name) v = type_match v name
    atom_matches (holds_all operands) v = all_match as_f64 v operands
    atom_matches (elem_match sub) (some (array items)) = any_item (λ e. matches sub e none) items
    atom_matches (elem_match sub) _ = false
    atom_matches (regex pattern insensitive re) v = regex_match is_match v re
