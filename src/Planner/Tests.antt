-- ===== src/Planner/Tests.antt =====
-- Plans at concrete filters, and two documents that an index loses.
use zydecodb.Prelude.{
  ℕ, ◌≡◌, refl, sym, subst, Bool, true, false, Option, none, some, List, [], ◌∷◌, arith, All,
}
use zydecodb.Prelude.Bytes.{Bytes, to_be, cmp_bytes}
use zydecodb.Json.{Value, number, string, object, end, field}
use zydecodb.Encoding.Path.{same_str, extract_path}
use zydecodb.Encoding.Reference.{IsPlain}
use zydecodb.DocKeys.Scan.{in_range}
use zydecodb.Catalog.{IndexMeta, CollectionMeta}
use zydecodb.Filter.{
  Filter, on_field, field_pred, and_atom, no_atoms, equals, above, id_field, matches,
}
use zydecodb.Store.{index_keys_for}
use zydecodb.Planner.{AccessPath, index_scan, plan, best_index}
use zydecodb.Planner.Constraints.{top_level_fields, ConstraintMap, no_constraint}
use zydecodb.Planner.Meets.{IsPlainPred}
use zydecodb.Planner.Front.{IsIndexable}
use zydecodb.Planner.Best.{IsBest, best_index_maximal}
use zydecodb.Planner.Covers.{IsCovered}
use zydecodb.Planner.Superset.{plan-IsCovered}

abbrev path_a : Bytes
path_a = b'a' ∷ []

abbrev one : ℕ
one = 0x3ff0_0000_0000_0000

abbrev minus_zero : ℕ
minus_zero = 0x8000_0000_0000_0000

abbrev index_on : ℕ → List Bytes → List Bool → IndexMeta
index_on n fields directions = record {
  id = n;
  name = [];
  fields = fields;
  directions = directions;
  unique = false;
  expire_after_seconds = none;
  entry_count = 0;
}

abbrev coll_with : List IndexMeta → CollectionMeta
coll_with indexes = record { id = 1; prefix = 1 ∷ []; name = []; indexes = indexes; doc_count = 0 }

abbrev Word : Type 0
Word = Unit {0}

abbrev any_regex : Word → Bytes → Bool
any_regex re s = true

abbrev utf8 : Bytes → Bytes
utf8 s = s

abbrev above_zero : Filter ℕ Word
above_zero = on_field (field_pred path_a (and_atom (above (number 0)) no_atoms))

abbrev doc_one : Value ℕ
doc_one = object (field path_a (number one) end)

abbrev descending : CollectionMeta
descending = coll_with (index_on 7 (path_a ∷ []) (false ∷ []) ∷ [])

value_of_a : extract_path doc_one path_a ≡ number one
unfolding extract_path
value_of_a = refl

indexable : All (λ idx. IsIndexable some doc_one idx.fields) descending.indexes
unfolding same_str
indexable = (((subst (IsPlain some) (sym value_of_a) (omega arith), refl), tt), tt)

literal_plain : All (IsPlainPred some) (top_level_fields above_zero)
unfolding top_level_fields
literal_plain = omega arith

one_matches : matches some any_regex utf8 above_zero doc_one (some (b'x' ∷ [])) ≡ true
unfolding matches
one_matches = refl

plan-IsCovered_example :
    (path : AccessPath) × (plan some above_zero (1 ∷ []) descending ≡ some path)
    × IsCovered (b'x' ∷ []) (index_keys_for some descending (1 ∷ []) (b'x' ∷ []) doc_one) path
plan-IsCovered_example =
    plan-IsCovered some any_regex utf8 doc_one (b'x' ∷ []) (1 ∷ []) descending (omega arith)
      (omega arith) indexable above_zero refl literal_plain one_matches

-- The literal 0.0 equals a stored -0.0, and the range for it does not hold the key of -0.0.
abbrev equals_zero : Filter ℕ Word
equals_zero = on_field (field_pred path_a (and_atom (equals (number 0)) no_atoms))

abbrev doc_minus_zero : Value ℕ
doc_minus_zero = object (field path_a (number minus_zero) end)

abbrev on_a : CollectionMeta
on_a = coll_with (index_on 7 (path_a ∷ []) [] ∷ [])

zero_matches : matches some any_regex utf8 equals_zero doc_minus_zero (some (b'x' ∷ [])) ≡ true
unfolding matches
zero_matches = refl

-- The first key of the document, against the range of the plan.
abbrev first_in_range : List Bytes → Option AccessPath → Option Bool
first_in_range (key ∷ keys) (some (index_scan lo hi fields directions n)) =
    some (in_range lo hi key)
first_in_range _ _ = none

zero_missed :
    first_in_range
      (index_keys_for some on_a (1 ∷ []) (b'x' ∷ []) doc_minus_zero)
      (plan some equals_zero (1 ∷ []) on_a)
    ≡ some false
unfolding plan index_keys_for to_be in_range
zero_missed = refl

-- An index on `_id` holds what the body says, and filters read the document's id.
abbrev id_above : Filter ℕ Word
id_above = on_field (field_pred id_field (and_atom (above (string [])) no_atoms))

abbrev on_id : CollectionMeta
on_id = coll_with (index_on 7 (id_field ∷ []) [] ∷ [])

id_matches : matches some any_regex utf8 id_above doc_one (some (b'x' ∷ [])) ≡ true
unfolding matches
id_matches = refl

id_missed :
    first_in_range
      (index_keys_for some on_id (1 ∷ []) (b'x' ∷ []) doc_one)
      (plan some id_above (1 ∷ []) on_id)
    ≡ some false
unfolding plan index_keys_for to_be in_range
id_missed = refl

-- An equality on `a` and a range on `b`: the index on both goes first, whatever else there is.
abbrev both_constrained : ConstraintMap ℕ
both_constrained =
    (path_a, record no_constraint { eq = some (number one) })
    ∷ (b'b' ∷ [], record no_constraint { lo = some (number 0) })
    ∷ []

abbrev three_indexes : List IndexMeta
three_indexes =
    index_on 1 (path_a ∷ []) []
    ∷ index_on 2 ((b'b' ∷ []) ∷ []) []
    ∷ index_on 3 (path_a ∷ (b'b' ∷ []) ∷ []) []
    ∷ []

longest_prefix :
    best_index both_constrained three_indexes none
    ≡ some (1, true, index_on 3 (path_a ∷ (b'b' ∷ []) ∷ []) [])
unfolding best_index same_str cmp_bytes
longest_prefix = refl

best_index_maximal_example :
    IsBest both_constrained three_indexes (best_index both_constrained three_indexes none)
best_index_maximal_example = best_index_maximal both_constrained three_indexes
