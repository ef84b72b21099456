-- ===== src/Planner.antt =====
-- crates/zydecodb-document/src/planner.rs: the access path for a filter. An `unwrap`, an index into a
-- map or a slice that would panic gives `none`.
pub mod Constraints
pub mod Meets
pub mod Collected
pub mod Front
pub mod Bounds
pub mod Choice
pub mod Best
pub mod Covers
pub mod Superset
mod Tests
use zydecodb.Prelude.{
  ℕ, zero, suc, ◌+◌, Bool, true, false, Option, none, some, List, [], ◌∷◌, ◌++◌, take, get_elem?,
  ltb, ◌==◌, ◌&&◌, ◌||◌, not, if◌then◌else◌,
}
use zydecodb.Prelude.Bytes.{Bytes}
use zydecodb.Json.{Value, string}
use zydecodb.Encoding.{encode_value, encode_value_desc, encode_fields_with_directions}
use zydecodb.Encoding.Path.{same_str}
use zydecodb.DocKeys.{index_prefix, prefix_upper_bound}
use zydecodb.Catalog.{IndexMeta, CollectionMeta, ascending}
use zydecodb.Filter.{Filter, id_field}
use zydecodb.Filter.Compare.{is_scalar}
use Constraints.{Constraint, ConstraintMap, collect_constraints, get_constraint, no_constraint}

-- `AccessPath`.
pub data AccessPath : Type 0 where
  by_id : Bytes → AccessPath
  index_scan :
      (lo hi : Bytes) (fields : List Bytes) (directions : List Bool) (eq_prefix_len : ℕ)
      → AccessPath
  collection_scan : AccessPath

abbrev pub is_some {ℓ} : {A : Type ℓ} → Option A → Bool
is_some none = false
is_some (some a) = true

-- `(eq_len, has_range) > (be, br)`.
abbrev pub better_than : ℕ → Bool → ℕ → Bool → Bool
better_than eq_len ranged be br = ltb be eq_len || (be == eq_len && (ranged && not br))

abbrev pub better_than_best : ℕ → Bool → Option (ℕ × Bool × IndexMeta) → Bool
better_than_best eq_len ranged none = true
better_than_best eq_len ranged (some (be, br, _)) = better_than eq_len ranged be br

-- `directions.get(eq_len).copied().unwrap_or(true)`.
abbrev pub direction_at : List Bool → ℕ → Bool
direction_at [] n = true
direction_at (d ∷ ds) zero = d
direction_at (d ∷ ds) (suc n) = direction_at ds n

module _ {N : Type 0} where
  -- `Constraint::has_range`.
  abbrev pub has_range : Constraint N → Bool
  has_range c = is_some c.lo || is_some c.hi

  -- The test of the inner loop of `plan`: an equality on the field.
  abbrev pub has_eq : Option (Constraint N) → Bool
  has_eq none = false
  has_eq (some c) = is_some c.eq

  abbrev pub has_range_of : Option (Constraint N) → Bool
  has_range_of none = false
  has_range_of (some c) = has_range c

  abbrev pub get_constraint_of : ConstraintMap N → Option Bytes → Option (Constraint N)
  get_constraint_of constraints none = none
  get_constraint_of constraints (some f) = get_constraint constraints f

  -- The inner loop of `plan`: the equality prefix of an index.
  unfoldable pub eq_prefix : ConstraintMap N → List Bytes → ℕ
  unfolding get_constraint
  eq_prefix constraints [] = 0
  eq_prefix constraints (f ∷ fields) =
      let rest = eq_prefix constraints fields in
      if has_eq (get_constraint constraints f) then suc rest else 0

  -- A range on the field behind the prefix.
  unfoldable pub range_behind : ConstraintMap N → List Bytes → ℕ → Bool
  unfolding get_constraint
  range_behind constraints fields eq_len =
      has_range_of (get_constraint_of constraints (get_elem? fields eq_len))

  -- The outer loop of `plan`.
  unfoldable pub best_index :
      ConstraintMap N
      → List IndexMeta
      → Option (ℕ × Bool × IndexMeta)
      → Option (ℕ × Bool × IndexMeta)
  unfolding eq_prefix range_behind
  best_index constraints [] best = best
  best_index constraints (idx ∷ indexes) best =
      let eq_len = eq_prefix constraints idx.fields in
      let ranged = range_behind constraints idx.fields eq_len in
      best_index constraints indexes (
        if eq_len == 0 && not ranged
        then best
        else if better_than_best eq_len ranged best
        then some (eq_len, ranged, idx)
        else best)

  -- `eq_vals`, each unwrapped.
  unfoldable pub eq_values : ConstraintMap N → List Bytes → Option (List (Value N))
  unfolding get_constraint
  eq_values constraints [] = some []
  eq_values constraints (f ∷ fields) =
      let rest = eq_values constraints fields in
      elim (get_constraint constraints f) [
        | none ↦ none
        | some c ↦ elim c.eq [
          | none ↦ none
          | some v ↦ elim rest [ none ↦ none | some vs ↦ some (v ∷ vs) ]
        ]
      ]

module _ {N : Type 0} (as_f64 : N → Option ℕ) where
  abbrev pub pushed : (Value N → Bytes) → Option (Value N) → Bytes
  pushed encode none = []
  pushed encode (some v) = encode v

  abbrev pub upper_bound : (Value N → Bytes) → Bytes → Option (Value N) → Bytes
  upper_bound encode base none = prefix_upper_bound base
  upper_bound encode base (some v) = prefix_upper_bound (base ++ encode v)

  -- The bounds of a range: for a descending field the two limits change places.
  unfoldable pub ranged_bounds : Bytes → Constraint N → Bool → Bytes × Bytes
  unfolding encode_value encode_value_desc prefix_upper_bound
  ranged_bounds base c true =
      (base ++ pushed (encode_value as_f64) c.lo, upper_bound (encode_value as_f64) base c.hi)
  ranged_bounds base c false = (
    base ++ pushed (encode_value_desc as_f64) c.hi,
    upper_bound (encode_value_desc as_f64) base c.lo,
  )

  -- The `match` on the range.
  unfoldable pub scan_bounds : Bytes → Option (Constraint N) → Bool → Bytes × Bytes
  unfolding ranged_bounds
  scan_bounds base none field_asc = (base, prefix_upper_bound base)
  scan_bounds base (some c) field_asc =
      if has_range c then ranged_bounds base c field_asc else (base, prefix_upper_bound base)

  -- `build_index_scan`.
  unfoldable pub build_index_scan : Bytes → ℕ → IndexMeta → ℕ → ConstraintMap N → Option AccessPath
  unfolding eq_values scan_bounds ascending encode_fields_with_directions index_prefix
  build_index_scan prefix collection_id idx eq_len constraints =
      let directions = ascending idx in
      elim (eq_values constraints (take eq_len idx.fields)) [
        | none ↦ none
        | some eq_vals ↦
            let base =
              index_prefix prefix collection_id idx.id
              ++ encode_fields_with_directions as_f64 eq_vals (take eq_len directions) in
            let range = get_constraint_of constraints (get_elem? idx.fields eq_len) in
            let (lo, hi) = scan_bounds base range (direction_at directions eq_len) in
            some (index_scan lo hi idx.fields directions eq_len)
      ]

  -- The string of an equality on `_id`.
  abbrev pub id_literal : Option (Constraint N) → Option Bytes
  id_literal none = none
  id_literal (some c) = elim c.eq [ some (string s) ↦ some s | _ ↦ none ]

  -- `plan`, behind its fast path for `_id`.
  unfoldable pub plan_indexed : ConstraintMap N → Bytes → CollectionMeta → Option AccessPath
  unfolding best_index build_index_scan
  plan_indexed constraints prefix coll = elim (best_index constraints coll.indexes none) [
    | none ↦ some collection_scan
    | some (eq_len, ranged, idx) ↦ build_index_scan prefix coll.id idx eq_len constraints
  ]

  -- `plan`.
  unfoldable pub plan : {R : Type 0} → Filter N R → Bytes → CollectionMeta → Option AccessPath
  unfolding collect_constraints plan_indexed
  plan filter prefix coll =
      let constraints = collect_constraints filter in
      let otherwise = plan_indexed constraints prefix coll in
      elim (id_literal (get_constraint constraints id_field)) [
        | some s ↦ some (by_id s)
        | none ↦ otherwise
      ]

  -- `equality_index`.
  unfoldable pub equality_index : List IndexMeta → Bytes → Option IndexMeta
  unfolding same_str
  equality_index [] f = none
  equality_index (idx ∷ indexes) f =
      let rest = equality_index indexes f in
      elim idx.fields [ [] ↦ rest | g ∷ gs ↦ if same_str g f then some idx else rest ]

  -- `has_equality_index`.
  unfoldable pub has_equality_index : CollectionMeta → Bytes → Bool
  unfolding equality_index
  has_equality_index coll f = same_str f id_field || is_some (equality_index coll.indexes f)

  -- `plan_equality`: `none` where it returns `BadFilter`.
  unfoldable pub plan_equality : Bytes → CollectionMeta → Bytes → Value N → Option AccessPath
  unfolding equality_index build_index_scan same_str
  plan_equality prefix coll f value =
      if same_str f id_field
      then elim value [ string s ↦ some (by_id s) | _ ↦ none ]
      else if not (is_scalar value)
      then none
      else elim (equality_index coll.indexes f) [
        | none ↦ none
        | some idx ↦
            build_index_scan prefix coll.id idx 1
              ((f, record no_constraint { eq = some value }) ∷ [])
      ]
