-- ===== src/Planner/Constraints.antt =====
-- crates/zydecodb-document/src/planner.rs and filter.rs: the constraints that a filter puts on single
-- fields. The `HashMap` is an association list.
use zydecodb.Prelude.{Option, none, some, List, [], ◌∷◌, ◌++◌, if◌then◌else◌}
use zydecodb.Prelude.Bytes.{Bytes}
use zydecodb.Json.{Value}
use zydecodb.Encoding.Path.{same_str}
use zydecodb.Filter.{
  Filter, all_of, on_field, Filters, no_filters, and_filter, FieldPred, field_pred, Atoms, no_atoms,
  and_atom, Atom, equals, above, at_least, below, at_most,
}
use zydecodb.Filter.Compare.{is_scalar}

-- `Constraint`.
pub record Constraint (N : Type 0) : Type 0 where
  pub eq : Option (Value N)
  pub lo : Option (Value N)
  pub hi : Option (Value N)

abbrev pub ConstraintMap : Type 0 → Type 0
ConstraintMap N = List (Bytes × Constraint N)

module _ {N : Type 0} where
  -- `Constraint::default`.
  abbrev pub no_constraint : Constraint N
  no_constraint = record { eq = none; lo = none; hi = none }

  -- `map.get`.
  unfoldable pub get_constraint : ConstraintMap N → Bytes → Option (Constraint N)
  unfolding same_str
  get_constraint [] f = none
  get_constraint ((path, c) ∷ rest) f =
      let later = get_constraint rest f in if same_str path f then some c else later

  -- `map.entry(f).or_default()`, with what is done to the entry.
  unfoldable pub update_entry :
      ConstraintMap N → Bytes → (Constraint N → Constraint N) → ConstraintMap N
  unfolding same_str
  update_entry [] f g = (f, g no_constraint) ∷ []
  update_entry ((path, c) ∷ rest) f g =
      let later = update_entry rest f g in
      if same_str path f then (path, g c) ∷ rest else (path, c) ∷ later

module _ {N R : Type 0} where
  -- The `match` on an atom.
  abbrev pub add_atom : Atom N R → Constraint N → Constraint N
  add_atom (equals v) c = if is_scalar v then record c { eq = some v } else c
  add_atom (above v) c = if is_scalar v then record c { lo = some v } else c
  add_atom (at_least v) c = if is_scalar v then record c { lo = some v } else c
  add_atom (below v) c = if is_scalar v then record c { hi = some v } else c
  add_atom (at_most v) c = if is_scalar v then record c { hi = some v } else c
  add_atom _ c = c

  -- The loop over the atoms of a field.
  unfoldable pub add_atoms : Atoms N R → Constraint N → Constraint N
  add_atoms no_atoms c = c
  add_atoms (and_atom a atoms) c = add_atoms atoms (add_atom a c)

  unfoldable mutual
    -- `collect_top_level`.
    pub collect_top_level : Filter N R → List (FieldPred N R) → List (FieldPred N R)
    collect_top_level (on_field fp) out = out ++ fp ∷ []
    collect_top_level (all_of fs) out = collect_all fs out
    collect_top_level _ out = out

    pub collect_all : Filters N R → List (FieldPred N R) → List (FieldPred N R)
    collect_all no_filters out = out
    collect_all (and_filter f fs) out = collect_all fs (collect_top_level f out)

  -- `top_level_fields`.
  unfoldable pub top_level_fields : Filter N R → List (FieldPred N R)
  unfolding collect_top_level
  top_level_fields f = collect_top_level f []

  -- The loop of `collect_constraints`.
  unfoldable pub constrain : List (FieldPred N R) → ConstraintMap N → ConstraintMap N
  unfolding update_entry add_atoms
  constrain [] map = map
  constrain (field_pred path atoms ∷ preds) map =
      constrain preds (update_entry map path (add_atoms atoms))

  -- `collect_constraints`.
  unfoldable pub collect_constraints : Filter N R → ConstraintMap N
  unfolding constrain top_level_fields
  collect_constraints filter = constrain (top_level_fields filter) []
