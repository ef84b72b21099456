-- ===== src/Planner/Collected.antt =====
-- All the constraints that crates/zydecodb-document/src/planner.rs collects from a filter, at a
-- document that the filter matches.

use zydecodb.Prelude.{
  ℕ, ◌≡◌, inl, inr, sym, subst, Bool, true, false, Option, some, List, [], ◌∷◌, ◌++◌, arith, All,
  Bool-cases,
}
use zydecodb.Prelude.Bytes.{Bytes}
use zydecodb.Json.{Value}
use zydecodb.Encoding.Path.{same_str, same_str_sound, get_path, extract_path, extract_path-get_path}
use zydecodb.Filter.{
  Filter, match_all, all_of, any_of, negated, on_field, Filters, no_filters, and_filter, FieldPred,
  field_pred, Atoms, id_field, matches, pred_matches, all_filters,
}
use zydecodb.Planner.Constraints.{
  Constraint, ConstraintMap, no_constraint, get_constraint, update_entry, add_atoms,
  collect_top_level, collect_all, top_level_fields, constrain, collect_constraints,
}
use zydecodb.Planner.Meets.{Meets, MeetsId, IsPlainAtoms, IsPlainPred, atoms-Meets, atoms-MeetsId}

module _ {N R : Type 0} (as_f64 : N → Option ℕ) (is_match : R → Bytes → Bool)
    (lossy : Bytes → Bytes) where
  module _ (doc : Value N) (id : Bytes) where
    -- A constraint on `_id` is one on the document's id, and one on another path one on the value
    -- there.
    abbrev pub MeetsAt : Bytes → Constraint N → Type 0
    MeetsAt path c = elim (same_str path id_field) [
      | true ↦ MeetsId (lossy id) c
      | false ↦ Meets as_f64 (extract_path doc path) c
    ]

    abbrev pub AllMeet : ConstraintMap N → Type 0
    AllMeet = All (λ pc. MeetsAt pc.0 pc.1)

    pred-MeetsAt :
        (path : Bytes) (atoms : Atoms N R) (c : Constraint N)
        → IsPlainAtoms as_f64 atoms
        → pred_matches as_f64 is_match lossy (field_pred path atoms) doc (some id) ≡ true
        → MeetsAt path c
        → MeetsAt path (add_atoms atoms c)
    unfolding pred_matches
    pred-MeetsAt path atoms c p e m = elim (Bool-cases (same_str path id_field)) [
      | inl s ↦
          rw (s, MeetsAt)
            (atoms-MeetsId as_f64 is_match lossy atoms (lossy id) c (rw (s, pred_matches) at e)
              (rw (s, MeetsAt) at m))
      | inr n ↦
          rw (n, MeetsAt)
            (subst (λ v. Meets as_f64 v (add_atoms atoms c)) (sym (extract_path-get_path doc path))
              (atoms-Meets as_f64 is_match lossy atoms (get_path doc path) c p
                (rw (n, pred_matches) at e)
                (subst (λ v. Meets as_f64 v c) (extract_path-get_path doc path)
                  (rw (n, MeetsAt) at m))))
    ]

    no_constraint-MeetsAt : (path : Bytes) → MeetsAt path no_constraint
    no_constraint-MeetsAt path = ground arith

    update_entry-AllMeet :
        (m : ConstraintMap N) (path : Bytes) (atoms : Atoms N R)
        → IsPlainAtoms as_f64 atoms
        → pred_matches as_f64 is_match lossy (field_pred path atoms) doc (some id) ≡ true
        → AllMeet m
        → AllMeet (update_entry m path (add_atoms atoms))
    unfolding update_entry
    update_entry-AllMeet [] path atoms p e h =
        (pred-MeetsAt path atoms no_constraint p e (no_constraint-MeetsAt path), tt)
    update_entry-AllMeet ((q, c) ∷ m) path atoms p e h = elim (Bool-cases (same_str q path)) [
      | inl s ↦ rw s (
        subst (λ k. MeetsAt k (add_atoms atoms c)) (sym (same_str_sound q path s))
            (pred-MeetsAt path atoms c p e
              (subst (λ k. MeetsAt k c) (same_str_sound q path s) h.0)),
        h.1,
      )
      | inr d ↦ rw d (h.0, update_entry-AllMeet m path atoms p e h.1)
    ]

    abbrev Matched : List (FieldPred N R) → Type 0
    Matched = All (λ fp. pred_matches as_f64 is_match lossy fp doc (some id) ≡ true)

    constrain-AllMeet :
        (preds : List (FieldPred N R)) (m : ConstraintMap N)
        → All (IsPlainPred as_f64) preds
        → Matched preds
        → AllMeet m
        → AllMeet (constrain preds m)
    unfolding constrain
    constrain-AllMeet [] m p e h = h
    constrain-AllMeet (field_pred path atoms ∷ preds) m p e h =
        constrain-AllMeet preds (update_entry m path (add_atoms atoms)) p.1 e.1
          (update_entry-AllMeet m path atoms p.0 e.0 h)

    Matched-snoc :
        (out : List (FieldPred N R)) (fp : FieldPred N R)
        → Matched out
        → pred_matches as_f64 is_match lossy fp doc (some id) ≡ true
        → Matched (out ++ fp ∷ [])
    Matched-snoc [] fp h e = (e, tt)
    Matched-snoc (o ∷ out) fp h e = (h.0, Matched-snoc out fp h.1 e)

    mutual
      unfolding matches collect_top_level

      collect-Matched :
          (f : Filter N R) (out : List (FieldPred N R))
          → matches as_f64 is_match lossy f doc (some id) ≡ true
          → Matched out
          → Matched (collect_top_level f out)
      collect-Matched match_all out e h = h
      collect-Matched (all_of fs) out e h = collect_all-Matched fs out e h
      collect-Matched (any_of fs) out e h = h
      collect-Matched (negated f) out e h = h
      collect-Matched (on_field fp) out e h = Matched-snoc out fp h e

      collect_all-Matched :
          (fs : Filters N R) (out : List (FieldPred N R))
          → all_filters as_f64 is_match lossy fs doc (some id) ≡ true
          → Matched out
          → Matched (collect_all fs out)
      collect_all-Matched no_filters out e h = h
      collect_all-Matched (and_filter f fs) out e h =
          collect_all-Matched fs (collect_top_level f out) (ground arith)
            (collect-Matched f out (ground arith) h)

    -- A document that a filter matches meets every constraint that is collected from the filter.
    pub collect_constraints-AllMeet :
        (f : Filter N R)
        → All (IsPlainPred as_f64) (top_level_fields f)
        → matches as_f64 is_match lossy f doc (some id) ≡ true
        → AllMeet (collect_constraints f)
    unfolding collect_constraints top_level_fields
    collect_constraints-AllMeet f p e =
        constrain-AllMeet (top_level_fields f) [] p (collect-Matched f [] e tt) tt

    pub get_constraint-MeetsAt :
        (m : ConstraintMap N) (path : Bytes) (c : Constraint N)
        → AllMeet m
        → get_constraint m path ≡ some c
        → MeetsAt path c
    unfolding get_constraint
    get_constraint-MeetsAt [] path c h e = ground arith
    get_constraint-MeetsAt ((q, d) ∷ m) path c h e = elim (Bool-cases (same_str q path)) [
      | inl s ↦
          subst (λ k. MeetsAt path k) (some_eq (rw s at e))
            (subst (λ k. MeetsAt k d) (same_str_sound q path s) h.0)
      | inr n ↦ get_constraint-MeetsAt m path c h.1 (rw n at e)
    ]
      where
        some_eq : {a b : Constraint N} → some a ≡ some b → a ≡ b
        some_eq k = ground arith
