-- ===== src/Planner/Meets.antt =====
-- What the constraints that crates/zydecodb-document/src/planner.rs collects say of a document that
-- the filter matches.
use Prim.Native.Nat.Ordering.{lt, eq, gt}
use zydecodb.Prelude.{ℕ, ◌≡◌, ◌≢◌, subst, Ordering, Bool, true, Option, none, some, arith}
use zydecodb.Prelude.Bytes.{Bytes}
use zydecodb.Json.{Value}
use zydecodb.Encoding.Path.{or_null}
use zydecodb.Encoding.Reference.{cmp_ref, IsPlain}
use zydecodb.Filter.{
  FieldPred, field_pred, Atoms, no_atoms, and_atom, Atom, equals, differs, above, at_least, below,
  at_most, one_of, none_of, exists, of_type, holds_all, elem_match, regex, str_eq, matches_str,
  all_match_str, all_atoms, atom_matches, is_gt, is_ge, is_lt, is_le,
}
use zydecodb.Filter.Scalars.{eq_match_sound, ordering_match_sound}
use zydecodb.Planner.Constraints.{Constraint, add_atom, add_atoms}

-- A predicate at the value, if there is one.
abbrev pub Each {ℓ κ} : {A : Type ℓ} → (A → Type κ) → Option A → Type κ
Each P none = Unit
Each P (some a) = P a

pub Each-at {ℓ κ} :
    {A : Type ℓ} (P : A → Type κ) {o : Option A} {a : A} → o ≡ some a → Each P o → P a
Each-at P e h = subst (Each P) e h

-- The document's id equals the literal of the constraint.
abbrev pub MeetsId : {N : Type 0} → Bytes → Constraint N → Type 0
MeetsId s c = Each (λ t. str_eq s t ≡ true) c.eq

gt_not_lt : (o : Ordering) → is_gt o ≡ true → o ≢ lt
gt_not_lt o e = ground arith

ge_not_lt : (o : Ordering) → is_ge o ≡ true → o ≢ lt
ge_not_lt o e = ground arith

lt_not_gt : (o : Ordering) → is_lt o ≡ true → o ≢ gt
lt_not_gt o e = ground arith

le_not_gt : (o : Ordering) → is_le o ≡ true → o ≢ gt
le_not_gt o e = ground arith

module _ {N : Type 0} (as_f64 : N → Option ℕ) where
  -- A literal is equal, a lower or an upper limit.
  abbrev pub IsAsEq : Value N → Value N → Type 0
  IsAsEq v t = IsPlain as_f64 t × (cmp_ref as_f64 v t ≡ eq)

  abbrev pub IsAsLower : Value N → Value N → Type 0
  IsAsLower v t = IsPlain as_f64 t × (cmp_ref as_f64 v t ≢ lt)

  abbrev pub IsAsUpper : Value N → Value N → Type 0
  IsAsUpper v t = IsPlain as_f64 t × (cmp_ref as_f64 v t ≢ gt)

  -- The value of a field stands in the order where the constraint asks it to.
  abbrev pub Meets : Value N → Constraint N → Type 0
  Meets v c = Each (IsAsEq v) c.eq × Each (IsAsLower v) c.lo × Each (IsAsUpper v) c.hi

module _ {N R : Type 0} (as_f64 : N → Option ℕ) where
  -- The literals that the planner may use are bytes, and not -0.0.
  abbrev pub IsPlainAtom : Atom N R → Type 0
  IsPlainAtom (equals v) = IsPlain as_f64 v
  IsPlainAtom (above v) = IsPlain as_f64 v
  IsPlainAtom (at_least v) = IsPlain as_f64 v
  IsPlainAtom (below v) = IsPlain as_f64 v
  IsPlainAtom (at_most v) = IsPlain as_f64 v
  IsPlainAtom _ = Unit

  abbrev pub IsPlainAtoms : Atoms N R → Type 0
  IsPlainAtoms no_atoms = Unit
  IsPlainAtoms (and_atom a atoms) = IsPlainAtom a × IsPlainAtoms atoms

  abbrev pub IsPlainPred : FieldPred N R → Type 0
  IsPlainPred (field_pred path atoms) = IsPlainAtoms atoms

module _ {N R : Type 0} (as_f64 : N → Option ℕ) (is_match : R → Bytes → Bool)
    (lossy : Bytes → Bytes) where
  atom-Meets :
      (a : Atom N R) (o : Option (Value N)) (c : Constraint N)
      → IsPlainAtom as_f64 a
      → atom_matches as_f64 is_match lossy a o ≡ true
      → Meets as_f64 (or_null o) c
      → Meets as_f64 (or_null o) (add_atom a c)
  unfolding atom_matches
  atom-Meets (equals t) o c p e m = ground (arith, eq_match_sound as_f64 o t)
  atom-Meets (above t) o c p e m =
      ground
        (arith, gt_not_lt (cmp_ref as_f64 (or_null o) t) (ordering_match_sound as_f64 o t is_gt e))
  atom-Meets (at_least t) o c p e m =
      ground
        (arith, ge_not_lt (cmp_ref as_f64 (or_null o) t) (ordering_match_sound as_f64 o t is_ge e))
  atom-Meets (below t) o c p e m =
      ground
        (arith, lt_not_gt (cmp_ref as_f64 (or_null o) t) (ordering_match_sound as_f64 o t is_lt e))
  atom-Meets (at_most t) o c p e m =
      ground
        (arith, le_not_gt (cmp_ref as_f64 (or_null o) t) (ordering_match_sound as_f64 o t is_le e))
  atom-Meets (differs t) o c p e m = m
  atom-Meets (one_of list) o c p e m = m
  atom-Meets (none_of list) o c p e m = m
  atom-Meets (exists want) o c p e m = m
  atom-Meets (of_type name) o c p e m = m
  atom-Meets (holds_all operands) o c p e m = m
  atom-Meets (elem_match sub) o c p e m = m
  atom-Meets (regex pattern insensitive re) o c p e m = m

  pub atoms-Meets :
      (atoms : Atoms N R) (o : Option (Value N)) (c : Constraint N)
      → IsPlainAtoms as_f64 atoms
      → all_atoms as_f64 is_match lossy atoms o ≡ true
      → Meets as_f64 (or_null o) c
      → Meets as_f64 (or_null o) (add_atoms atoms c)
  unfolding add_atoms all_atoms
  atoms-Meets no_atoms o c p e m = m
  atoms-Meets (and_atom a atoms) o c p e m =
      atoms-Meets atoms o (add_atom a c) p.1 (ground arith) (atom-Meets a o c p.0 (ground arith) m)

  atom-MeetsId :
      (a : Atom N R) (s : Bytes) (c : Constraint N)
      → matches_str is_match a s ≡ true
      → MeetsId s c
      → MeetsId s (add_atom a c)
  unfolding matches_str
  atom-MeetsId (equals t) s c e m = ground arith
  atom-MeetsId (above t) s c e m = ground arith
  atom-MeetsId (at_least t) s c e m = ground arith
  atom-MeetsId (below t) s c e m = ground arith
  atom-MeetsId (at_most t) s c e m = ground arith
  atom-MeetsId (differs t) s c e m = m
  atom-MeetsId (one_of list) s c e m = m
  atom-MeetsId (none_of list) s c e m = m
  atom-MeetsId (exists want) s c e m = m
  atom-MeetsId (of_type name) s c e m = m
  atom-MeetsId (holds_all operands) s c e m = m
  atom-MeetsId (elem_match sub) s c e m = m
  atom-MeetsId (regex pattern insensitive re) s c e m = m

  pub atoms-MeetsId :
      (atoms : Atoms N R) (s : Bytes) (c : Constraint N)
      → all_match_str is_match atoms s ≡ true
      → MeetsId s c
      → MeetsId s (add_atoms atoms c)
  unfolding add_atoms all_match_str
  atoms-MeetsId no_atoms s c e m = m
  atoms-MeetsId (and_atom a atoms) s c e m =
      atoms-MeetsId atoms s (add_atom a c) (ground arith) (atom-MeetsId a s c (ground arith) m)
