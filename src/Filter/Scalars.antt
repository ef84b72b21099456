-- ===== src/Filter/Scalars.antt =====
-- What the tests of crates/zydecodb-document/src/filter.rs say of the order in which
-- crates/zydecodb-document/src/encoding.rs keeps the values.
use Prim.Native.Nat.Ordering.{lt, eq, gt}
use zydecodb.Prelude.{
  ℕ, ◌≡◌, refl, inl, inr, Ordering, Bool, true, false, Option, none, some, arith, Option-cases,
}
use zydecodb.Json.{Value, null, boolean, number, string, array, object}
use zydecodb.Encoding.{or_zero}
use zydecodb.Encoding.Float.{cmp_f64}
use zydecodb.Encoding.Path.{or_null}
use zydecodb.Encoding.Reference.{cmp_ref}
use zydecodb.Filter.{eq_match, ordering_match}
use zydecodb.Filter.Compare.{
  cmp_scalar_view, cmp_numbers, partial_cmp, value_eq_view, is_scalar, is_equal,
}

module _ {N : Type 0} (as_f64 : N → Option ℕ) where
  numbers_agree :
      (x y : Option ℕ) (o : Ordering)
      → cmp_numbers as_f64 x y ≡ some o
      → cmp_f64 (or_zero x) (or_zero y) ≡ o
  unfolding partial_cmp
  numbers_agree none y o e = ground arith
  numbers_agree (some x) none o e = ground arith
  numbers_agree (some x) (some y) o e = ground arith

  -- Where the filter orders two values, the index orders them alike.
  pub scalars_agree :
      (a b : Value N) (o : Ordering) → cmp_scalar_view as_f64 a b ≡ some o → cmp_ref as_f64 a b ≡ o
  unfolding cmp_scalar_view
  scalars_agree null b o e = ground arith
  scalars_agree (boolean x) b o e = ground arith
  scalars_agree (number x) (number y) o e = numbers_agree (as_f64 x) (as_f64 y) o e
  scalars_agree (number x) b o e = ground arith
  scalars_agree (string x) b o e = ground arith
  scalars_agree (array items) b o e = ground arith
  scalars_agree (object fields) b o e = ground arith

  is_equal_sound : (r : Option Ordering) → is_equal r ≡ true → r ≡ some eq
  is_equal_sound none e = ground arith
  is_equal_sound (some lt) e = ground arith
  is_equal_sound (some eq) e = refl
  is_equal_sound (some gt) e = ground arith

  value_eq-scalar :
      (a b : Value N)
      → is_scalar b ≡ true
      → value_eq_view as_f64 a b ≡ true
      → is_equal (cmp_scalar_view as_f64 a b) ≡ true
  unfolding value_eq_view cmp_scalar_view
  value_eq-scalar a (array items) s e = ground arith
  value_eq-scalar a (object fields) s e = ground arith
  value_eq-scalar (array items) b s e = ground arith
  value_eq-scalar (object fields) b s e = ground arith
  value_eq-scalar null b s e = e
  value_eq-scalar (boolean x) b s e = e
  value_eq-scalar (number x) b s e = e
  value_eq-scalar (string x) b s e = e

  -- A field that equals a scalar, or is missing and null is asked for, sorts with it.
  pub eq_match_sound :
      (o : Option (Value N)) (t : Value N)
      → is_scalar t ≡ true
      → eq_match as_f64 o t ≡ true
      → cmp_ref as_f64 (or_null o) t ≡ eq
  unfolding eq_match
  eq_match_sound none null s e = refl
  eq_match_sound none (boolean b) s e = ground arith
  eq_match_sound none (number n) s e = ground arith
  eq_match_sound none (string b) s e = ground arith
  eq_match_sound none (array items) s e = ground arith
  eq_match_sound none (object fields) s e = ground arith
  eq_match_sound (some v) t s e =
      scalars_agree v t eq (is_equal_sound (cmp_scalar_view as_f64 v t) (value_eq-scalar v t s e))

  -- A field that a test on the order accepts sorts so against the literal.
  pub ordering_match_sound :
      (o : Option (Value N)) (t : Value N) (accept : Ordering → Bool)
      → ordering_match as_f64 o t accept ≡ true
      → accept (cmp_ref as_f64 (or_null o) t) ≡ true
  unfolding ordering_match
  ordering_match_sound none t accept e = ground arith
  ordering_match_sound (some v) t accept e = elim (Option-cases (cmp_scalar_view as_f64 v t)) [
    | inl n ↦ absurd (none_accepts (rw (n, ordering_match) at e))
    | inr (o, k) ↦ rw (scalars_agree v t o k) (rw (k, ordering_match) at e)
  ]
    where
      none_accepts : ¬ (false ≡ true)
      none_accepts h = ground arith
