-- ===== src/Filter/Compare.antt =====
-- crates/zydecodb-document/src/filter.rs: the comparison of a stored value with a literal.
use Prim.Native.Nat.Ordering.{eq}
use zydecodb.Prelude.{
  ℕ, suc, ◌%◌, Ordering, compare, Bool, true, false, Option, none, some, ltb, ◌==◌, ◌&&◌, ◌||◌,
  if◌then◌else◌,
}
use zydecodb.Prelude.Bytes.{cmp_bytes}
use zydecodb.Json.{
  Value, null, boolean, number, string, array, object, Items, nil, cons, Fields, end, field,
}
use zydecodb.Encoding.Path.{get_field}
use zydecodb.Encoding.Float.{cmp_f64, sign_bit}
use zydecodb.Encoding.Reference.{cmp_bool}

-- `f64::partial_cmp`, on bit patterns: a NaN compares with nothing.
abbrev is_nan : ℕ → Bool
is_nan bits = ltb 0x7ff0_0000_0000_0000 (bits % sign_bit)

unfoldable pub partial_cmp : ℕ → ℕ → Option Ordering
unfolding cmp_f64
partial_cmp a b = if is_nan a || is_nan b then none else some (cmp_f64 a b)

-- `is_scalar`.
abbrev pub is_scalar : {N : Type 0} → Value N → Bool
is_scalar (array items) = false
is_scalar (object fields) = false
is_scalar _ = true

-- `a_type` and `b_type` of `cmp_scalar_view`.
abbrev pub scalar_type : {N : Type 0} → Value N → Option ℕ
scalar_type null = some 0
scalar_type (boolean b) = some 1
scalar_type (number n) = some 2
scalar_type (string s) = some 3
scalar_type _ = none

abbrev count_items : {N : Type 0} → Items N → ℕ
count_items nil = 0
count_items (cons v items) = suc (count_items items)

abbrev count_fields_of : {N : Type 0} → Fields N → ℕ
count_fields_of end = 0
count_fields_of (field k v fields) = suc (count_fields_of fields)

abbrev pub is_equal : Option Ordering → Bool
is_equal (some eq) = true
is_equal _ = false

module _ {N : Type 0} (as_f64 : N → Option ℕ) where
  -- The numbers of `cmp_scalar_view`: both readers answer, and so does the comparison.
  abbrev pub cmp_numbers : Option ℕ → Option ℕ → Option Ordering
  cmp_numbers (some x) (some y) = partial_cmp x y
  cmp_numbers _ _ = none

  -- The last `match` of `cmp_scalar_view`, on two values of one type.
  abbrev pub cmp_same_type : Value N → Value N → Option Ordering
  cmp_same_type null null = some eq
  cmp_same_type (boolean a) (boolean b) = some (cmp_bool a b)
  cmp_same_type (number a) (number b) = cmp_numbers (as_f64 a) (as_f64 b)
  cmp_same_type (string a) (string b) = some (cmp_bytes a b)
  cmp_same_type _ _ = none

  -- `cmp_scalar_view`.
  unfoldable pub cmp_scalar_view : Value N → Value N → Option Ordering
  unfolding cmp_bytes partial_cmp
  cmp_scalar_view a b = elim (scalar_type a) [
    | none ↦ none
    | some a_type ↦ elim (scalar_type b) [
      | none ↦ none
      | some b_type ↦ if a_type == b_type then cmp_same_type a b else some (compare a_type b_type)
    ]
  ]

  unfoldable mutual
    unfolding cmp_scalar_view get_field

    -- `value_eq_view`.
    pub value_eq_view : Value N → Value N → Bool
    value_eq_view (array a_arr) (array b_arr) =
        count_items a_arr == count_items b_arr && items_eq a_arr b_arr
    value_eq_view (object a_obj) (object b_obj) =
        count_fields_of a_obj == count_fields_of b_obj && fields_eq a_obj b_obj
    value_eq_view a b = is_equal (cmp_scalar_view a b)

    -- Its loop over the elements, of equal number.
    pub items_eq : Items N → Items N → Bool
    items_eq nil b_arr = true
    items_eq (cons av a_arr) nil = false
    items_eq (cons av a_arr) (cons bv b_arr) = value_eq_view av bv && items_eq a_arr b_arr

    -- Its loop over the fields, each looked up in the literal.
    pub fields_eq : Fields N → Fields N → Bool
    fields_eq end b_obj = true
    fields_eq (field k v a_obj) b_obj =
        let rest = fields_eq a_obj b_obj in
        elim (get_field k b_obj) [ none ↦ false | some bv ↦ value_eq_view v bv && rest ]
