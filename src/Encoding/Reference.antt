-- ===== src/Encoding/Reference.antt =====
-- The order of JSON values that the encoding is to preserve, stated on the values themselves.
use Prim.Native.Nat.Ordering.{lt, eq, gt}
use zydecodb.Prelude.{ℕ, ◌<◌, ◌^◌, ◌≢◌, Ordering, compare, Bool, true, false, Option, List, ◌∷◌}
use zydecodb.Prelude.Order.{then_with, swap}
use zydecodb.Prelude.Bytes.{IsBytes, cmp_bytes}
use zydecodb.Json.{Value, null, boolean, number, string, array, object}
use zydecodb.Encoding.{or_zero, first_direction, later_directions}
use zydecodb.Encoding.Float.{cmp_f64, sign_bit}

-- null < bool < number < string; arrays and objects count as null.
abbrev pub rank : {N : Type 0} → Value N → ℕ
rank null = 0
rank (boolean b) = 1
rank (number n) = 2
rank (string s) = 3
rank (array items) = 0
rank (object fields) = 0

-- false < true.
abbrev pub cmp_bool : Bool → Bool → Ordering
cmp_bool false true = lt
cmp_bool true false = gt
cmp_bool _ _ = eq

-- In the direction of a field.
abbrev pub directed : Bool → Ordering → Ordering
directed true o = o
directed false o = swap o

module _ {N : Type 0} (as_f64 : N → Option ℕ) where
  -- Within a rank: booleans, numbers by their numeric value, strings by their bytes.
  abbrev pub cmp_within : Value N → Value N → Ordering
  cmp_within (boolean a) (boolean b) = cmp_bool a b
  cmp_within (number a) (number b) = cmp_f64 (or_zero (as_f64 a)) (or_zero (as_f64 b))
  cmp_within (string a) (string b) = cmp_bytes a b
  cmp_within _ _ = eq

  abbrev pub cmp_ref : Value N → Value N → Ordering
  cmp_ref a b = then_with (compare (rank a) (rank b)) (cmp_within a b)

  -- What the Rust types give (bytes, 64-bit patterns), and that a number is not -0.0.
  abbrev pub IsPlain : Value N → Type 0
  IsPlain (number n) = (or_zero (as_f64 n) < 2 ^ 64) × (or_zero (as_f64 n) ≢ sign_bit)
  IsPlain (string s) = IsBytes s
  IsPlain _ = Unit

  -- Field by field, each in its direction.
  abbrev pub cmp_fields : List (Value N) → List (Value N) → List Bool → Ordering
  cmp_fields (a ∷ vs) (b ∷ ws) ds =
      then_with (directed (first_direction ds) (cmp_ref a b))
        (cmp_fields vs ws (later_directions ds))
  cmp_fields _ _ ds = eq
