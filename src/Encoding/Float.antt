-- ===== src/Encoding/Float.antt =====
-- IEEE-754 doubles as their bit patterns, `f64::to_bits`: a sign bit, eleven bits of exponent and
-- fifty-two of fraction. What the standard says they are worth, and the transform of
-- crates/zydecodb-document/src/encoding.rs that makes the patterns sort as the numbers do.
pub mod Order
use Prim.Native.Nat.Ordering.{lt, eq, gt}
use zydecodb.Prelude.{
  ℕ, zero, suc, ◌+◌, ◌-◌, ◌*◌, ◌/◌, ◌%◌, ◌^◌, ◌≤◌, ◌<◌, ◌≡◌, ◌≢◌, Ordering, compare, Bool, true,
  false, leb, if◌then◌else◌, ◌==◌, ◌&&◌,
}
use zydecodb.Prelude.Order.{swap}
use zydecodb.Prelude.Bytes.{Bytes, to_be}

abbrev pub sign_bit : ℕ
sign_bit = 2 ^ 63

-- What a pattern without sign bit is worth, in units of 2^-1074: subnormal at exponent 0.
abbrev pub units : ℕ → ℕ → ℕ
units zero fraction = fraction
units (suc e) fraction = (2 ^ 52 + fraction) * 2 ^ e

unfoldable pub magnitude : ℕ → ℕ
magnitude m = units (m / 2 ^ 52) (m % 2 ^ 52)

abbrev pub is_negative : ℕ → Bool
is_negative bits = leb sign_bit bits

-- The numeric order: of two numbers of one sign the magnitudes decide, the other way round below
-- zero; 0.0 and -0.0 are equal.
abbrev pub cmp_signed : Bool → ℕ → Bool → ℕ → Ordering
cmp_signed false m false n = compare m n
cmp_signed true m true n = compare n m
cmp_signed true m false n = if m == 0 && n == 0 then eq else lt
cmp_signed false m true n = if m == 0 && n == 0 then eq else gt

unfoldable pub cmp_f64 : ℕ → ℕ → Ordering
unfolding magnitude
cmp_f64 a b =
    cmp_signed (is_negative a) (magnitude (a % sign_bit)) (is_negative b) (magnitude (b % sign_bit))

-- `x` of `encode_f64_total_order`: `bits & (1 << 63) != 0` is `2 ^ 63 ≤ bits` of a 64-bit word,
-- `!bits` is `2 ^ 64 - 1 - bits`, and `bits | (1 << 63)` adds the bit that is not there.
unfoldable pub total_order_bits : ℕ → ℕ
total_order_bits bits = if leb sign_bit bits then 2 ^ 64 - 1 - bits else bits + sign_bit

-- `encode_f64_total_order`.
unfoldable pub encode_f64_total_order : ℕ → Bytes
unfolding total_order_bits
encode_f64_total_order bits = to_be 8 (total_order_bits bits)
