-- ===== src/Encoding/Float/Order.antt =====
-- The transform orders the patterns as the numbers.
use native.Mathlib.Decide.{dec_lt}
use native.Mathlib.Nat.{pow-suc, pow-le-pow_right, mul-le-mul_left, mul-le-mul_right}
use zydecodb.Prelude.{
  ℕ, zero, suc, ◌+◌, ◌*◌, ◌/◌, ◌%◌, ◌^◌, ◌≤◌, ◌<◌, ◌≡◌, ◌≢◌, refl, compare, arith,
}
use zydecodb.Encoding.Float.{sign_bit, units, magnitude, cmp_f64, total_order_bits}

pow_positive : (e : ℕ) → 1 ≤ 2 ^ e
pow_positive zero = omega arith
pow_positive (suc e) = omega (arith, pow-suc 2 e, pow_positive e)

units-lt : (e f : ℕ) → f < 2 ^ 52 → units e f < 2 ^ 52 * 2 ^ e
units-lt zero f h = omega arith
units-lt (suc e) f h = omega (
  arith,
  pow-suc 2 e,
  pow_positive e,
  mul-le-mul_right {m = 2 ^ 52 + f + 1} {n = 2 ^ 53} (2 ^ e) (omega arith),
)

units_mono_fraction : (e f g : ℕ) → f < g → units e f < units e g
units_mono_fraction zero f g h = h
units_mono_fraction (suc e) f g h =
    omega (arith, pow_positive e, mul-le-mul_right {m = f + 1} {n = g} (2 ^ e) (omega arith))

units_mono_exponent : (e d f g : ℕ) → f < 2 ^ 52 → e < d → units e f < units d g
units_mono_exponent e zero f g hf h = absurd (omega arith)
units_mono_exponent e (suc d) f g hf h = omega (
  arith,
  units-lt e f hf,
  mul-le-mul_left (2 ^ 52) (pow-le-pow_right {n = 2} (omega arith) {i = e} {j = d} (omega arith)),
)

-- A greater pattern without sign is worth more.
pub magnitude_mono : (m n : ℕ) → m < n → magnitude m < magnitude n
unfolding magnitude
magnitude_mono m n h = elim (dec_lt (m / 2 ^ 52) (n / 2 ^ 52)) [
  | yes p ↦ units_mono_exponent (m / 2 ^ 52) (n / 2 ^ 52) (m % 2 ^ 52) (n % 2 ^ 52) (omega arith) p
  | no p ↦
      let e : m / 2 ^ 52 ≡ n / 2 ^ 52 = omega arith in
      rw e (units_mono_fraction (n / 2 ^ 52) (m % 2 ^ 52) (n % 2 ^ 52) (omega arith))
]

compare-magnitude : (m n : ℕ) → compare (magnitude m) (magnitude n) ≡ compare m n
compare-magnitude m n = ground (arith, magnitude_mono m n, magnitude_mono n m)

magnitude-zero : magnitude 0 ≡ 0
unfolding magnitude
magnitude-zero = refl

-- For 64-bit patterns other than that of -0.0 the unsigned order of the transformed patterns is the
-- numeric order of the numbers.
pub compare-total_order_bits :
    (a b : ℕ)
    → a < 2 ^ 64
    → b < 2 ^ 64
    → a ≢ sign_bit
    → b ≢ sign_bit
    → compare (total_order_bits a) (total_order_bits b) ≡ cmp_f64 a b
unfolding total_order_bits cmp_f64
compare-total_order_bits a b ha hb na nb = ground (
  arith,
  compare-magnitude (a % sign_bit) (b % sign_bit),
  compare-magnitude (b % sign_bit) (a % sign_bit),
  magnitude_mono 0 (a % sign_bit),
  magnitude_mono 0 (b % sign_bit),
  magnitude-zero,
)
