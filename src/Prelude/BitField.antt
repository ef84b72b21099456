-- ===== src/Prelude/BitField.antt =====
-- One bit of a byte, and of a string of bytes that is read as a row of bits.
use zydecodb.Prelude.Lists.{length}
use zydecodb.Prelude.Tests.{◌==◌, if◌then◌else◌}
use zydecodb.Prelude.Bytes.{Bytes}
use zydecodb.Prelude.Slices.{byte_at}
use Prim.Native.Nat.{ℕ, zero, suc, ◌+◌, ◌*◌, ◌/◌, ◌%◌, ◌<◌}
use mathlib.Core.Path.{◌≡◌, refl, ap, ◌∙◌}
use mathlib.Core.Bool.{Bool, true}
use mathlib.Core.List.{[], ◌∷◌}
use native.Mathlib.Omega.{arith}

-- `b & (1 << k) != 0`.
unfoldable pub test_bit : ℕ → ℕ → Bool
test_bit zero b = b % 2 == 1
test_bit (suc k) b = test_bit k (b / 2)

-- `b | (1 << k)`.
unfoldable pub set_bit : ℕ → ℕ → ℕ
set_bit zero b = if b % 2 == 1 then b else b + 1
set_bit (suc k) b = 2 * set_bit k (b / 2) + b % 2

test_bit-set_bit : (k b : ℕ) → test_bit k (set_bit k b) ≡ true
unfolding test_bit set_bit
test_bit-set_bit zero b = ground arith
test_bit-set_bit (suc k) b =
    ap (test_bit k) {x = (2 * set_bit k (b / 2) + b % 2) / 2} {y = set_bit k (b / 2)} (omega arith)
    ∙ test_bit-set_bit k (b / 2)

half_kept : (b : ℕ) → (if b % 2 == 1 then b else b + 1) / 2 ≡ b / 2
half_kept b = ground arith

test_bit_kept : (j k b : ℕ) → test_bit j b ≡ true → test_bit j (set_bit k b) ≡ true
unfolding test_bit set_bit
test_bit_kept zero zero b h = ground arith
test_bit_kept zero (suc k) b h = ground arith
test_bit_kept (suc j) zero b h = ap (test_bit j) (half_kept b) ∙ h
test_bit_kept (suc j) (suc k) b h =
    ap (test_bit j) {x = (2 * set_bit k (b / 2) + b % 2) / 2} {y = set_bit k (b / 2)} (omega arith)
    ∙ test_bit_kept j k (b / 2) h

-- Bit `i` of the row.
abbrev pub bit_at : ℕ → Bytes → Bool
bit_at i bits = test_bit (i % 8) (byte_at (i / 8) bits)

abbrev pub update : ℕ → (ℕ → ℕ) → Bytes → Bytes
update n f [] = []
update zero f (x ∷ xs) = f x ∷ xs
update (suc n) f (x ∷ xs) = x ∷ update n f xs

abbrev pub set_at : ℕ → Bytes → Bytes
set_at i bits = update (i / 8) (set_bit (i % 8)) bits

pub length-update : (n : ℕ) (f : ℕ → ℕ) (xs : Bytes) → length (update n f xs) ≡ length xs
length-update n f [] = refl
length-update zero f (x ∷ xs) = refl
length-update (suc n) f (x ∷ xs) = ap suc (length-update n f xs)

byte_at-update :
    (n : ℕ) (f : ℕ → ℕ) (xs : Bytes) → n < length xs → byte_at n (update n f xs) ≡ f (byte_at n xs)
byte_at-update n f [] h = absurd (omega arith)
byte_at-update zero f (x ∷ xs) h = refl
byte_at-update (suc n) f (x ∷ xs) h = byte_at-update n f xs (omega arith)

-- A property of a byte that the update keeps, and that 0 has not.
byte_kept :
    (P : ℕ → Bool) (m n : ℕ) (f : ℕ → ℕ) (xs : Bytes)
    → ((b : ℕ) → P b ≡ true → P (f b) ≡ true)
    → P (byte_at m xs) ≡ true
    → P (byte_at m (update n f xs)) ≡ true
byte_kept P m n f [] k h = h
byte_kept P zero zero f (x ∷ xs) k h = k x h
byte_kept P zero (suc n) f (x ∷ xs) k h = h
byte_kept P (suc m) zero f (x ∷ xs) k h = h
byte_kept P (suc m) (suc n) f (x ∷ xs) k h = byte_kept P m n f xs k h

pub bit_at-set_at : (i : ℕ) (bits : Bytes) → i < 8 * length bits → bit_at i (set_at i bits) ≡ true
bit_at-set_at i bits h =
    ap (test_bit (i % 8)) (byte_at-update (i / 8) (set_bit (i % 8)) bits (omega arith))
    ∙ test_bit-set_bit (i % 8) (byte_at (i / 8) bits)

pub bit_at_kept : (j i : ℕ) (bits : Bytes) → bit_at j bits ≡ true → bit_at j (set_at i bits) ≡ true
bit_at_kept j i bits h =
    byte_kept (test_bit (j % 8)) (j / 8) (i / 8) (set_bit (i % 8)) bits
      (test_bit_kept (j % 8) (i % 8)) h
