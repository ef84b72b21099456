-- ===== src/Prelude/Bytes.antt =====
-- Byte strings (`Vec<u8>`, `&[u8]`): lists of numbers below 256. Big-endian words, slices, and the
-- comparison of two strings that are followed by more bytes.
use Prim.Native.Nat.{ℕ, zero, suc, ◌+◌, ◌*◌, ◌/◌, ◌%◌, ◌^◌, ◌<◌, compare, Ordering}
use mathlib.Core.Path.{◌≡◌, refl, ap, ap₂, ◌∙◌}
use mathlib.Core.List.{List, [], ◌∷◌, ◌++◌, append-nil, append_assoc}
use native.Mathlib.Nat.{pow-suc, zero-add, add-zero, mul-le-mul_right}
use native.Mathlib.Omega.{arith}
use zydecodb.Prelude.Lists.{length, take, drop, All, length-append}
use zydecodb.Prelude.Order.{IsTotal, compare-IsTotal, cmp_list, cmp_list-IsTotal}

abbrev pub Bytes : Type 0
Bytes = List ℕ

-- Each element fits a `u8`.
abbrev pub IsBytes : Bytes → Type 0
IsBytes = All (λ b. b < 256)

pub append-IsBytes : (xs ys : Bytes) → IsBytes xs → IsBytes ys → IsBytes (xs ++ ys)
append-IsBytes [] ys p q = q
append-IsBytes (x ∷ xs) ys p q = (p.0, append-IsBytes xs ys p.1 q)

pub take-IsBytes : (n : ℕ) (xs : Bytes) → IsBytes xs → IsBytes (take n xs)
take-IsBytes zero xs p = tt
take-IsBytes (suc n) [] p = tt
take-IsBytes (suc n) (x ∷ xs) p = (p.0, take-IsBytes n xs p.1)

pub drop-IsBytes : (n : ℕ) (xs : Bytes) → IsBytes xs → IsBytes (drop n xs)
drop-IsBytes zero xs p = p
drop-IsBytes (suc n) [] p = tt
drop-IsBytes (suc n) (x ∷ xs) p = drop-IsBytes n xs p.1

-- `<[u8] as Ord>::cmp`.
unfoldable pub cmp_bytes : Bytes → Bytes → Ordering
unfolding cmp_list
cmp_bytes = cmp_list compare

pub cmp_bytes-IsTotal : IsTotal cmp_bytes
unfolding cmp_bytes
cmp_bytes-IsTotal = cmp_list-IsTotal compare compare-IsTotal

-- `n.to_be_bytes()` of a word of k bytes; what does not fit is cut off, as by an `as` cast.
unfoldable pub to_be : ℕ → ℕ → Bytes
to_be zero n = []
to_be (suc k) n = to_be k (n / 256) ++ n % 256 ∷ []

from_be_acc : ℕ → Bytes → ℕ
from_be_acc acc [] = acc
from_be_acc acc (b ∷ bs) = from_be_acc (acc * 256 + b) bs

-- `from_be_bytes`.
unfoldable pub from_be : Bytes → ℕ
unfolding from_be_acc
from_be = from_be_acc 0

pub length-to_be : (k n : ℕ) → length (to_be k n) ≡ k
unfolding to_be
length-to_be zero n = refl
length-to_be (suc k) n =
    omega (arith, length-append (to_be k (n / 256)) (n % 256 ∷ []), length-to_be k (n / 256))

pub to_be-IsBytes : (k n : ℕ) → IsBytes (to_be k n)
unfolding to_be
to_be-IsBytes zero n = tt
to_be-IsBytes (suc k) n =
    append-IsBytes (to_be k (n / 256)) (n % 256 ∷ []) (to_be-IsBytes k (n / 256)) (omega arith)

from_be_acc_snoc :
    (acc : ℕ) (xs : Bytes) (b : ℕ) → from_be_acc acc (xs ++ b ∷ []) ≡ from_be_acc acc xs * 256 + b
unfolding from_be_acc
from_be_acc_snoc acc [] b = refl
from_be_acc_snoc acc (x ∷ xs) b = from_be_acc_snoc (acc * 256 + x) xs b

-- A word that fits is read back.
pub from_be-to_be : (k n : ℕ) → n < 256 ^ k → from_be (to_be k n) ≡ n
unfolding to_be from_be
from_be-to_be zero n h = omega arith
from_be-to_be (suc k) n h = omega (
  arith,
  from_be_acc_snoc 0 (to_be k (n / 256)) (n % 256),
  from_be-to_be k (n / 256) (let e = pow-suc 256 k in omega arith),
)

to_be-from_be_acc :
    (j acc : ℕ) (xs : Bytes)
    → IsBytes xs
    → to_be (length xs + j) (from_be_acc acc xs) ≡ to_be j acc ++ xs
unfolding from_be_acc
to_be-from_be_acc j acc [] h = rw (zero-add, append-nil)
to_be-from_be_acc j acc (x ∷ xs) h =
    ap (λ (k : ℕ). to_be k (from_be_acc (acc * 256 + x) xs)) (count (length xs))
    ∙ to_be-from_be_acc (suc j) (acc * 256 + x) xs h.1
    ∙ ap (λ (l : Bytes). l ++ xs) (last h.0)
    ∙ append_assoc (to_be j acc) (x ∷ []) xs
  where
    count : (n : ℕ) → suc n + j ≡ n + suc j
    count n = omega arith

    last : x < 256 → to_be (suc j) (acc * 256 + x) ≡ to_be j acc ++ x ∷ []
    last b =
        unfold to_be in
        ap₂ (λ (q r : ℕ). to_be j q ++ r ∷ []) {x = (acc * 256 + x) / 256} {y = acc}
          {u = (acc * 256 + x) % 256} {v = x} (omega arith) (omega arith)

-- A word's bytes are written back.
pub to_be-from_be : (xs : Bytes) → IsBytes xs → to_be (length xs) (from_be xs) ≡ xs
unfolding from_be to_be
to_be-from_be xs h = rw (add-zero (length xs)) at (to_be-from_be_acc 0 0 xs h)

one_digit_more :
    (f acc x p q : ℕ) → x < 256 → q ≡ p * 256 → f < (acc * 256 + x + 1) * p → f < (acc + 1) * q
one_digit_more f acc x p q h e l =
    rw e (omega (arith, mul-le-mul_right {m = x + 1} {n = 256} p (omega arith)))

from_be_acc-lt :
    (xs : Bytes) (acc : ℕ) → IsBytes xs → from_be_acc acc xs < (acc + 1) * 256 ^ length xs
unfolding from_be_acc
from_be_acc-lt [] acc h = omega arith
from_be_acc-lt (x ∷ xs) acc h =
    one_digit_more (from_be_acc (acc * 256 + x) xs) acc x (256 ^ length xs) (256 ^ suc (length xs))
      h.0 (pow-suc 256 (length xs)) (from_be_acc-lt xs (acc * 256 + x) h.1)

-- The word that bytes spell fits them.
pub from_be-lt : (xs : Bytes) → IsBytes xs → from_be xs < 256 ^ length xs
unfolding from_be
from_be-lt xs h = let k = from_be_acc-lt xs 0 h in omega arith
