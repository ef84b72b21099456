-- ===== src/Prelude/Decided.antt =====
-- When the order of two byte strings is decided inside them. Neither of two such strings is a
-- proper prefix of the other, so the decision stands whatever bytes follow.
use Prim.Native.Nat.{ℕ, zero, suc, ◌-◌, ◌/◌, ◌%◌, ◌^◌, ◌<◌, compare, Ordering}
use Prim.Native.Nat.Ordering.{lt, eq, gt}
use mathlib.Core.Path.{◌≡◌, refl, sym, ap₂, subst, ◌∙◌}
use mathlib.Core.List.{[], ◌∷◌, ◌++◌, map, append-nil}
use native.Mathlib.Nat.{pow-suc}
use native.Mathlib.Omega.{arith}
use zydecodb.Prelude.Bytes.{Bytes, IsBytes, cmp_bytes, to_be}
use zydecodb.Prelude.Order.{then_with, swap, then_with-eq}

-- The strings differ at some place, in the order `o`, or they are equal and `o` is `eq`.
abbrev pub Decided : Bytes → Bytes → Ordering → Type 0
Decided [] [] o = o ≡ eq
Decided [] (y ∷ ys) o = ⊥
Decided (x ∷ xs) [] o = ⊥
Decided (x ∷ xs) (y ∷ ys) o = elim (compare x y) [
  | lt ↦ o ≡ lt
  | eq ↦ Decided xs ys o
  | gt ↦ o ≡ gt
]

pub Decided-append :
    (xs ys ss ts : Bytes) (o p : Ordering)
    → Decided xs ys o
    → Decided ss ts p
    → Decided (xs ++ ss) (ys ++ ts) (then_with o p)
Decided-append [] [] ss ts o p d e = rw d e
Decided-append [] (y ∷ ys) ss ts o p d e = absurd d
Decided-append (x ∷ xs) [] ss ts o p d e = absurd d
Decided-append (x ∷ xs) (y ∷ ys) ss ts o p d e = ground (arith, Decided-append xs ys ss ts o p)

pub cmp_bytes-Decided :
    (xs ys ss ts : Bytes) (o : Ordering)
    → Decided xs ys o
    → cmp_bytes (xs ++ ss) (ys ++ ts) ≡ then_with o (cmp_bytes ss ts)
unfolding cmp_bytes
cmp_bytes-Decided [] [] ss ts o d = rw d
cmp_bytes-Decided [] (y ∷ ys) ss ts o d = absurd d
cmp_bytes-Decided (x ∷ xs) [] ss ts o d = absurd d
cmp_bytes-Decided (x ∷ xs) (y ∷ ys) ss ts o d = ground (arith, cmp_bytes-Decided xs ys ss ts o)

pub cmp_bytes_of_Decided : (xs ys : Bytes) (o : Ordering) → Decided xs ys o → cmp_bytes xs ys ≡ o
unfolding cmp_bytes
cmp_bytes_of_Decided xs ys o d =
    ap₂ cmp_bytes (sym (append-nil xs)) (sym (append-nil ys))
    ∙ cmp_bytes-Decided xs ys [] [] o d
    ∙ then_with-eq o

pub Decided-self : (xs : Bytes) → Decided xs xs eq
Decided-self [] = refl
Decided-self (x ∷ xs) = ground (arith, Decided-self xs)

pub Decided-words :
    (k a b : ℕ) → a < 256 ^ k → b < 256 ^ k → Decided (to_be k a) (to_be k b) (compare a b)
unfolding to_be
Decided-words zero a b ha hb = ground arith
Decided-words (suc k) a b ha hb =
    subst (Decided (to_be (suc k) a) (to_be (suc k) b)) (ground arith) (
      Decided-append (to_be k (a / 256)) (to_be k (b / 256)) (a % 256 ∷ []) (b % 256 ∷ [])
        (compare (a / 256) (b / 256)) (compare (a % 256) (b % 256))
        (Decided-words k (a / 256) (b / 256) (let e = pow-suc 256 k in omega arith)
          (let e = pow-suc 256 k in omega arith))
        (ground arith))

-- `!b` at each byte.
unfoldable pub complement : Bytes → Bytes
complement = map (λ b. 255 - b)

pub Decided-complement :
    (xs ys : Bytes) (o : Ordering)
    → IsBytes xs
    → IsBytes ys
    → Decided xs ys o
    → Decided (complement xs) (complement ys) (swap o)
unfolding complement
Decided-complement [] [] o bx by d = rw d
Decided-complement [] (y ∷ ys) o bx by d = absurd d
Decided-complement (x ∷ xs) [] o bx by d = absurd d
Decided-complement (x ∷ xs) (y ∷ ys) o bx by d =
    ground (arith, Decided-complement xs ys o bx.1 by.1)
