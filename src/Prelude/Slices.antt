-- ===== src/Prelude/Slices.antt =====
-- Slices of byte strings, `&p[a..b]` and `&p[a..]`. The code takes each one behind a check of the
-- length, so what Rust does out of range (a panic) does not arise; here such a slice is cut short.
use Prim.Native.Nat.{ℕ, zero, suc, ◌+◌, ◌-◌, ◌^◌, ◌≤◌, ◌<◌}
use mathlib.Core.Path.{◌≡◌, refl, sym, ap, ap₂, subst, ◌∙◌}
use mathlib.Core.List.{[], ◌∷◌, ◌++◌}
use native.Mathlib.Omega.{arith}
use zydecodb.Prelude.Lists.{
  length, take, drop, length-take, length-drop, take-append, drop-append, take-append-drop,
}
use zydecodb.Prelude.Bytes.{
  Bytes, IsBytes, take-IsBytes, drop-IsBytes, to_be, from_be, to_be-from_be, from_be-to_be,
  length-to_be, from_be-lt,
}

unfoldable pub slice : ℕ → ℕ → Bytes → Bytes
slice a b p = take (b - a) (drop a p)

-- Past the first part of an append.
drop_later : (n : ℕ) (xs ys : Bytes) → length xs ≤ n → drop n (xs ++ ys) ≡ drop (n - length xs) ys
drop_later n [] ys h = ap (λ (k : ℕ). drop k ys) {x = n} {y = n - 0} (omega arith)
drop_later zero (x ∷ xs) ys h = absurd (omega arith)
drop_later (suc n) (x ∷ xs) ys h =
    drop_later n xs ys (omega arith)
    ∙ ap (λ (k : ℕ). drop k ys) {x = n - length xs} {y = suc n - suc (length xs)} (omega arith)

module _ (xs ys : Bytes) {n : ℕ} (width : length xs ≡ n) where
  pub slice_first : slice 0 n (xs ++ ys) ≡ xs
  unfolding slice
  slice_first =
      ap (λ (k : ℕ). take k (xs ++ ys)) {x = n - 0} {y = length xs} (omega arith)
      ∙ take-append xs ys

  pub drop_first : drop n (xs ++ ys) ≡ ys
  drop_first = ap (λ (k : ℕ). drop k (xs ++ ys)) (sym width) ∙ drop-append xs ys

  pub drop_past : (a : ℕ) → n ≤ a → drop a (xs ++ ys) ≡ drop (a - n) ys
  drop_past a h =
      drop_later a xs ys (omega arith)
      ∙ ap (λ (k : ℕ). drop k ys) {x = a - length xs} {y = a - n} (omega arith)

  pub slice_past : (a b : ℕ) → n ≤ a → slice a b (xs ++ ys) ≡ slice (a - n) (b - n) ys
  unfolding slice
  slice_past a b h =
      ap₂ (λ (k : ℕ) (l : Bytes). take k l) {x = b - a} {y = b - n - (a - n)} (omega arith)
        (drop_past a h)

drop-nil : (n : ℕ) → drop {A = ℕ} n [] ≡ []
drop-nil zero = refl
drop-nil (suc n) = refl

pub drop-drop : (m n : ℕ) (p : Bytes) → drop m (drop n p) ≡ drop (n + m) p
drop-drop m zero p = ap (λ (k : ℕ). drop k p) {x = m} {y = 0 + m} (omega arith)
drop-drop m (suc n) [] = drop-nil m ∙ sym (drop-nil (suc n + m))
drop-drop m (suc n) (x ∷ p) =
    drop-drop m n p ∙ ap (λ (k : ℕ). drop k (x ∷ p)) {x = suc (n + m)} {y = suc n + m} (omega arith)

-- A string is a slice and the rest.
pub slice-append-drop : (a b : ℕ) (p : Bytes) → a ≤ b → slice a b p ++ drop b p ≡ drop a p
unfolding slice
slice-append-drop a b p h =
    ap (λ (l : Bytes). take (b - a) (drop a p) ++ l)
      (ap (λ (k : ℕ). drop k p) {x = b} {y = a + (b - a)} (omega arith)
        ∙ sym (drop-drop (b - a) a p))
    ∙ take-append-drop (b - a) (drop a p)

pub length-slice : (a b : ℕ) (p : Bytes) → a ≤ b → b ≤ length p → length (slice a b p) ≡ b - a
unfolding slice
length-slice a b p h k = omega (arith, length-take (b - a) (drop a p), length-drop a p)

pub slice-IsBytes : (a b : ℕ) (p : Bytes) → IsBytes p → IsBytes (slice a b p)
unfolding slice
slice-IsBytes a b p h = take-IsBytes (b - a) (drop a p) (drop-IsBytes a p h)

-- `p[i]`, 0 past the end.
abbrev pub byte_at : ℕ → Bytes → ℕ
byte_at i [] = 0
byte_at zero (x ∷ p) = x
byte_at (suc i) (x ∷ p) = byte_at i p

-- The word that is read from a slice is written back as that slice.
pub to_be-slice :
    (a b w : ℕ) (p : Bytes)
    → IsBytes p
    → b ≤ length p
    → a + w ≡ b
    → to_be w (from_be (slice a b p)) ≡ slice a b p
to_be-slice a b w p bytes h e =
    ap (λ (k : ℕ). to_be k (from_be (slice a b p))) {x = w} {y = length (slice a b p)}
      (omega (arith, length-slice a b p (omega arith) h))
    ∙ to_be-from_be (slice a b p) (slice-IsBytes a b p bytes)

pub from_be-slice-lt :
    (a b w : ℕ) (p : Bytes) → IsBytes p → b ≤ length p → a + w ≡ b → from_be (slice a b p) < 256 ^ w
from_be-slice-lt a b w p bytes h e =
    subst (λ k. from_be (slice a b p) < 256 ^ k) {x = length (slice a b p)} {y = w}
      (omega (arith, length-slice a b p (omega arith) h))
      (from_be-lt (slice a b p) (slice-IsBytes a b p bytes))

-- A word in front is read back.
pub word_first :
    (k n : ℕ) (rest : Bytes) → n < 256 ^ k → from_be (slice 0 k (to_be k n ++ rest)) ≡ n
word_first k n rest fits =
    ap from_be (slice_first (to_be k n) rest (length-to_be k n)) ∙ from_be-to_be k n fits

-- A slice at a distance from the end of the first part.
pub slice_beyond :
    (xs ys : Bytes) (a b : ℕ) → slice (length xs + a) (length xs + b) (xs ++ ys) ≡ slice a b ys
slice_beyond xs ys a b =
    slice_past xs ys refl (length xs + a) (length xs + b) (omega arith)
    ∙ ap₂ (λ (m n : ℕ). slice m n ys) {x = length xs + a - length xs} {y = a}
        {u = length xs + b - length xs} {v = b} (omega arith) (omega arith)
