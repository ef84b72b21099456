-- ===== src/Prelude/Cursor.antt =====
-- Reading at a place of a buffer: what a decoder sees there, given what the buffer holds from the
-- place on, and what it still sees when the buffer is cut off further down.
use zydecodb.Prelude.Lists.{length, take, drop}
use zydecodb.Prelude.Bytes.{Bytes, to_be, from_be}
use zydecodb.Prelude.Slices.{slice, byte_at, slice_first, drop_first, drop-drop, word_first}
use Prim.Native.Nat.{ℕ, zero, suc, ◌+◌, ◌-◌, ◌^◌, ◌≤◌, ◌<◌}
use mathlib.Core.Path.{◌≡◌, refl, sym, ap, ap₂, ◌∙◌}
use mathlib.Core.List.{[], ◌∷◌, ◌++◌}
use native.Mathlib.Omega.{arith}

slice_at : (buf w : Bytes) (a b k : ℕ) → a + k ≡ b → drop a buf ≡ w → slice a b buf ≡ slice 0 k w
unfolding slice
slice_at buf w a b k e h =
    ap₂ (λ (n : ℕ) (l : Bytes). take n l) {x = b - a} {y = k - 0} (omega arith) h

module _ (buf : Bytes) (a b : ℕ) where
  -- A part of known width stands at `a`.
  pub read_bytes :
      (xs rest : Bytes) → a + length xs ≡ b → drop a buf ≡ xs ++ rest → slice a b buf ≡ xs
  read_bytes xs rest e h = slice_at buf (xs ++ rest) a b (length xs) e h ∙ slice_first xs rest refl

  pub read_word :
      (k n : ℕ) (rest : Bytes)
      → n < 256 ^ k
      → a + k ≡ b
      → drop a buf ≡ to_be k n ++ rest
      → from_be (slice a b buf) ≡ n
  read_word k n rest fits e h =
      ap from_be (slice_at buf (to_be k n ++ rest) a b k e h) ∙ word_first k n rest fits

  pub step_over :
      (xs rest : Bytes) → a + length xs ≡ b → drop a buf ≡ xs ++ rest → drop b buf ≡ rest
  step_over xs rest e h =
      ap (λ (n : ℕ). drop n buf) (sym e)
      ∙ sym (drop-drop (length xs) a buf)
      ∙ ap (drop (length xs)) h
      ∙ drop_first xs rest refl

take-nil : (n : ℕ) → take {A = ℕ} n [] ≡ []
take-nil zero = refl
take-nil (suc n) = refl

pub drop-take : (a n : ℕ) (buf : Bytes) → drop a (take n buf) ≡ take (n - a) (drop a buf)
drop-take zero n buf = ap (λ (k : ℕ). take k buf) {x = n} {y = n - 0} (omega arith)
drop-take (suc a) zero buf =
    ap (λ (k : ℕ). take k (drop (suc a) buf)) {x = 0} {y = 0 - suc a} (omega arith)
drop-take (suc a) (suc n) [] = sym (take-nil (suc n - suc a))
drop-take (suc a) (suc n) (x ∷ buf) =
    drop-take a n buf
    ∙ ap (λ (k : ℕ). take k (drop a buf)) {x = n - a} {y = suc n - suc a} (omega arith)

take-take : (k n : ℕ) (l : Bytes) → k ≤ n → take k (take n l) ≡ take k l
take-take zero n l h = refl
take-take (suc k) zero l h = absurd (omega arith)
take-take (suc k) (suc n) [] h = refl
take-take (suc k) (suc n) (x ∷ l) h = ap (λ (r : Bytes). x ∷ r) (take-take k n l (omega arith))

-- A slice that ends before the cut is unchanged by it.
pub slice-take : (a b n : ℕ) (buf : Bytes) → a ≤ b → b ≤ n → slice a b (take n buf) ≡ slice a b buf
unfolding slice
slice-take a b n buf h k =
    ap (take (b - a)) (drop-take a n buf) ∙ take-take (b - a) (n - a) (drop a buf) (omega arith)

pub byte_at-drop :
    (n : ℕ) (buf : Bytes) (x : ℕ) (rest : Bytes) → drop n buf ≡ x ∷ rest → byte_at n buf ≡ x
byte_at-drop zero [] x rest h = cc
byte_at-drop zero (y ∷ buf) x rest h = cc
byte_at-drop (suc n) [] x rest h = cc
byte_at-drop (suc n) (y ∷ buf) x rest h = byte_at-drop n buf x rest h
