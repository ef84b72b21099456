-- ===== src/DocKeys/Scan.antt =====
-- A scan from a prefix up to its upper bound meets the keys with that prefix, all of them and no
-- others.
use Prim.Native.Nat.Ordering.{lt}
use mathlib.Core.List.{reverse-cons, reverse-append}
use zydecodb.Prelude.{
  ℕ, ◌+◌, ◌<◌, ◌≡◌, inl, inr, refl, sym, ap, ◌∙◌, Ordering, Bool, true, false, [], ◌∷◌, ◌++◌,
  reverse, arith, ◌==◌, if◌then◌else◌, Bool-cases, ◌&&◌, ◌||◌, not, lt_or_le,
}
use zydecodb.Prelude.Bytes.{Bytes, IsBytes, cmp_bytes}
use zydecodb.DocKeys.{bump_last, prefix_upper_bound}

-- The bound, from the front: the last byte below FF is raised and what follows is dropped.
put_front : ℕ → Bytes → Bytes
put_front x [] = if x == 0xFF then [] else (x + 1) ∷ []
put_front x (y ∷ ys) = x ∷ y ∷ ys

bump : Bytes → Bytes
bump [] = []
bump (x ∷ xs) = put_front x (bump xs)

put_front_snoc : (x : ℕ) (w : Bytes) (a : ℕ) → put_front x (w ++ a ∷ []) ≡ x ∷ (w ++ a ∷ [])
unfolding put_front
put_front_snoc x [] a = refl
put_front_snoc x (y ∷ w) a = refl

put_front-reverse : (x a : ℕ) (r : Bytes) → put_front x (reverse (a ∷ r)) ≡ x ∷ reverse (a ∷ r)
put_front-reverse x a r = rw (reverse-cons a r) (put_front_snoc x (reverse r) a)

bump_last_snoc : (r : Bytes) (x : ℕ) → bump_last (r ++ x ∷ []) ≡ put_front x (bump_last r)
unfolding bump_last
bump_last_snoc [] x = unfold put_front in refl
bump_last_snoc (l ∷ r) x = elim (Bool-cases (l == 0xFF)) [
  | inl full ↦ rw full (bump_last_snoc r x)
  | inr room ↦ rw room (reverse-append ((l + 1) ∷ r) (x ∷ []) ∙ sym (put_front-reverse x (l + 1) r))
]

upper_bound-eq-bump : (p : Bytes) → prefix_upper_bound p ≡ bump p
unfolding prefix_upper_bound bump
upper_bound-eq-bump [] = refl
upper_bound-eq-bump (x ∷ p) =
    ap bump_last (reverse-cons x p)
    ∙ bump_last_snoc (reverse p) x
    ∙ ap (put_front x) (upper_bound-eq-bump p)

-- `k` begins with `p`.
unfoldable pub is_prefix : Bytes → Bytes → Bool
is_prefix [] k = true
is_prefix (x ∷ p) [] = false
is_prefix (x ∷ p) (y ∷ k) = x == y && is_prefix p k

abbrev pub is_lt : Ordering → Bool
is_lt lt = true
is_lt _ = false

abbrev pub is_empty : Bytes → Bool
is_empty [] = true
is_empty (x ∷ xs) = false

-- What the engine's scan of `[lo, hi)` returns; an empty `hi` is no bound.
unfoldable pub in_range : Bytes → Bytes → Bytes → Bool
in_range lo hi k = not (is_lt (cmp_bytes k lo)) && (is_empty hi || is_lt (cmp_bytes k hi))

scan_step :
    (x y : ℕ) (p k u : Bytes)
    → x < 256
    → y < 256
    → is_prefix p k ≡ in_range p u k
    → is_prefix (x ∷ p) (y ∷ k) ≡ in_range (x ∷ p) (put_front x u) (y ∷ k)
unfolding is_prefix in_range put_front cmp_bytes
scan_step x y p [] [] hx hy ih = ground arith
scan_step x y p (z ∷ k) [] hx hy ih = ground arith
scan_step x y p k (a ∷ u) hx hy ih = ground arith

scan_bump : (p k : Bytes) → IsBytes p → IsBytes k → is_prefix p k ≡ in_range p (bump p) k
unfolding bump
scan_bump [] [] hp hk = unfold is_prefix in_range cmp_bytes in refl
scan_bump [] (y ∷ k) hp hk = unfold is_prefix in_range cmp_bytes in refl
scan_bump (x ∷ p) [] hp hk = unfold is_prefix in_range cmp_bytes in refl
scan_bump (x ∷ p) (y ∷ k) hp hk = scan_step x y p k (bump p) hp.0 hk.0 (scan_bump p k hp.1 hk.1)

-- The scan from a prefix to its upper bound returns exactly the keys that begin with the prefix;
-- that holds of a prefix of FF bytes too, whose bound is empty and means no bound.
pub scan_exact :
    (p k : Bytes) → IsBytes p → IsBytes k → in_range p (prefix_upper_bound p) k ≡ is_prefix p k
scan_exact p k hp hk = rw (upper_bound-eq-bump p) (sym (scan_bump p k hp hk))

-- `k` stands below the bound.
abbrev pub is_below : Bytes → Bytes → Bool
is_below hi k = is_empty hi || is_lt (cmp_bytes k hi)

below_step : (x y : ℕ) (k u : Bytes) → y < x → is_below (put_front x u) (y ∷ k) ≡ true
unfolding put_front cmp_bytes
below_step x y k [] h = ground arith
below_step x y k (a ∷ u) h = ground arith

below_same : (x : ℕ) (k u : Bytes) → is_below u k ≡ true → is_below (put_front x u) (x ∷ k) ≡ true
unfolding put_front cmp_bytes
below_same x k [] h = ground arith
below_same x k (a ∷ u) h = ground arith

below_end : (x : ℕ) (u : Bytes) → is_below (put_front x u) [] ≡ true
unfolding put_front cmp_bytes
below_end x [] = ground arith
below_end x (a ∷ u) = refl

below_bump : (p k : Bytes) → cmp_bytes k p ≡ lt → is_below (bump p) k ≡ true
unfolding bump
below_bump [] [] h = refl
below_bump [] (y ∷ k) h = refl
below_bump (x ∷ p) [] h = below_end x (bump p)
below_bump (x ∷ p) (y ∷ k) h = elim (lt_or_le y x) [
  | inl l ↦ below_step x y k (bump p) l
  | inr g ↦
      let e : y ≡ x = unfold cmp_bytes in ground (arith, h) in
      rw e (below_same x k (bump p) (below_bump p k (unfold cmp_bytes in ground (arith, h))))
]

-- What stands below a prefix stands below the upper bound of the scan.
pub below_upper_bound :
    (p k : Bytes) → cmp_bytes k p ≡ lt → is_below (prefix_upper_bound p) k ≡ true
below_upper_bound p k h = rw (upper_bound-eq-bump p) (below_bump p k h)
