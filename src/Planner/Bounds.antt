-- ===== src/Planner/Bounds.antt =====
-- The range of an index scan that crates/zydecodb-document/src/planner.rs computes, against the keys
-- of the documents that meet the constraints.
use Prim.Native.Nat.Ordering.{lt, eq, gt}
use zydecodb.Prelude.{
  ℕ, ◌≡◌, ◌≢◌, ◌⊎◌, refl, sym, ap, ◌∙◌, inl, inr, Ordering, Bool, true, false, Option, none, some,
  [], ◌∷◌, ◌++◌, arith, append_assoc, append-nil, Bool-cases, not, ◌&&◌,
}
use zydecodb.Prelude.Bytes.{Bytes, IsBytes, append-IsBytes, cmp_bytes, cmp_bytes-IsTotal}
use zydecodb.Prelude.Order.{then_with, swap}
use zydecodb.Prelude.Decided.{
  Decided, Decided-self, cmp_bytes-Decided, cmp_bytes_of_Decided, complement,
}
use zydecodb.Json.{Value}
use zydecodb.Encoding.{encode_value, encode_value_desc, encode_value_directed}
use zydecodb.Encoding.Order.{Decided-encode_value, Decided-encode_value_desc, encode_value-IsBytes}
use zydecodb.Encoding.Reference.{cmp_ref, IsPlain}
use zydecodb.DocKeys.{prefix_upper_bound}
use zydecodb.DocKeys.Scan.{in_range, is_below, is_lt, is_prefix, scan_exact, below_upper_bound}
use zydecodb.Planner.{scan_bounds, ranged_bounds, pushed, upper_bound, has_range}
use zydecodb.Planner.Constraints.{Constraint}
use zydecodb.Planner.Meets.{Meets, Each, IsAsLower, IsAsUpper}

pub is_prefix_front : (p tail : Bytes) → is_prefix p (p ++ tail) ≡ true
unfolding is_prefix
is_prefix_front [] tail = refl
is_prefix_front (x ∷ p) tail = ground (arith, is_prefix_front p tail)

below_of_prefix :
    (p tail : Bytes) → IsBytes p → IsBytes tail → is_below (prefix_upper_bound p) (p ++ tail) ≡ true
below_of_prefix p tail hp hl =
    both (is_lt (cmp_bytes (p ++ tail) p)) (is_below (prefix_upper_bound p) (p ++ tail)) (
      unfold in_range in
      scan_exact p (p ++ tail) hp (append-IsBytes p tail hp hl) ∙ is_prefix_front p tail)
  where
    both : (a b : Bool) → (not a && b) ≡ true → b ≡ true
    both a b h = ground arith

module _ (p s t tail : Bytes) (o : Ordering) (d : Decided s t o) where
  cmp_behind : cmp_bytes (p ++ (s ++ tail)) (p ++ t) ≡ then_with o (cmp_bytes tail [])
  cmp_behind =
      cmp_bytes-Decided p p (s ++ tail) t eq (Decided-self p)
      ∙ ap (cmp_bytes (s ++ tail)) (sym (append-nil t))
      ∙ cmp_bytes-Decided s t tail [] o d

  not_lt_empty : (l : Bytes) → cmp_bytes l [] ≢ lt
  unfolding cmp_bytes
  not_lt_empty [] = ground arith
  not_lt_empty (x ∷ l) = ground arith

  -- Behind a limit that does not sort after the field.
  at_or_above : o ≢ lt → is_lt (cmp_bytes (p ++ (s ++ tail)) (p ++ t)) ≡ false
  at_or_above h = rw cmp_behind (go o (cmp_bytes tail []) h (not_lt_empty tail))
    where
      go : (o r : Ordering) → o ≢ lt → r ≢ lt → is_lt (then_with o r) ≡ false
      go o r h k = ground arith

  -- In front of the upper bound of a limit that does not sort before the field.
  at_or_below :
      IsBytes p
      → IsBytes s
      → IsBytes t
      → IsBytes tail
      → o ≢ gt
      → is_below (prefix_upper_bound (p ++ t)) (p ++ (s ++ tail)) ≡ true
  at_or_below hp hs ht hl h = elim (decide o h) [
    | inl e ↦
        below_upper_bound (p ++ t) (p ++ (s ++ tail))
          (cmp_behind ∙ ap (λ q. then_with q (cmp_bytes tail [])) e)
    | inr e ↦ rw (same_limit e) (
        rw (sym (append_assoc p t tail))
          (below_of_prefix (p ++ t) tail (append-IsBytes p t hp ht) hl))
  ]
    where
      decide : (o : Ordering) → o ≢ gt → (o ≡ lt) ⊎ (o ≡ eq)
      decide o h = ground arith

      same_limit : o ≡ eq → s ≡ t
      same_limit e = cmp_bytes-IsTotal.same s t (cmp_bytes_of_Decided s t o d ∙ e)

pub in_range_front :
    (p tail : Bytes)
    → IsBytes p
    → IsBytes tail
    → in_range p (prefix_upper_bound p) (p ++ tail) ≡ true
in_range_front p tail hp hl =
    scan_exact p (p ++ tail) hp (append-IsBytes p tail hp hl) ∙ is_prefix_front p tail

in_range_of :
    (lo hi k : Bytes)
    → is_lt (cmp_bytes k lo) ≡ false
    → is_below hi k ≡ true
    → in_range lo hi k ≡ true
unfolding in_range
in_range_of lo hi k l h = rw l h

front_not_below : (p tail : Bytes) → is_lt (cmp_bytes (p ++ tail) (p ++ [])) ≡ false
front_not_below p tail = at_or_above p [] [] tail eq refl (ground arith)

module _ {N : Type 0} (as_f64 : N → Option ℕ) where
  -- For either direction: the encoding, and the order that it keeps.
  module _ (encode : Value N → Bytes) (ord : Value N → Value N → Ordering)
      (decided : (a b : Value N)
        → IsPlain as_f64 a
        → IsPlain as_f64 b
        → Decided (encode a) (encode b) (ord a b))
      (bytes : (a : Value N) → IsPlain as_f64 a → IsBytes (encode a)) (base tail : Bytes)
      (v : Value N) (hv : IsPlain as_f64 v) where
    above_lower :
        (limit : Option (Value N))
        → Each (λ t. IsPlain as_f64 t × (ord v t ≢ lt)) limit
        → is_lt (cmp_bytes (base ++ (encode v ++ tail)) (base ++ pushed as_f64 encode limit))
          ≡ false
    above_lower none h = front_not_below base (encode v ++ tail)
    above_lower (some t) h =
        at_or_above base (encode v) (encode t) tail (ord v t) (decided v t hv h.0) h.1

    below_upper :
        (limit : Option (Value N))
        → IsBytes base
        → IsBytes tail
        → Each (λ t. IsPlain as_f64 t × (ord v t ≢ gt)) limit
        → is_below (upper_bound as_f64 encode base limit) (base ++ (encode v ++ tail)) ≡ true
    below_upper none hb ht h =
        below_of_prefix base (encode v ++ tail) hb (append-IsBytes (encode v) tail (bytes v hv) ht)
    below_upper (some t) hb ht h =
        at_or_below base (encode v) (encode t) tail (ord v t) (decided v t hv h.0) hb (bytes v hv)
          (bytes t h.0) ht h.1

  complement-IsBytes : (xs : Bytes) → IsBytes (complement xs)
  unfolding complement
  complement-IsBytes [] = tt
  complement-IsBytes (x ∷ xs) = (omega arith, complement-IsBytes xs)

  pub directed-IsBytes :
      (d : Bool) (v : Value N) → IsPlain as_f64 v → IsBytes (encode_value_directed as_f64 v d)
  unfolding encode_value_directed encode_value_desc
  directed-IsBytes true v h = encode_value-IsBytes as_f64 v h
  directed-IsBytes false v h = complement-IsBytes (encode_value as_f64 v)

  turned_lower :
      (v : Value N) (limit : Option (Value N))
      → Each (IsAsUpper as_f64 v) limit
      → Each (λ t. IsPlain as_f64 t × (swap (cmp_ref as_f64 v t) ≢ lt)) limit
  turned_lower v none h = tt
  turned_lower v (some t) h = (h.0, turn (cmp_ref as_f64 v t) h.1)
    where
      turn : (o : Ordering) → o ≢ gt → swap o ≢ lt
      turn o k = ground arith

  turned_upper :
      (v : Value N) (limit : Option (Value N))
      → Each (IsAsLower as_f64 v) limit
      → Each (λ t. IsPlain as_f64 t × (swap (cmp_ref as_f64 v t) ≢ gt)) limit
  turned_upper v none h = tt
  turned_upper v (some t) h = (h.0, turn (cmp_ref as_f64 v t) h.1)
    where
      turn : (o : Ordering) → o ≢ lt → swap o ≢ gt
      turn o k = ground arith

  -- The range holds the key of every document whose field meets the constraint, in either direction.
  pub scan_bounds-hold :
      (base tail : Bytes) (v : Value N) (c : Constraint N) (d : Bool)
      → IsBytes base
      → IsBytes tail
      → IsPlain as_f64 v
      → Meets as_f64 v c
      → in_range
          (scan_bounds as_f64 base (some c) d).0
          (scan_bounds as_f64 base (some c) d).1
          (base ++ (encode_value_directed as_f64 v d ++ tail))
        ≡ true
  unfolding scan_bounds
  scan_bounds-hold base tail v c d hb ht hv m = elim (Bool-cases (has_range c)) [
    | inl r ↦ rw (r, scan_bounds) (ranged d)
    | inr n ↦
        rw (n, scan_bounds)
          (in_range_front base (encode_value_directed as_f64 v d ++ tail) hb
            (append-IsBytes (encode_value_directed as_f64 v d) tail (directed-IsBytes d v hv) ht))
  ]
    where
      ranged :
          (d : Bool)
          → in_range
              (ranged_bounds as_f64 base c d).0
              (ranged_bounds as_f64 base c d).1
              (base ++ (encode_value_directed as_f64 v d ++ tail))
            ≡ true
      ranged true =
          unfold ranged_bounds encode_value_directed in
          let e = encode_value as_f64 in
          let o = cmp_ref as_f64 in
          let ok = Decided-encode_value as_f64 in
          let bs = encode_value-IsBytes as_f64 in
          in_range_of (base ++ pushed as_f64 e c.lo) (upper_bound as_f64 e base c.hi)
            (base ++ (e v ++ tail)) (above_lower e o ok bs base tail v hv c.lo m.1)
            (below_upper e o ok bs base tail v hv c.hi hb ht m.2)
      ranged false =
          unfold ranged_bounds encode_value_directed in
          let e = encode_value_desc as_f64 in
          let o : Value N → Value N → Ordering = λ a b. swap (cmp_ref as_f64 a b) in
          let ok = Decided-encode_value_desc as_f64 in
          let bs = directed-IsBytes false in
          in_range_of (base ++ pushed as_f64 e c.hi) (upper_bound as_f64 e base c.lo)
            (base ++ (e v ++ tail))
            (above_lower e o ok bs base tail v hv c.hi (turned_lower v c.hi m.2))
            (below_upper e o ok bs base tail v hv c.lo hb ht (turned_upper v c.lo m.1))
