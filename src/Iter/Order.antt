-- ===== src/Iter/Order.antt =====
-- The order in which a merge yields, and the heap in that order.
use Prim.Native.Nat.Ordering.{gt}
use zydecodb.Prelude.{
  ℕ, Ordering, compare, true, false, List, [], ◌∷◌, ◌≡◌, ◌≢◌, inl, inr, refl, ap, All, arith,
  Bool-cases, if◌then◌else◌,
}
use zydecodb.Prelude.Bytes.{Bytes, cmp_bytes, cmp_bytes-IsTotal}
use zydecodb.Prelude.Order.{
  then_with, swap, IsTotal, compare-IsTotal, reversed-IsTotal, cmp_pair, cmp_pair-IsTotal,
}
use zydecodb.Prelude.SortedMap.{All-imp}
use zydecodb.Keys.{InternalKey, cmp_key}
use zydecodb.Keys.Order.{cmp_key-IsTotal}
use zydecodb.Iter.{ScanDirection, forward, reverse, HeapEntry, cmp_heap, push, is_gt}

-- Forward by the order of internal keys, in reverse by user key and then seq, both descending.
abbrev pub order_of : ScanDirection → InternalKey → InternalKey → Ordering
order_of forward a b = cmp_key a b
order_of reverse a b = then_with (cmp_bytes b.user_key a.user_key) (compare b.seq a.seq)

-- `a` may come before `b`.
abbrev pub NotAfter : ScanDirection → InternalKey → InternalKey → Type 0
NotAfter d a b = order_of d a b ≢ gt

module _ {A : Type 0} {cmp : A → A → Ordering} (t : IsTotal cmp) where
  total_trans : (a b c : A) → cmp a b ≢ gt → cmp b c ≢ gt → cmp a c ≢ gt
  total_trans a b c h k = ground (
    arith,
    t.trans a b c,
    t.same a b,
    t.same b c,
    ap (λ (x : A). cmp x c) {x = a} {y = b},
    ap (λ (x : A). cmp a x) {x = b} {y = c},
  )

reverse_pair-IsTotal :
    IsTotal (cmp_pair (λ (a b : Bytes). cmp_bytes b a) (λ (a b : ℕ). compare b a))
reverse_pair-IsTotal =
    cmp_pair-IsTotal (λ (a b : Bytes). cmp_bytes b a) (λ (a b : ℕ). compare b a)
      (reversed-IsTotal cmp_bytes-IsTotal) (reversed-IsTotal compare-IsTotal)

pub NotAfter-trans :
    (d : ScanDirection) (a b c : InternalKey) → NotAfter d a b → NotAfter d b c → NotAfter d a c
NotAfter-trans forward a b c h k = total_trans cmp_key-IsTotal a b c h k
NotAfter-trans reverse a b c h k =
    total_trans reverse_pair-IsTotal (a.user_key, a.seq) (b.user_key, b.seq) (c.user_key, c.seq) h k

order_turn : (d : ScanDirection) (a b : InternalKey) → order_of d b a ≡ swap (order_of d a b)
order_turn forward a b = cmp_key-IsTotal.turn a b
order_turn reverse a b = reverse_pair-IsTotal.turn (a.user_key, a.seq) (b.user_key, b.seq)

cmp_heap_is :
    (d : ScanDirection) (h g : HeapEntry)
    → h.direction ≡ d
    → cmp_heap h g ≡ then_with (order_of d g.key h.key) (compare g.source h.source)
unfolding cmp_heap
cmp_heap_is forward h g e = rw (e, cmp_heap) refl
cmp_heap_is reverse h g e = rw (e, cmp_heap) refl

heap_front :
    (d : ScanDirection) (h g : HeapEntry)
    → h.direction ≡ d
    → is_gt (cmp_heap h g) ≡ true
    → NotAfter d h.key g.key
heap_front d h g e k = ground (arith, ap is_gt (cmp_heap_is d h g e), order_turn d h.key g.key)

heap_behind :
    (d : ScanDirection) (h g : HeapEntry)
    → h.direction ≡ d
    → is_gt (cmp_heap h g) ≡ false
    → NotAfter d g.key h.key
heap_behind d h g e k = ground (arith, ap is_gt (cmp_heap_is d h g e))

-- The heap with its elements in the order in which they leave.
abbrev pub IsOrdered : ScanDirection → List HeapEntry → Type 0
IsOrdered d [] = Unit
IsOrdered d (h ∷ heap) = All (λ g. NotAfter d h.key g.key) heap × IsOrdered d heap

pub push-All :
    (P : HeapEntry → Type 0) (h : HeapEntry) (heap : List HeapEntry)
    → P h
    → All P heap
    → All P (push h heap)
unfolding push
push-All P h [] p a = (p, tt)
push-All P h (g ∷ heap) p a = ground (arith, push-All P h heap p a.1)

pub push-IsOrdered :
    (d : ScanDirection) (h : HeapEntry) (heap : List HeapEntry)
    → h.direction ≡ d
    → IsOrdered d heap
    → IsOrdered d (push h heap)
unfolding push
push-IsOrdered d h [] e o = (tt, tt)
push-IsOrdered d h (g ∷ heap) e o =
    elim (Bool-cases (is_gt (cmp_heap h g)))
      as (λ _. IsOrdered d (if is_gt (cmp_heap h g) then h ∷ g ∷ heap else g ∷ push h heap)) [
        | inl front ↦
            let first = heap_front d h g e front in
            rw front (
              (
                first,
                All-imp (λ x. NotAfter d g.key x.key) (λ x. NotAfter d h.key x.key) heap
                    (λ x k. NotAfter-trans d h.key g.key x.key first k) o.0,
              ),
              o,
            )
        | inr behind ↦ rw behind (
          push-All (λ x. NotAfter d g.key x.key) h heap (heap_behind d h g e behind) o.0,
          push-IsOrdered d h heap e o.1,
        )
      ]
