-- ===== src/Iter/Sorted.antt =====
-- The merge of sorted sources is their sorted union.
use zydecodb.Prelude.{
  ℕ, zero, suc, ◌+◌, ◌≤◌, Bool, true, Option, none, some, List, [], ◌∷◌, ◌≡◌, refl, All, arith,
  if◌then◌else◌,
}
use zydecodb.Memtable.{Pair}
use zydecodb.Iter.{ScanDirection, HeapEntry, push, push_next}
use zydecodb.Iter.Order.{NotAfter, IsOrdered, push-All, push-IsOrdered}
use zydecodb.Iter.Merge.{
  head_of, rest_of, merged, AreCovered, InOrder, none_before_top, round_covered,
}

-- The number of the pairs of which `P` holds.
unfoldable pub count : (Pair → Bool) → List Pair → ℕ
count P [] = 0
count P (p ∷ ps) = (if P p then 1 else 0) + count P ps

unfoldable pub count_lists : (Pair → Bool) → List (List Pair) → ℕ
unfolding count
count_lists P [] = 0
count_lists P (l ∷ lists) = count P l + count_lists P lists

unfoldable pub count_heap : (Pair → Bool) → List HeapEntry → ℕ
count_heap P [] = 0
count_heap P (h ∷ heap) = (if P (h.key, h.entry) then 1 else 0) + count_heap P heap

abbrev pub count_option : (Pair → Bool) → Option Pair → ℕ
count_option P none = 0
count_option P (some p) = if P p then 1 else 0

count-push :
    (P : Pair → Bool) (h : HeapEntry) (heap : List HeapEntry)
    → count_heap P (push h heap) ≡ (if P (h.key, h.entry) then 1 else 0) + count_heap P heap
unfolding push count_heap
count-push P h [] = refl
count-push P h (g ∷ heap) = ground (arith, count-push P h heap)

pub count-push_next :
    (P : Pair → Bool) (s : ℕ) (d : ScanDirection) (o : Option Pair) (heap : List HeapEntry)
    → count_heap P (push_next s d o heap) ≡ count_option P o + count_heap P heap
count-push_next P s d none heap = omega arith
count-push_next P s d (some (k, e)) heap = count-push P _ heap

count-rest_of :
    (P : Pair → Bool) (i : ℕ) (lists : List (List Pair))
    → count_option P (head_of i lists) + count_lists P (rest_of i lists) ≡ count_lists P lists
unfolding head_of rest_of count_lists
count-rest_of P i [] = refl
count-rest_of P zero ([] ∷ lists) = omega arith
count-rest_of P zero ((p ∷ ps) ∷ lists) = omega arith
count-rest_of P (suc i) (l ∷ lists) = omega (arith, count-rest_of P i lists)

-- What nothing covers is empty.
count_uncovered :
    (P : Pair → Bool) (d : ScanDirection) (i : ℕ) (lists : List (List Pair))
    → AreCovered d i lists []
    → count_lists P lists ≡ 0
unfolding count_lists
count_uncovered P d i [] c = refl
count_uncovered P d i ([] ∷ lists) c = omega (arith, count_uncovered P d (suc i) lists c.1)
count_uncovered P d i ((p ∷ ps) ∷ lists) c = absurd c.0.0

InOrder-rest_of :
    (d : ScanDirection) (i : ℕ) (lists : List (List Pair))
    → All (InOrder d) lists
    → All (InOrder d) (rest_of i lists)
unfolding rest_of
InOrder-rest_of d i [] a = tt
InOrder-rest_of d zero ([] ∷ lists) a = a
InOrder-rest_of d zero ((p ∷ ps) ∷ lists) a = (a.0.1, a.1)
InOrder-rest_of d (suc i) (l ∷ lists) a = (a.0, InOrder-rest_of d i lists a.1)

pub push_next-IsOrdered :
    (s : ℕ) (d : ScanDirection) (o : Option Pair) (heap : List HeapEntry)
    → IsOrdered d heap
    → IsOrdered d (push_next s d o heap)
push_next-IsOrdered s d none heap h = h
push_next-IsOrdered s d (some (k, e)) heap h = push-IsOrdered d _ heap refl h

-- What holds of the heap and of the sources holds of what is merged.
module _ (Q : Pair → Type 0) where
  abbrev OfHeap : List HeapEntry → Type 0
  OfHeap heap = All (λ h. Q (h.key, h.entry)) heap

  push_next-All :
      (s i : ℕ) (d : ScanDirection) (lists : List (List Pair)) (heap : List HeapEntry)
      → All (All Q) lists
      → OfHeap heap
      → OfHeap (push_next s d (head_of i lists) heap)
  unfolding head_of
  push_next-All s i d [] heap a h = h
  push_next-All s zero d ([] ∷ lists) heap a h = h
  push_next-All s zero d ((p ∷ ps) ∷ lists) heap a h =
      push-All (λ x. Q (x.key, x.entry)) _ heap a.0.0 h
  push_next-All s (suc i) d (l ∷ lists) heap a h = push_next-All s i d lists heap a.1 h

  rest_of-All :
      (i : ℕ) (lists : List (List Pair)) → All (All Q) lists → All (All Q) (rest_of i lists)
  unfolding rest_of
  rest_of-All i [] a = tt
  rest_of-All zero ([] ∷ lists) a = a
  rest_of-All zero ((p ∷ ps) ∷ lists) a = (a.0.1, a.1)
  rest_of-All (suc i) (l ∷ lists) a = (a.0, rest_of-All i lists a.1)

  merged-All :
      (n : ℕ) (d : ScanDirection) (lists : List (List Pair)) (heap : List HeapEntry)
      → All (All Q) lists
      → OfHeap heap
      → All Q (merged n d lists heap)
  unfolding merged
  merged-All zero d lists heap a h = tt
  merged-All (suc n) d lists [] a h = tt
  merged-All (suc n) d lists (top ∷ heap) a h = (
    h.0,
    merged-All n d (rest_of top.source lists)
        (push_next top.source d (head_of top.source lists) heap) (rest_of-All top.source lists a)
        (push_next-All top.source top.source d lists heap a h.1),
  )

-- The state of a merge.
abbrev pub IsMerge : ScanDirection → List (List Pair) → List HeapEntry → Type 0
IsMerge d lists heap = IsOrdered d heap × All (InOrder d) lists × AreCovered d 0 lists heap

round-IsMerge :
    (d : ScanDirection) (lists : List (List Pair)) (top : HeapEntry) (heap : List HeapEntry)
    → IsMerge d lists (top ∷ heap)
    → IsMerge d (rest_of top.source lists) (push_next top.source d (head_of top.source lists) heap)
round-IsMerge d lists top heap m = (
  push_next-IsOrdered top.source d (head_of top.source lists) heap m.0.1,
  InOrder-rest_of d top.source lists m.1,
  round_covered d 0 top.source lists top heap (omega arith) m.1 m.2,
)

pub merged-InOrder :
    (n : ℕ) (d : ScanDirection) (lists : List (List Pair)) (heap : List HeapEntry)
    → IsMerge d lists heap
    → InOrder d (merged n d lists heap)
unfolding merged
merged-InOrder zero d lists heap m = tt
merged-InOrder (suc n) d lists [] m = tt
merged-InOrder (suc n) d lists (top ∷ heap) m =
    let before = none_before_top d 0 lists top heap m.0 m.2 in
    (
      merged-All (λ q. NotAfter d top.key q.0) n d (rest_of top.source lists)
          (push_next top.source d (head_of top.source lists) heap)
          (rest_of-All (λ q. NotAfter d top.key q.0) top.source lists before)
          (push_next-All (λ q. NotAfter d top.key q.0) top.source top.source d lists heap before
            m.0.0),
      merged-InOrder n d (rest_of top.source lists)
          (push_next top.source d (head_of top.source lists) heap)
          (round-IsMerge d lists top heap m),
    )

-- With a round for each pair, every pair leaves.
pub count-merged :
    (P : Pair → Bool) (n : ℕ) (d : ScanDirection) (lists : List (List Pair)) (heap : List HeapEntry)
    → IsMerge d lists heap
    → count_heap (λ _. true) heap + count_lists (λ _. true) lists ≤ n
    → count P (merged n d lists heap) ≡ count_heap P heap + count_lists P lists
unfolding merged count count_heap
count-merged P zero d lists [] m few = omega (arith, count_uncovered P d 0 lists m.2)
count-merged P zero d lists (top ∷ heap) m few = absurd (omega arith)
count-merged P (suc n) d lists [] m few = omega (arith, count_uncovered P d 0 lists m.2)
count-merged P (suc n) d lists (top ∷ heap) m few =
    let o = head_of top.source lists in
    let ih =
      count-merged P n d (rest_of top.source lists) (push_next top.source d o heap)
        (round-IsMerge d lists top heap m)
        (omega (
          arith,
          count-push_next (λ _. true) top.source d o heap,
          count-rest_of (λ _. true) top.source lists,
        )) in
    omega (arith, ih, count-push_next P top.source d o heap, count-rest_of P top.source lists)
