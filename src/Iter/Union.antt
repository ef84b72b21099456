-- ===== src/Iter/Union.antt =====
-- A whole merge of sorted sources, from `new_directed` on.
use zydecodb.Prelude.{
  ℕ, suc, ◌+◌, Bool, true, Option, none, some, List, [], ◌∷◌, length, ◌≡◌, refl, ◌∙◌, All, arith,
}
use zydecodb.Prelude.SortedMap.{All-imp}
use zydecodb.Errors.{ok}
use zydecodb.Memtable.{Pair}
use zydecodb.Iter.{
  ScanDirection, HeapEntry, MergingIterator, raw, push, push_next, source_next, fill, new_directed,
  count_items, pending,
}
use zydecodb.Iter.Modes.{raw_rounds, collect_all, start}
use zydecodb.Iter.Order.{NotAfter, IsOrdered}
use zydecodb.Iter.Merge.{
  source_of, sources_of, merged, pops-merged, IsCovered, AreCovered, InOrder, IsCovered-push_next,
  IsCovered-new,
}
use zydecodb.Iter.Sorted.{
  count, count_lists, count_heap, count-push_next, push_next-IsOrdered, IsMerge, merged-InOrder,
  count-merged,
}

abbrev first : List Pair → Option Pair
first [] = none
first (p ∷ ps) = some p

abbrev behind : List Pair → List Pair
behind [] = []
behind (p ∷ ps) = ps

abbrev tails : List (List Pair) → List (List Pair)
tails [] = []
tails (l ∷ lists) = behind l ∷ tails lists

unfoldable filled : ℕ → ScanDirection → List (List Pair) → List HeapEntry → List HeapEntry
unfolding push
filled i d [] heap = heap
filled i d (l ∷ lists) heap = filled (suc i) d lists (push_next i d (first l) heap)

fill_ok :
    (i : ℕ) (d : ScanDirection) (lists : List (List Pair)) (heap : List HeapEntry)
    → fill i d (sources_of lists) heap ≡ ok (filled i d lists heap, sources_of (tails lists))
unfolding fill filled source_next
fill_ok i d [] heap = refl
fill_ok i d ([] ∷ lists) heap = rw (fill_ok (suc i) d lists heap) refl
fill_ok i d ((p ∷ ps) ∷ lists) heap =
    rw (fill_ok (suc i) d lists (push_next i d (some p) heap)) refl

module _ (d : ScanDirection) where
  filled-IsOrdered :
      (i : ℕ) (lists : List (List Pair)) (heap : List HeapEntry)
      → IsOrdered d heap
      → IsOrdered d (filled i d lists heap)
  unfolding filled
  filled-IsOrdered i [] heap h = h
  filled-IsOrdered i (l ∷ lists) heap h =
      filled-IsOrdered (suc i) lists (push_next i d (first l) heap)
        (push_next-IsOrdered i d (first l) heap h)

  IsCovered-filled :
      (i j : ℕ) (lists : List (List Pair)) (heap : List HeapEntry) (x : Pair)
      → IsCovered d j heap x
      → IsCovered d j (filled i d lists heap) x
  unfolding filled
  IsCovered-filled i j [] heap x c = c
  IsCovered-filled i j (l ∷ lists) heap x c =
      IsCovered-filled (suc i) j lists (push_next i d (first l) heap) x
        (IsCovered-push_next d j i (first l) heap x c)

  AreCovered-filled :
      (i : ℕ) (lists : List (List Pair)) (heap : List HeapEntry)
      → All (InOrder d) lists
      → AreCovered d i (tails lists) (filled i d lists heap)
  unfolding filled
  AreCovered-filled i [] heap s = tt
  AreCovered-filled i ([] ∷ lists) heap s = (tt, AreCovered-filled (suc i) lists heap s.1)
  AreCovered-filled i ((p ∷ ps) ∷ lists) heap s =
      let pushed = push_next i d (some p) heap in
      (
        All-imp (λ q. NotAfter d p.0 q.0) (IsCovered d i (filled (suc i) d lists pushed)) ps
            (λ q h. IsCovered-filled (suc i) i lists pushed q (IsCovered-new d i _ heap q refl h))
            s.0.0,
        AreCovered-filled (suc i) lists pushed s.1,
      )

  InOrder-tails : (lists : List (List Pair)) → All (InOrder d) lists → All (InOrder d) (tails lists)
  InOrder-tails [] s = tt
  InOrder-tails ([] ∷ lists) s = (tt, InOrder-tails lists s.1)
  InOrder-tails ((p ∷ ps) ∷ lists) s = (s.0.1, InOrder-tails lists s.1)

  count-filled :
      (P : Pair → Bool) (i : ℕ) (lists : List (List Pair)) (heap : List HeapEntry)
      → count_heap P (filled i d lists heap) + count_lists P (tails lists)
        ≡ count_heap P heap + count_lists P lists
  unfolding filled count_lists
  count-filled P i [] heap = refl
  count-filled P i ([] ∷ lists) heap = omega (arith, count-filled P (suc i) lists heap)
  count-filled P i ((p ∷ ps) ∷ lists) heap = omega (
    arith,
    count-filled P (suc i) lists (push_next i d (some p) heap),
    count-push_next P i d (some p) heap,
  )

count_heap_all : (heap : List HeapEntry) → count_heap (λ _. true) heap ≡ length heap
unfolding count_heap
count_heap_all [] = refl
count_heap_all (h ∷ heap) = omega (arith, count_heap_all heap)

count_source : (l : List Pair) → count (λ _. true) l ≡ length (source_of l)
unfolding count
count_source [] = refl
count_source (p ∷ ps) = omega (arith, count_source ps)

count_lists_all :
    (lists : List (List Pair)) → count_lists (λ _. true) lists ≡ count_items (sources_of lists)
unfolding count_lists
count_lists_all [] = refl
count_lists_all (l ∷ lists) = omega (arith, count_lists_all lists, count_source l)

abbrev begun : ScanDirection → List (List Pair) → MergingIterator
begun d lists = start raw d (filled 0 d lists [], sources_of (tails lists))

abbrev union_of : ScanDirection → List (List Pair) → List Pair
union_of d lists = merged (suc (pending (begun d lists))) d (tails lists) (filled 0 d lists [])

collect_union :
    (d : ScanDirection) (lists : List (List Pair))
    → collect_all (sources_of lists) raw d ≡ ok (union_of d lists)
unfolding collect_all new_directed
collect_union d lists = rw (fill_ok 0 d lists []) (
    raw_rounds (suc (pending (begun d lists))) (begun d lists) refl
    ∙ pops-merged (suc (pending (begun d lists))) d (tails lists) (filled 0 d lists []))

begun-IsMerge :
    (d : ScanDirection) (lists : List (List Pair))
    → All (InOrder d) lists
    → IsMerge d (tails lists) (filled 0 d lists [])
begun-IsMerge d lists s =
    (filled-IsOrdered d 0 lists [] tt, InOrder-tails d lists s, AreCovered-filled d 0 lists [] s)

-- Sources that do not fail and are each in the order of the direction, forward or reverse, are
-- merged in `Raw` mode into one sequence in that order, which holds every pair exactly as often as
-- the sources hold it together.
pub collect_all_sorted :
    (d : ScanDirection) (lists : List (List Pair))
    → All (InOrder d) lists
    → (ps : List Pair) × (collect_all (sources_of lists) raw d ≡ ok ps)
      × InOrder d ps
      × ((P : Pair → Bool) → count P ps ≡ count_lists P lists)
unfolding count_heap
collect_all_sorted d lists s =
    let heap = filled 0 d lists [] in
    let enough = count_heap_all heap in
    (
      union_of d lists,
      collect_union d lists,
      merged-InOrder (suc (pending (begun d lists))) d (tails lists) heap (begun-IsMerge d lists s),
      (λ P. omega (
        arith,
        count-merged P (suc (pending (begun d lists))) d (tails lists) heap
            (begun-IsMerge d lists s)
            (omega (arith, count_heap_all heap, count_lists_all (tails lists))),
        count-filled d P 0 lists [],
      )),
    )
