-- ===== src/Iter/Merge.antt =====
-- The merge of sources that do not fail, as a function, and its invariant: what is left of a
-- source comes behind an element of the heap that is of that source.
use zydecodb.Prelude.{
  ℕ, zero, suc, ◌+◌, ◌<◌, Option, none, some, List, [], ◌∷◌, map, ◌≡◌, ◌≢◌, ◌⊎◌, inl, inr, refl, ap,
  All, arith,
}
use zydecodb.Prelude.SortedMap.{All-imp}
use zydecodb.Errors.{EngineResult, ok}
use zydecodb.Keys.{InternalKey}
use zydecodb.Memtable.{Pair}
use zydecodb.Iter.{ScanDirection, Source, HeapEntry, push, push_next, source_next}
use zydecodb.Iter.Stream.{pops}
use zydecodb.Iter.Order.{NotAfter, NotAfter-trans, IsOrdered}

-- Sources that do not fail.
abbrev pub source_of : List Pair → Source
source_of ps = map (λ (p : Pair). ok p) ps

abbrev pub sources_of : List (List Pair) → List Source
sources_of lists = map source_of lists

unfoldable pub head_of : ℕ → List (List Pair) → Option Pair
head_of i [] = none
head_of zero ([] ∷ lists) = none
head_of zero ((p ∷ ps) ∷ lists) = some p
head_of (suc i) (l ∷ lists) = head_of i lists

unfoldable pub rest_of : ℕ → List (List Pair) → List (List Pair)
rest_of i [] = []
rest_of zero ([] ∷ lists) = [] ∷ lists
rest_of zero ((p ∷ ps) ∷ lists) = ps ∷ lists
rest_of (suc i) (l ∷ lists) = l ∷ rest_of i lists

pub source_next_ok :
    (i : ℕ) (lists : List (List Pair))
    → source_next i (sources_of lists) ≡ (ok (head_of i lists), sources_of (rest_of i lists))
unfolding source_next head_of rest_of
source_next_ok i [] = refl
source_next_ok zero ([] ∷ lists) = refl
source_next_ok zero ((p ∷ ps) ∷ lists) = refl
source_next_ok (suc i) (l ∷ lists) =
    ap (λ (r : EngineResult (Option Pair) × List Source). (r.0, source_of l ∷ r.1))
      (source_next_ok i lists)

unfoldable pub merged : ℕ → ScanDirection → List (List Pair) → List HeapEntry → List Pair
unfolding head_of rest_of push
merged zero d lists heap = []
merged (suc n) d lists [] = []
merged (suc n) d lists (top ∷ heap) =
    (top.key, top.entry)
    ∷ merged n d (rest_of top.source lists) (push_next top.source d (head_of top.source lists) heap)

pub pops-merged :
    (n : ℕ) (d : ScanDirection) (lists : List (List Pair)) (heap : List HeapEntry)
    → pops n d (sources_of lists) heap ≡ ok (merged n d lists heap)
unfolding pops merged
pops-merged zero d lists heap = refl
pops-merged (suc n) d lists [] = refl
pops-merged (suc n) d lists (top ∷ heap) = rw (source_next_ok top.source lists) (
    rw
      (pops-merged n d (rest_of top.source lists)
        (push_next top.source d (head_of top.source lists) heap))
      refl)

-- A pair comes behind an element of the heap that is of source `i`.
abbrev pub IsCovered : ScanDirection → ℕ → List HeapEntry → Pair → Type 0
IsCovered d i [] x = ⊥
IsCovered d i (h ∷ heap) x = ((h.source ≡ i) × NotAfter d h.key x.0) ⊎ IsCovered d i heap x

abbrev pub AreCovered : ScanDirection → ℕ → List (List Pair) → List HeapEntry → Type 0
AreCovered d i [] heap = Unit
AreCovered d i (l ∷ lists) heap = All (IsCovered d i heap) l × AreCovered d (suc i) lists heap

-- Each pair of a list may come before those behind it.
abbrev pub InOrder : ScanDirection → List Pair → Type 0
InOrder d [] = Unit
InOrder d (p ∷ ps) = All (λ q. NotAfter d p.0 q.0) ps × InOrder d ps

module _ (d : ScanDirection) where
  IsCovered-push :
      (i : ℕ) (h : HeapEntry) (heap : List HeapEntry) (x : Pair)
      → IsCovered d i heap x
      → IsCovered d i (push h heap) x
  unfolding push
  IsCovered-push i h [] x c = absurd c
  IsCovered-push i h (g ∷ heap) x c = ground (arith, IsCovered-push i h heap x)

  pub IsCovered-new :
      (i : ℕ) (h : HeapEntry) (heap : List HeapEntry) (x : Pair)
      → h.source ≡ i
      → NotAfter d h.key x.0
      → IsCovered d i (push h heap) x
  unfolding push
  IsCovered-new i h [] x e k = inl (e, k)
  IsCovered-new i h (g ∷ heap) x e k = ground (arith, IsCovered-new i h heap x e k)

  pub IsCovered-push_next :
      (i s : ℕ) (o : Option Pair) (heap : List HeapEntry) (x : Pair)
      → IsCovered d i heap x
      → IsCovered d i (push_next s d o heap) x
  IsCovered-push_next i s none heap x c = c
  IsCovered-push_next i s (some (k, e)) heap x c = IsCovered-push i _ heap x c

  -- The top is not after what is covered.
  top_before :
      (i : ℕ) (k : InternalKey) (heap : List HeapEntry) (x : Pair)
      → All (λ g. NotAfter d k g.key) heap
      → IsCovered d i heap x
      → NotAfter d k x.0
  top_before i k [] x a c = absurd c
  top_before i k (h ∷ heap) x a (inl c) = NotAfter-trans d k h.key x.0 a.0 c.1
  top_before i k (h ∷ heap) x a (inr c) = top_before i k heap x a.1 c

  covered_by_top :
      (i : ℕ) (top : HeapEntry) (heap : List HeapEntry) (x : Pair)
      → IsOrdered d (top ∷ heap)
      → IsCovered d i (top ∷ heap) x
      → NotAfter d top.key x.0
  covered_by_top i top heap x o (inl c) = c.1
  covered_by_top i top heap x o (inr c) = top_before i top.key heap x o.0 c

  pub none_before_top :
      (i : ℕ) (lists : List (List Pair)) (top : HeapEntry) (heap : List HeapEntry)
      → IsOrdered d (top ∷ heap)
      → AreCovered d i lists (top ∷ heap)
      → All (All (λ q. NotAfter d top.key q.0)) lists
  none_before_top i [] top heap o c = tt
  none_before_top i (l ∷ lists) top heap o c = (
    All-imp (IsCovered d i (top ∷ heap)) (λ q. NotAfter d top.key q.0) l
        (λ q k. covered_by_top i top heap q o k) c.0,
    none_before_top (suc i) lists top heap o c.1,
  )

  -- A list of another source stays covered when the top leaves.
  other_source_kept :
      (i : ℕ) (l : List Pair) (o : Option Pair) (top : HeapEntry) (heap : List HeapEntry)
      → top.source ≢ i
      → All (IsCovered d i (top ∷ heap)) l
      → All (IsCovered d i (push_next top.source d o heap)) l
  other_source_kept i l o top heap ne c =
      All-imp (IsCovered d i (top ∷ heap)) (IsCovered d i (push_next top.source d o heap)) l
        (λ x k. ground (arith, k, ne, IsCovered-push_next i top.source o heap x)) c

  later_covered :
      (i : ℕ) (lists : List (List Pair)) (o : Option Pair) (top : HeapEntry) (heap : List HeapEntry)
      → top.source < i
      → AreCovered d i lists (top ∷ heap)
      → AreCovered d i lists (push_next top.source d o heap)
  later_covered i [] o top heap h c = tt
  later_covered i (l ∷ lists) o top heap h c = (
    other_source_kept i l o top heap (λ e. omega arith) c.0,
    later_covered (suc i) lists o top heap (omega arith) c.1,
  )

  -- The round keeps that the sources are covered.
  pub round_covered :
      (i k : ℕ) (lists : List (List Pair)) (top : HeapEntry) (heap : List HeapEntry)
      → top.source ≡ i + k
      → All (InOrder d) lists
      → AreCovered d i lists (top ∷ heap)
      → AreCovered d i (rest_of k lists) (push_next top.source d (head_of k lists) heap)
  unfolding head_of rest_of
  round_covered i k [] top heap e s c = tt
  round_covered i zero ([] ∷ lists) top heap e s c =
      (tt, later_covered (suc i) lists none top heap (omega arith) c.1)
  round_covered i zero ((p ∷ ps) ∷ lists) top heap e s c = (
    All-imp (λ q. NotAfter d p.0 q.0) (IsCovered d i (push_next top.source d (some p) heap)) ps
        (λ q h. IsCovered-new i _ heap q (omega arith) h) s.0.0,
    later_covered (suc i) lists (some p) top heap (omega arith) c.1,
  )
  round_covered i (suc k) (l ∷ lists) top heap e s c = (
    other_source_kept i l (head_of k lists) top heap (λ e'. omega arith) c.0,
    round_covered (suc i) k lists top heap (omega arith) s.1 c.1,
  )
