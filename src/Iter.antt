-- ===== src/Iter.antt =====
-- crates/zydecodb-engine/src/iter.rs: the merge of sorted sources that scans and compaction share.
-- A source is the list of what its `next` returns until the end; the loop of `next` is recursion
-- on fuel. Rust's `BinaryHeap` is a list with its greatest element in front. An error of a source
-- is the result, without a next state, as callers must not go on behind it.
pub mod Fuel
pub mod Stream
pub mod Modes
pub mod Order
pub mod Merge
pub mod Sorted
pub mod Union
mod Tests
use Prim.Native.Nat.Ordering.{gt}
use zydecodb.Prelude.{
  ℕ, zero, suc, ◌+◌, Ordering, compare, Bool, true, false, Option, none, some, List, [], ◌∷◌, ◌++◌,
  length, if◌then◌else◌,
}
use zydecodb.Prelude.Bytes.{Bytes, cmp_bytes}
use zydecodb.Prelude.Order.{then_with}
use zydecodb.Errors.{EngineResult, ok, err, ◌>>=◌}
use zydecodb.Keys.{InternalKey, EntryKind, cmp_key}
use zydecodb.Entry.{Entry}
use zydecodb.Memtable.{Pair, bytes_eq}

-- `enum MergeMode`.
pub data MergeMode : Type 0 where
  dedup raw : MergeMode

-- `enum ScanDirection`.
pub data ScanDirection : Type 0 where
  forward reverse : ScanDirection

abbrev pub Source : Type 0
Source = List (EngineResult Pair)

-- `struct HeapEntry`.
pub record HeapEntry : Type 0 where
  pub key : InternalKey
  pub entry : Entry
  pub source : ℕ
  pub direction : ScanDirection

-- `<HeapEntry as Ord>::cmp`.
unfoldable pub cmp_heap : HeapEntry → HeapEntry → Ordering
cmp_heap h other = elim h.direction [
  | forward ↦ then_with (cmp_key other.key h.key) (compare other.source h.source)
  | reverse ↦
      then_with
        (then_with (cmp_bytes h.key.user_key other.key.user_key) (compare h.key.seq other.key.seq))
        (compare other.source h.source)
]

abbrev pub is_gt : Ordering → Bool
is_gt gt = true
is_gt _ = false

-- `BinaryHeap::push`.
unfoldable pub push : HeapEntry → List HeapEntry → List HeapEntry
unfolding cmp_heap
push h [] = h ∷ []
push h (g ∷ heap) =
    let rest = push h heap in if is_gt (cmp_heap h g) then h ∷ g ∷ heap else g ∷ rest

-- `struct MergingIterator`.
pub record MergingIterator : Type 0 where
  pub sources : List Source
  pub heap : List HeapEntry
  pub mode : MergeMode
  pub direction : ScanDirection
  pub last_user_key : Option Bytes

-- `sources[i].next()`.
unfoldable pub source_next : ℕ → List Source → EngineResult (Option Pair) × List Source
source_next i [] = (ok none, [])
source_next zero ([] ∷ sources) = (ok none, [] ∷ sources)
source_next zero ((ok p ∷ rest) ∷ sources) = (ok (some p), rest ∷ sources)
source_next zero ((err e ∷ rest) ∷ sources) = (err e, rest ∷ sources)
source_next (suc i) (source ∷ sources) =
    let (r, later) = source_next i sources in (r, source ∷ later)

-- What a source gives is pushed; at its end the heap stays.
abbrev pub push_next : ℕ → ScanDirection → Option Pair → List HeapEntry → List HeapEntry
push_next i direction none heap = heap
push_next i direction (some (k, e)) heap =
    push (record { key = k; entry = e; source = i; direction = direction }) heap

-- The loop of `new_directed` from source `i` on: the heap.
unfoldable pub fill :
    ℕ → ScanDirection → List Source → List HeapEntry → EngineResult (List HeapEntry × List Source)
unfolding push source_next
fill i direction [] heap = ok (heap, [])
fill i direction (source ∷ sources) heap =
    let (r, after) = source_next 0 (source ∷ []) in
    r >>= λ o. fill (suc i) direction sources (push_next i direction o heap) >>= λ (filled, later).
    ok (filled, after ++ later)

-- `MergingIterator::new_directed`.
unfoldable pub new_directed : List Source → MergeMode → ScanDirection → EngineResult MergingIterator
unfolding fill
new_directed sources mode direction = fill 0 direction sources [] >>= λ (heap, rest). ok (record {
  sources = rest;
  heap = heap;
  mode = mode;
  direction = direction;
  last_user_key = none;
})

abbrev pub with_next :
    Option Pair
    → HeapEntry
    → List HeapEntry
    → MergingIterator
    → List Source
    → EngineResult MergingIterator
with_next o top heap it sources = ok (record {
  sources = sources;
  heap = push_next top.source it.direction o heap;
  mode = it.mode;
  direction = it.direction;
  last_user_key = it.last_user_key;
})

-- The refill of the source that produced the top of the heap.
unfoldable pub refill : HeapEntry → List HeapEntry → MergingIterator → EngineResult MergingIterator
unfolding push source_next
refill top heap it =
    let (r, sources) = source_next top.source it.sources in
    r >>= λ o. with_next o top heap it sources

-- `self.last_user_key = Some(..)`.
abbrev pub remember : Bytes → MergingIterator → MergingIterator
remember k it = record {
  sources = it.sources;
  heap = it.heap;
  mode = it.mode;
  direction = it.direction;
  last_user_key = some k;
}

abbrev pub is_last : Option Bytes → Bytes → Bool
is_last none k = false
is_last (some prev) k = bytes_eq prev k

abbrev pub is_tombstone_key : InternalKey → Bool
is_tombstone_key k = elim k.kind [ EntryKind.value ↦ false | EntryKind.tombstone ↦ true ]

abbrev pub Yielded : Type 0
Yielded = EngineResult (Option (Pair × MergingIterator))

-- The round of the loop behind the refill; `continue` is the rest of the loop.
abbrev pub after_refill :
    (MergingIterator → Yielded) → MergingIterator → HeapEntry → MergingIterator → Yielded
after_refill continue it top refilled = elim it.mode [
  | raw ↦ ok (some ((top.key, top.entry), refilled))
  | dedup ↦ elim (is_last it.last_user_key top.key.user_key) [
    | true ↦ continue refilled
    | false ↦ elim (is_tombstone_key top.key) [
      | true ↦ continue (remember top.key.user_key refilled)
      | false ↦ ok (some ((top.key, top.entry), remember top.key.user_key refilled))
    ]
  ]
]

-- The loop of `next`.
unfoldable pub next_loop : ℕ → MergingIterator → Yielded
unfolding refill
next_loop zero it = ok none
next_loop (suc fuel) it = elim it.heap [
  | [] ↦ ok none
  | top ∷ heap ↦ refill top heap it >>= λ refilled. after_refill (next_loop fuel) it top refilled
]

abbrev pub count_items : List Source → ℕ
count_items [] = 0
count_items (source ∷ sources) = length source + count_items sources

-- The rounds that an iterator has left at most.
abbrev pub pending : MergingIterator → ℕ
pending it = length it.heap + count_items it.sources

-- `<MergingIterator as EntryIterator>::next`.
unfoldable pub next : MergingIterator → EngineResult (Option (Pair × MergingIterator))
unfolding next_loop
next it = next_loop (suc (pending it)) it

-- What the callers collect: `while let Some(pair) = it.next()?`.
unfoldable pub collect : ℕ → MergingIterator → EngineResult (List Pair)
unfolding next
collect zero it = ok []
collect (suc n) it =
    next it >>= λ o. elim o [ none ↦ ok [] | some (p, it') ↦ collect n it' >>= λ ps. ok (p ∷ ps) ]
