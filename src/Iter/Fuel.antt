-- ===== src/Iter/Fuel.antt =====
-- The rounds of the merge: each takes an element of the heap or of a source away, so the loop of
-- `next` does not run out of fuel.
use zydecodb.Prelude.{
  ℕ, zero, suc, ◌+◌, ◌<◌, ◌≡◌, refl, sym, ap, ◌∙◌, Option, none, some, List, [], ◌∷◌, length, arith,
  ◌⊎◌, inl, inr,
}
use zydecodb.Errors.{EngineResult, ok, err, ◌>>=◌, result_cases}
use zydecodb.Memtable.{Pair}
use zydecodb.Iter.{
  Source, HeapEntry, push, source_next, MergingIterator, with_next, refill, Yielded, after_refill,
  next_loop, next, count_items, pending, remember,
}

length-push : (h : HeapEntry) (heap : List HeapEntry) → length (push h heap) ≡ suc (length heap)
unfolding push
length-push h [] = refl
length-push h (g ∷ heap) = ground (arith, length-push h heap)

abbrev given : EngineResult (Option Pair) → ℕ
given (ok (some p)) = 1
given (ok none) = 0
given (err e) = 1

count-source_next :
    (i : ℕ) (sources : List Source)
    → given (source_next i sources).0 + count_items (source_next i sources).1 ≡ count_items sources
unfolding source_next
count-source_next i [] = refl
count-source_next zero ([] ∷ sources) = omega arith
count-source_next zero ((ok p ∷ rest) ∷ sources) = omega arith
count-source_next zero ((err e ∷ rest) ∷ sources) = omega arith
count-source_next (suc i) (source ∷ sources) = omega (arith, count-source_next i sources)

abbrev left : EngineResult MergingIterator → ℕ
left (ok it) = pending it
left (err e) = 0

-- A refill keeps what is left, less the top.
refill_left :
    (r : EngineResult (Option Pair)) (top : HeapEntry) (heap : List HeapEntry)
    (it it' : MergingIterator) (sources : List Source)
    → (r >>= λ o. with_next o top heap it sources) ≡ ok it'
    → pending it' ≡ length heap + given r + count_items sources
refill_left (ok none) top heap it it' sources h = sym (ap left h) ∙ omega arith
refill_left (ok (some (k, e))) top heap it it' sources h =
    sym (ap left h)
    ∙ omega (
      arith,
      length-push (record { key = k; entry = e; source = top.source; direction = it.direction })
          heap,
    )
refill_left (err e) top heap it it' sources h = absurd (ground (arith, h))

pub pending-refill :
    (top : HeapEntry) (heap : List HeapEntry) (it it' : MergingIterator)
    → it.heap ≡ top ∷ heap
    → refill top heap it ≡ ok it'
    → suc (pending it') ≡ pending it
unfolding refill
pending-refill top heap it it' e h =
    let got = source_next top.source it.sources in
    omega (
      arith,
      refill_left got.0 top heap it it' got.1 h,
      count-source_next top.source it.sources,
      ap (λ (l : List HeapEntry). length l) e,
    )

-- Two ways to go on that agree on the refilled iterator.
pub after_refill_same :
    (f g : MergingIterator → Yielded) (it : MergingIterator) (top : HeapEntry)
    (it' : MergingIterator)
    → f it' ≡ g it'
    → f (remember top.key.user_key it') ≡ g (remember top.key.user_key it')
    → after_refill f it top it' ≡ after_refill g it top it'
after_refill_same f g it top it' h k = ground (arith, h, k)

pub heap_cases :
    (heap : List HeapEntry)
    → (heap ≡ []) ⊎ ((top : HeapEntry) × ((rest : List HeapEntry) × (heap ≡ top ∷ rest)))
heap_cases [] = inl refl
heap_cases (top ∷ rest) = inr (top, (rest, refl))

pub loop_empty : (n : ℕ) (it : MergingIterator) → it.heap ≡ [] → next_loop n it ≡ ok none
unfolding next_loop
loop_empty zero it h = refl
loop_empty (suc n) it h = rw h refl

pub loop_round :
    (n : ℕ) (it : MergingIterator) (top : HeapEntry) (heap : List HeapEntry)
    → it.heap ≡ top ∷ heap
    → next_loop (suc n) it ≡ (refill top heap it >>= λ it'. after_refill (next_loop n) it top it')
unfolding next_loop
loop_round n it top heap h = rw h refl

-- The loop has the same result with any fuel above the rounds that are left.
pub loop_fuel :
    (n more : ℕ) (it : MergingIterator) → pending it < n → next_loop (n + more) it ≡ next_loop n it
loop_fuel zero more it h = absurd (omega arith)
loop_fuel (suc n) more it h =
    let goal : Type 0 = next_loop (suc n + more) it ≡ next_loop (suc n) it in
    elim (heap_cases it.heap) as (λ _. goal) [
      | inl e ↦ loop_empty (suc n + more) it e ∙ sym (loop_empty (suc n) it e)
      | inr (top, (heap, e)) ↦
          ap (λ (k : ℕ). next_loop k it) {x = suc n + more} {y = suc (n + more)} (omega arith)
          ∙ loop_round (n + more) it top heap e
          ∙ elim (result_cases (refill top heap it))
              as (λ _.
                (refill top heap it >>= λ it'. after_refill (next_loop (n + more)) it top it')
                ≡ (refill top heap it >>= λ it'. after_refill (next_loop n) it top it')) [
                  | inl (it', r) ↦
                      let fewer = pending-refill top heap it it' e r in
                      rw r (
                        after_refill_same (next_loop (n + more)) (next_loop n) it top it'
                          (loop_fuel n more it' (omega arith))
                          (loop_fuel n more (remember top.key.user_key it') (omega arith)))
                  | inr (x, r) ↦ rw r refl
                ]
          ∙ sym (loop_round n it top heap e)
    ]

-- The loop of `next` does not run out of fuel: with any fuel more it returns the same.
pub next_fuel : (more : ℕ) (it : MergingIterator) → next_loop (suc (pending it) + more) it ≡ next it
unfolding next
next_fuel more it = loop_fuel (suc (pending it)) more it (omega arith)
