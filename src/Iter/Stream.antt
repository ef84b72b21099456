-- ===== src/Iter/Stream.antt =====
-- What the two modes yield, in terms of the sequence of the elements that leave the heap.
use zydecodb.Prelude.{
  ℕ, zero, suc, ◌≡◌, refl, sym, subst, ap, ◌∙◌, true, false, Option, none, some, List, [], ◌∷◌,
  arith,
}
use zydecodb.Prelude.Bytes.{Bytes}
use zydecodb.Errors.{EngineResult, ok, err, ◌>>=◌, EngineError}
use zydecodb.Memtable.{Pair}
use zydecodb.Iter.{
  Source, HeapEntry, push_next, source_next, ScanDirection, MergingIterator, raw, dedup, with_next,
  refill, Yielded, after_refill, next_loop, next, pending, remember, is_last, is_tombstone_key,
  collect,
}
use zydecodb.Iter.Fuel.{pending-refill, after_refill_same, loop_empty, loop_round}

-- The elements that leave the heap, each behind the refill from its source.
unfoldable pub pops : ℕ → ScanDirection → List Source → List HeapEntry → EngineResult (List Pair)
pops zero direction sources heap = ok []
pops (suc n) direction sources [] = ok []
pops (suc n) direction sources (top ∷ heap) =
    let (r, rest) = source_next top.source sources in
    r >>= λ o. pops n direction rest (push_next top.source direction o heap) >>= λ ps.
    ok ((top.key, top.entry) ∷ ps)

abbrev pub pops_of : ℕ → MergingIterator → EngineResult (List Pair)
pops_of n it = pops n it.direction it.sources it.heap

-- Older versions of the last user key, and tombstones, left out.
unfoldable pub newest_values : Option Bytes → List Pair → List Pair
newest_values last [] = []
newest_values last ((k, e) ∷ ps) = elim (is_last last k.user_key) [
  | true ↦ newest_values last ps
  | false ↦ elim (is_tombstone_key k) [
    | true ↦ newest_values (some k.user_key) ps
    | false ↦ (k, e) ∷ newest_values (some k.user_key) ps
  ]
]

-- What is collected behind a result of `next`.
abbrev pub more : ℕ → Option (Pair × MergingIterator) → EngineResult (List Pair)
more n o = elim o [ none ↦ ok [] | some (p, it') ↦ collect n it' >>= λ ps. ok (p ∷ ps) ]

pub collect-next : (n : ℕ) (it : MergingIterator) → collect (suc n) it ≡ (next it >>= λ o. more n o)
unfolding collect
collect-next n it = refl

pub next_empty : (it : MergingIterator) → it.heap ≡ [] → next it ≡ ok none
unfolding next
next_empty it h = loop_empty (suc (pending it)) it h

pub next_failed :
    (it : MergingIterator) (top : HeapEntry) (heap : List HeapEntry) (e : EngineError)
    → it.heap ≡ top ∷ heap
    → refill top heap it ≡ err e
    → next it ≡ err e
unfolding next
next_failed it top heap e h r = loop_round (pending it) it top heap h ∙ rw r refl

next_round :
    (it it' : MergingIterator) (top : HeapEntry) (heap : List HeapEntry)
    → it.heap ≡ top ∷ heap
    → refill top heap it ≡ ok it'
    → next it ≡ after_refill next it top it'
unfolding next
next_round it it' top heap h r =
    let fewer = pending-refill top heap it it' h r in
    loop_round (pending it) it top heap h
    ∙ rw r (
        after_refill_same (next_loop (pending it)) next it top it'
          (ap (λ (k : ℕ). next_loop k it') {x = pending it} {y = suc (pending it')} (omega arith))
          (ap (λ (k : ℕ). next_loop k (remember top.key.user_key it')) {x = pending it}
            {y = suc (pending it')} (omega arith)))

abbrev Keeps : MergingIterator → EngineResult MergingIterator → Type 0
Keeps it (ok it') = (it'.mode ≡ it.mode) × (it'.last_user_key ≡ it.last_user_key)
Keeps it (err e) = Unit

with_next-Keeps :
    (r : EngineResult (Option Pair)) (top : HeapEntry) (heap : List HeapEntry)
    (it : MergingIterator) (sources : List Source)
    → Keeps it (r >>= λ o. with_next o top heap it sources)
with_next-Keeps (ok o) top heap it sources = (refl, refl)
with_next-Keeps (err e) top heap it sources = tt

pub refill-Keeps :
    (top : HeapEntry) (heap : List HeapEntry) (it it' : MergingIterator)
    → refill top heap it ≡ ok it'
    → (it'.mode ≡ it.mode) × (it'.last_user_key ≡ it.last_user_key)
unfolding refill
refill-Keeps top heap it it' h =
    let got = source_next top.source it.sources in
    subst (Keeps it) h (with_next-Keeps got.0 top heap it got.1)

abbrev pub cons : Pair → List Pair → EngineResult (List Pair)
cons p ps = ok (p ∷ ps)

abbrev pub then_pops : ℕ → Pair → EngineResult MergingIterator → EngineResult (List Pair)
then_pops n p r = r >>= λ it. pops_of n it >>= cons p

pops_given :
    (r : EngineResult (Option Pair)) (n : ℕ) (p : Pair) (top : HeapEntry) (heap : List HeapEntry)
    (it : MergingIterator) (sources : List Source)
    → (r >>= λ o. pops n it.direction sources (push_next top.source it.direction o heap) >>= cons p)
      ≡ then_pops n p (r >>= λ o. with_next o top heap it sources)
pops_given (ok o) n p top heap it sources = refl
pops_given (err e) n p top heap it sources = refl

pub pops_round :
    (n : ℕ) (it : MergingIterator) (top : HeapEntry) (heap : List HeapEntry)
    → it.heap ≡ top ∷ heap
    → pops_of (suc n) it ≡ then_pops n (top.key, top.entry) (refill top heap it)
unfolding pops refill
pops_round n it top heap h =
    ap (pops (suc n) it.direction it.sources) h
    ∙ pops_given (source_next top.source it.sources).0 n (top.key, top.entry) top heap it
        (source_next top.source it.sources).1

pub pops_empty : (n : ℕ) (it : MergingIterator) → it.heap ≡ [] → pops_of n it ≡ ok []
unfolding pops
pops_empty zero it h = refl
pops_empty (suc n) it h = ap (pops (suc n) it.direction it.sources) h

pub bind_assoc :
    (r : EngineResult (List Pair)) (p : Pair) (f : List Pair → EngineResult (List Pair))
    → ((r >>= cons p) >>= f) ≡ (r >>= λ ps. f (p ∷ ps))
bind_assoc (ok ps) p f = refl
bind_assoc (err e) p f = refl

module _ (it it' : MergingIterator) (top : HeapEntry) (heap : List HeapEntry)
    (h : it.heap ≡ top ∷ heap) (r : refill top heap it ≡ ok it') where
  round_is :
      (n : ℕ) (y : Yielded)
      → after_refill next it top it' ≡ y
      → collect (suc n) it ≡ (y >>= λ o. more n o)
  round_is n y e =
      collect-next n it
      ∙ ap (λ (x : Yielded). x >>= λ o. more n o) (next_round it it' top heap h r ∙ e)

  pub raw_round :
      (n : ℕ) → it.mode ≡ raw → collect (suc n) it ≡ (collect n it' >>= cons (top.key, top.entry))
  raw_round n m = round_is n (ok (some ((top.key, top.entry), it'))) (ground arith)

  pub dedup_skip :
      (n : ℕ)
      → it.mode ≡ dedup
      → is_last it.last_user_key top.key.user_key ≡ true
      → collect (suc n) it ≡ collect (suc n) it'
  dedup_skip n m l = round_is n (next it') (ground arith) ∙ sym (collect-next n it')

  pub dedup_tombstone :
      (n : ℕ)
      → it.mode ≡ dedup
      → is_last it.last_user_key top.key.user_key ≡ false
      → is_tombstone_key top.key ≡ true
      → collect (suc n) it ≡ collect (suc n) (remember top.key.user_key it')
  dedup_tombstone n m l t =
      round_is n (next (remember top.key.user_key it')) (ground arith)
      ∙ sym (collect-next n (remember top.key.user_key it'))

  pub dedup_yield :
      (n : ℕ)
      → it.mode ≡ dedup
      → is_last it.last_user_key top.key.user_key ≡ false
      → is_tombstone_key top.key ≡ false
      → collect (suc n) it
        ≡ (collect n (remember top.key.user_key it') >>= cons (top.key, top.entry))
  dedup_yield n m l t =
      round_is n (ok (some ((top.key, top.entry), remember top.key.user_key it'))) (ground arith)
