-- ===== src/Iter/Modes.antt =====
-- The two modes against the sequence of the elements that leave the heap.
use zydecodb.Prelude.{
  ℕ, zero, suc, ◌-◌, ◌≤◌, ◌≡◌, refl, sym, ap, ◌∙◌, true, false, Option, none, some, List, [], ◌∷◌,
  arith, inl, inr, Bool-cases,
}
use zydecodb.Prelude.Bytes.{Bytes}
use zydecodb.Errors.{EngineResult, ok, err, ◌>>=◌, EngineError, result_cases}
use zydecodb.Keys.{InternalKey}
use zydecodb.Entry.{Entry}
use zydecodb.Memtable.{Pair}
use zydecodb.Iter.{
  Source, MergeMode, ScanDirection, fill, new_directed, HeapEntry, MergingIterator, raw, dedup,
  refill, pending, remember, is_last, is_tombstone_key, collect,
}
use zydecodb.Iter.Fuel.{pending-refill, heap_cases}
use zydecodb.Iter.Stream.{
  pops, pops_of, newest_values, cons, more, then_pops, collect-next, next_empty, next_failed,
  refill-Keeps, bind_assoc, pops_round, pops_empty, raw_round, dedup_skip, dedup_tombstone,
  dedup_yield,
}

bind_same :
    (r : EngineResult (List Pair)) (f g : List Pair → EngineResult (List Pair))
    → ((ps : List Pair) → f ps ≡ g ps)
    → (r >>= f) ≡ (r >>= g)
bind_same (ok ps) f g h = h ps
bind_same (err e) f g h = refl

bind-cons :
    (r : EngineResult (List Pair)) (p : Pair) (f : List Pair → List Pair)
    → ((r >>= λ ps. ok (f ps)) >>= cons p) ≡ (r >>= λ ps. ok (p ∷ f ps))
bind-cons (ok ps) p f = refl
bind-cons (err e) p f = refl

newest_values_skip :
    (last : Option Bytes) (k : InternalKey) (e : Entry) (ps : List Pair)
    → is_last last k.user_key ≡ true
    → newest_values last ((k, e) ∷ ps) ≡ newest_values last ps
unfolding newest_values
newest_values_skip last k e ps h = ground arith

newest_values_tombstone :
    (last : Option Bytes) (k : InternalKey) (e : Entry) (ps : List Pair)
    → is_last last k.user_key ≡ false
    → is_tombstone_key k ≡ true
    → newest_values last ((k, e) ∷ ps) ≡ newest_values (some k.user_key) ps
unfolding newest_values
newest_values_tombstone last k e ps h t = ground arith

newest_values_yield :
    (last : Option Bytes) (k : InternalKey) (e : Entry) (ps : List Pair)
    → is_last last k.user_key ≡ false
    → is_tombstone_key k ≡ false
    → newest_values last ((k, e) ∷ ps) ≡ (k, e) ∷ newest_values (some k.user_key) ps
unfolding newest_values
newest_values_yield last k e ps h t = ground arith

abbrev filter_of : Option Bytes → List Pair → EngineResult (List Pair)
filter_of last ps = ok (newest_values last ps)

collect_empty : (n : ℕ) (it : MergingIterator) → it.heap ≡ [] → collect (suc n) it ≡ ok []
collect_empty n it h = collect-next n it ∙ ap (λ x. x >>= λ o. more n o) (next_empty it h)

collect_failed :
    (n : ℕ) (it : MergingIterator) (top : HeapEntry) (heap : List HeapEntry) (e : EngineError)
    → it.heap ≡ top ∷ heap
    → refill top heap it ≡ err e
    → collect (suc n) it ≡ err e
collect_failed n it top heap e h r =
    collect-next n it ∙ ap (λ x. x >>= λ o. more n o) (next_failed it top heap e h r)

-- What `Dedup` collects in `n` rounds more than there are elements.
abbrev CollectsNewest : ℕ → Type 0
CollectsNewest m =
    (n : ℕ) (it : MergingIterator)
    → it.mode ≡ dedup
    → pending it ≤ m
    → m ≤ n
    → collect (suc n) it ≡ (pops_of (suc m) it >>= filter_of it.last_user_key)

-- A round of it, by the rounds that follow.
module _ (m : ℕ) (later : CollectsNewest m) (n : ℕ) (it it' : MergingIterator) (top : HeapEntry)
    (heap : List HeapEntry) (mode : it.mode ≡ dedup) (few : pending it ≤ suc m) (enough : suc m ≤ n)
    (h : it.heap ≡ top ∷ heap) (r : refill top heap it ≡ ok it') where
  abbrev Step : Type 0
  Step =
      collect (suc n) it
      ≡ (pops_of (suc m) it' >>= λ ps. filter_of it.last_user_key ((top.key, top.entry) ∷ ps))

  step_skip : is_last it.last_user_key top.key.user_key ≡ true → Step
  step_skip l =
      let fewer = pending-refill top heap it it' h r in
      let kept = refill-Keeps top heap it it' r in
      dedup_skip it it' top heap h r n mode l
      ∙ later n it' (kept.0 ∙ mode) (omega arith) (omega arith)
      ∙ bind_same (pops_of (suc m) it') (filter_of it'.last_user_key)
          (λ ps. filter_of it.last_user_key ((top.key, top.entry) ∷ ps))
          (λ ps.
            ap (λ (o : Option Bytes). filter_of o ps) kept.1
            ∙ ap ok (sym (newest_values_skip it.last_user_key top.key top.entry ps l)))

  step_tombstone :
      is_last it.last_user_key top.key.user_key ≡ false → is_tombstone_key top.key ≡ true → Step
  step_tombstone l t =
      let fewer = pending-refill top heap it it' h r in
      let kept = refill-Keeps top heap it it' r in
      dedup_tombstone it it' top heap h r n mode l t
      ∙ later n (remember top.key.user_key it') (kept.0 ∙ mode) (omega arith) (omega arith)
      ∙ bind_same (pops_of (suc m) it') (filter_of (some top.key.user_key))
          (λ ps. filter_of it.last_user_key ((top.key, top.entry) ∷ ps))
          (λ ps. ap ok (sym (newest_values_tombstone it.last_user_key top.key top.entry ps l t)))

  step_yield :
      (n' : ℕ)
      → n ≡ suc n'
      → is_last it.last_user_key top.key.user_key ≡ false
      → is_tombstone_key top.key ≡ false
      → Step
  step_yield n' e l t =
      let fewer = pending-refill top heap it it' h r in
      let kept = refill-Keeps top heap it it' r in
      dedup_yield it it' top heap h r n mode l t
      ∙ ap (λ x. collect x (remember top.key.user_key it') >>= cons (top.key, top.entry)) e
      ∙ ap (λ x. x >>= cons (top.key, top.entry))
          (later n' (remember top.key.user_key it') (kept.0 ∙ mode) (omega arith) (omega arith))
      ∙ bind-cons (pops_of (suc m) it') (top.key, top.entry) (newest_values (some top.key.user_key))
      ∙ bind_same (pops_of (suc m) it')
          (λ ps. ok ((top.key, top.entry) ∷ newest_values (some top.key.user_key) ps))
          (λ ps. filter_of it.last_user_key ((top.key, top.entry) ∷ ps))
          (λ ps. ap ok (sym (newest_values_yield it.last_user_key top.key top.entry ps l t)))

  step : Step
  step = elim (Bool-cases (is_last it.last_user_key top.key.user_key)) as (λ _. Step) [
    | inl l ↦ step_skip l
    | inr l ↦ elim (Bool-cases (is_tombstone_key top.key)) as (λ _. Step) [
      | inl t ↦ step_tombstone l t
      | inr t ↦ step_yield (n - 1) (omega arith) l t
    ]
  ]

dedup_by_heap :
    (m n : ℕ) (it : MergingIterator)
    → ((it' : MergingIterator) (top : HeapEntry) (heap : List HeapEntry)
        → it.heap ≡ top ∷ heap
        → refill top heap it ≡ ok it'
        → collect (suc n) it ≡ (pops_of (suc m) it >>= filter_of it.last_user_key))
    → collect (suc n) it ≡ (pops_of (suc m) it >>= filter_of it.last_user_key)
unfolding newest_values
dedup_by_heap m n it round =
    let goal : Type 0 = collect (suc n) it ≡ (pops_of (suc m) it >>= filter_of it.last_user_key) in
    elim (heap_cases it.heap) as (λ _. goal) [
      | inl h ↦
          collect_empty n it h
          ∙ sym (ap (λ x. x >>= filter_of it.last_user_key) (pops_empty (suc m) it h))
      | inr (top, (heap, h)) ↦ elim (result_cases (refill top heap it)) as (λ _. goal) [
        | inl (it', r) ↦ round it' top heap h r
        | inr (e, r) ↦
            collect_failed n it top heap e h r
            ∙ sym (
                ap (λ x. x >>= filter_of it.last_user_key)
                  (pops_round m it top heap h ∙ ap (then_pops m (top.key, top.entry)) r))
      ]
    ]

dedup_rounds : (m : ℕ) → CollectsNewest m
dedup_rounds zero n it mode few enough =
    dedup_by_heap zero n it
      (λ it' top heap h r. absurd (omega (arith, pending-refill top heap it it' h r)))
dedup_rounds (suc m) n it mode few enough = dedup_by_heap (suc m) n it (λ it' top heap h r.
    step m (dedup_rounds m) n it it' top heap mode few enough h r
    ∙ sym (
        ap (λ x. x >>= filter_of it.last_user_key)
          (pops_round (suc m) it top heap h ∙ ap (then_pops (suc m) (top.key, top.entry)) r)
        ∙ bind_assoc (pops_of (suc m) it') (top.key, top.entry) (filter_of it.last_user_key)))

pub raw_rounds : (n : ℕ) (it : MergingIterator) → it.mode ≡ raw → collect n it ≡ pops_of n it
unfolding collect pops
raw_rounds zero it mode = refl
raw_rounds (suc n) it mode =
    let goal : Type 0 = collect (suc n) it ≡ pops_of (suc n) it in
    elim (heap_cases it.heap) as (λ _. goal) [
      | inl h ↦ collect_empty n it h ∙ sym (pops_empty (suc n) it h)
      | inr (top, (heap, h)) ↦ elim (result_cases (refill top heap it)) as (λ _. goal) [
        | inl (it', r) ↦
            raw_round it it' top heap h r n mode
            ∙ ap (λ x. x >>= cons (top.key, top.entry))
                (raw_rounds n it' ((refill-Keeps top heap it it' r).0 ∙ mode))
            ∙ sym (pops_round n it top heap h ∙ ap (then_pops n (top.key, top.entry)) r)
        | inr (e, r) ↦
            collect_failed n it top heap e h r
            ∙ sym (pops_round n it top heap h ∙ ap (then_pops n (top.key, top.entry)) r)
      ]
    ]

-- The whole of a merge: build it, and take pairs until there is none.
unfoldable pub collect_all : List Source → MergeMode → ScanDirection → EngineResult (List Pair)
collect_all sources mode direction =
    new_directed sources mode direction >>= λ it. collect (suc (pending it)) it

abbrev pub start : MergeMode → ScanDirection → List HeapEntry × List Source → MergingIterator
start mode direction (heap, rest) = record {
  sources = rest;
  heap = heap;
  mode = mode;
  direction = direction;
  last_user_key = none;
}

all_of_start :
    (direction : ScanDirection) (r : EngineResult (List HeapEntry × List Source))
    → ((r >>= λ x. ok (start dedup direction x)) >>= λ it. collect (suc (pending it)) it) ≡ (
        ((r >>= λ x. ok (start raw direction x)) >>= λ it. collect (suc (pending it)) it)
        >>= filter_of none)
all_of_start direction (ok (heap, rest)) =
    let it = start dedup direction (heap, rest) in
    let it' = start raw direction (heap, rest) in
    dedup_rounds (pending it) (pending it) it refl (omega arith) (omega arith)
    ∙ sym (ap (λ x. x >>= filter_of none) (raw_rounds (suc (pending it')) it' refl))
all_of_start direction (err e) = refl

-- Whatever the sources hold and in whichever direction, a merge in `Dedup` mode yields what the
-- merge in `Raw` mode yields, less each version whose user key is that of the version before it
-- and less the tombstones; if a source fails, both fail with its error.
pub collect_all_dedup :
    (sources : List Source) (direction : ScanDirection)
    → collect_all sources dedup direction
      ≡ (collect_all sources raw direction >>= λ ps. ok (newest_values none ps))
unfolding collect_all new_directed
collect_all_dedup sources direction = all_of_start direction (fill 0 direction sources [])
