-- ===== src/Iter/Tests.antt =====
-- Merges of concrete sources.
use zydecodb.Prelude.{ℕ, suc, ◌+◌, ◌≡◌, refl, Bool, All, arith, none, some, List, [], ◌∷◌}
use zydecodb.Prelude.Bytes.{cmp_bytes}
use zydecodb.Errors.{ok, err, io, ◌>>=◌}
use zydecodb.Keys.{EntryKind, cmp_key}
use zydecodb.Entry as Entries
use zydecodb.Memtable.{Pair}
use zydecodb.Iter.{
  Source, MergingIterator, raw, dedup, forward, reverse, collect, next, next_loop, pending,
  new_directed,
}
use zydecodb.Iter.Fuel.{next_fuel}
use zydecodb.Iter.Stream.{newest_values}
use zydecodb.Iter.Modes.{collect_all, collect_all_dedup}
use zydecodb.Iter.Merge.{InOrder, sources_of}
use zydecodb.Iter.Sorted.{count, count_lists}
use zydecodb.Iter.Union.{collect_all_sorted}

-- The key `k` with a value, and with a tombstone.
abbrev value_at : ℕ → ℕ → Pair
value_at k seq =
    (record { user_key = k ∷ []; seq = seq; kind = EntryKind.value }, Entries.value (seq ∷ []) none)

abbrev tombstone_at : ℕ → ℕ → Pair
tombstone_at k seq =
    (record { user_key = k ∷ []; seq = seq; kind = EntryKind.tombstone }, Entries.tombstone)

abbrev two_sources : List Source
two_sources =
    (ok (value_at 1 5) ∷ ok (tombstone_at 2 9) ∷ ok (value_at 3 1) ∷ [])
    ∷ (ok (value_at 1 2) ∷ ok (value_at 2 3) ∷ [])
    ∷ []

merged_raw :
    collect_all two_sources raw forward
    ≡ ok (value_at 1 5 ∷ value_at 1 2 ∷ tombstone_at 2 9 ∷ value_at 2 3 ∷ value_at 3 1 ∷ [])
unfolding collect_all new_directed collect cmp_key cmp_bytes
merged_raw = refl

merged_dedup : collect_all two_sources dedup forward ≡ ok (value_at 1 5 ∷ value_at 3 1 ∷ [])
unfolding collect_all new_directed collect cmp_key cmp_bytes
merged_dedup = refl

merged_failed :
    collect_all ((ok (value_at 1 5) ∷ err (io "read") ∷ []) ∷ []) raw forward ≡ err (io "read")
unfolding collect_all new_directed collect
merged_failed = refl

collect_all_dedup_example :
    collect_all two_sources dedup reverse
    ≡ (collect_all two_sources raw reverse >>= λ ps. ok (newest_values none ps))
collect_all_dedup_example = collect_all_dedup two_sources reverse

abbrev one_source : MergingIterator
one_source = record {
  sources = (ok (value_at 3 1) ∷ []) ∷ [];
  heap =
      record { key = (value_at 2 9).0; entry = (value_at 2 9).1; source = 0; direction = forward }
      ∷ [];
  mode = dedup;
  direction = forward;
  last_user_key = some (2 ∷ []);
}

next_fuel_example : next_loop (suc (pending one_source) + 4) one_source ≡ next one_source
next_fuel_example = next_fuel 4 one_source

abbrev two_lists : List (List Pair)
two_lists =
    (value_at 1 5 ∷ tombstone_at 2 9 ∷ value_at 3 1 ∷ []) ∷ (value_at 1 2 ∷ value_at 2 3 ∷ []) ∷ []

two_lists-InOrder : All (InOrder forward) two_lists
unfolding cmp_key cmp_bytes
two_lists-InOrder = ground arith

collect_all_sorted_example :
    (ps : List Pair) × (collect_all (sources_of two_lists) raw forward ≡ ok ps)
    × InOrder forward ps
    × ((P : Pair → Bool) → count P ps ≡ count_lists P two_lists)
collect_all_sorted_example = collect_all_sorted forward two_lists two_lists-InOrder
