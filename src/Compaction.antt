-- ===== src/Compaction.antt =====
-- crates/zydecodb-engine/src/compaction_worker.rs: what a compaction keeps of the versions that it
-- merges, and how it cuts them into files. The input is what the merging iterator yields in Raw mode,
-- and a file is the list of the pairs that are written to it.
pub mod Read
pub mod Kept
pub mod Visible
pub mod Levels
pub mod Planner
pub mod Ranges
pub mod Closed
pub mod Jobs
mod LevelTests
mod Tests
use zydecodb.Prelude.{
  ℕ, zero, suc, ◌+◌, ◌-◌, ◌^◌, min, Bool, true, false, Option, none, some, List, [], ◌∷◌, ◌++◌,
  length, leb, ltb, ◌==◌, ◌&&◌, not, if◌then◌else◌,
}
use zydecodb.Prelude.Bytes.{Bytes}
use zydecodb.Keys.{InternalKey}
use zydecodb.Entry.{Entry, is_tombstone, is_expired, value_len}
use zydecodb.Memtable.{Pair, bytes_eq}

-- `DropReason`.
pub data DropReason : Type 0 where
  expired tombstone version : DropReason

-- `should_drop_at_compaction`, with what it leaves in `kept_at_or_below`.
unfoldable pub should_drop : InternalKey → Entry → ℕ → Bool → Bool → Bool × Bool
unfolding is_tombstone
should_drop k e gc_watermark kept drop_tombstones =
    if gc_watermark == 0
    then (false, kept)
    else if ltb gc_watermark k.seq
    then (false, kept)
    else if drop_tombstones && is_tombstone e
    then (true, kept)
    else if not kept
    then (false, true)
    else (true, kept)

-- `drop_reason`, with what it leaves in `kept_at_or_below_watermark` and `drop_rest_of_key`.
unfoldable pub drop_reason :
    InternalKey → Entry → ℕ → Bool → ℕ → Bool → Bool → Option DropReason × Bool × Bool
unfolding should_drop is_expired
drop_reason k e gc_watermark drop_tombstones now_ms kept drop_rest =
    let (drop, kept_after) = should_drop k e gc_watermark kept drop_tombstones in
    if drop_rest
    then (some expired, kept, drop_rest)
    else if is_expired e now_ms && not (is_tombstone e)
    then (some expired, kept, true)
    else if drop
    then ((if is_tombstone e then some tombstone else some version), kept_after, drop_rest)
    else (none, kept_after, drop_rest)

-- `u64::saturating_add`.
abbrev pub saturating_add : ℕ → ℕ → ℕ
saturating_add a b = min (a + b) (2 ^ 64 - 1)

-- The variables of the loop of `execute_compaction`; `files` are what is written out.
pub record CompactionState : Type 0 where
  pub pending : List Pair
  pub pending_bytes : ℕ
  pub files : List (List Pair)
  pub versions_dropped : ℕ
  pub tombstones_dropped : ℕ
  pub expired_dropped : ℕ
  pub last_user_key : Option Bytes
  pub kept_at_or_below_watermark : Bool
  pub drop_rest_of_key : Bool

abbrev pub initial_state : CompactionState
initial_state = record {
  pending = [];
  pending_bytes = 0;
  files = [];
  versions_dropped = 0;
  tombstones_dropped = 0;
  expired_dropped = 0;
  last_user_key = none;
  kept_at_or_below_watermark = false;
  drop_rest_of_key = false;
}

-- `at_key_boundary`, at a pair.
abbrev pub at_key_boundary : InternalKey → Option Bytes → Bool
at_key_boundary k none = true
at_key_boundary k (some prev) = not (bytes_eq k.user_key prev)

-- The pending pairs go into a file, if there are any.
unfoldable pub flush_pending : CompactionState → CompactionState
flush_pending st = elim st.pending [
  | [] ↦ st
  | p ∷ ps ↦ record st { files = st.files ++ (p ∷ ps) ∷ []; pending = []; pending_bytes = 0 }
]

-- The counters of the reasons.
unfoldable pub count_dropped : DropReason → CompactionState → CompactionState
count_dropped expired st = record st { expired_dropped = st.expired_dropped + 1 }
count_dropped tombstone st = record st { tombstones_dropped = st.tombstones_dropped + 1 }
count_dropped version st = record st { versions_dropped = st.versions_dropped + 1 }

-- `target_file_bytes` of the configuration, `gc_watermark`, `drop_tombstones` and `now_ms`.
module _ (target_file_bytes gc_watermark : ℕ) (drop_tombstones : Bool) (now_ms : ℕ) where
  -- The resets and the flush at a key boundary.
  unfoldable pub cross_boundary : InternalKey → CompactionState → CompactionState
  unfolding flush_pending
  cross_boundary k st =
      let reset = record st { kept_at_or_below_watermark = false; drop_rest_of_key = false } in
      if at_key_boundary k st.last_user_key
      then (if leb target_file_bytes st.pending_bytes then flush_pending reset else reset)
      else st

  -- What is done with the pair.
  unfoldable pub place : Pair → CompactionState → CompactionState
  unfolding drop_reason count_dropped value_len
  place (k, e) st =
      let (reason, kept, drop_rest) =
        drop_reason k e gc_watermark drop_tombstones now_ms st.kept_at_or_below_watermark
          st.drop_rest_of_key in
      let marked = record st {
        last_user_key = some k.user_key;
        kept_at_or_below_watermark = kept;
        drop_rest_of_key = drop_rest;
      } in
      elim reason [
        | some r ↦ count_dropped r marked
        | none ↦ record marked {
          pending = st.pending ++ (k, e) ∷ [];
          pending_bytes = saturating_add st.pending_bytes (32 + value_len e + length k.user_key);
        }
      ]

  -- The loop.
  unfoldable pub compact_all : List Pair → CompactionState → CompactionState
  unfolding cross_boundary place flush_pending
  compact_all [] st = flush_pending st
  compact_all (p ∷ pairs) st = compact_all pairs (place p (cross_boundary p.0 st))

  -- `execute_compaction`, behind the opening of its inputs.
  unfoldable pub execute_compaction : List Pair → CompactionState
  unfolding compact_all
  execute_compaction pairs = compact_all pairs initial_state
