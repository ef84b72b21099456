-- ===== src/Compaction/Levels.antt =====
-- crates/zydecodb-engine/src/compaction.rs: the planning of compactions over the live tables. The sums
-- of sizes stay below 2^64. A level is at most the greatest one, as in every call. The scores, which
-- are quotients of floats, only order the levels that are tried; that order is an argument of `plan`.
use zydecodb.Prelude.{
  ℕ, zero, suc, ◌+◌, ◌-◌, ◌*◌, ◌/◌, ◌^◌, min, Bool, false, Option, none, some, List, [], ◌∷◌,
  length, ltb, ◌==◌, ◌||◌, not, if◌then◌else◌,
}
use zydecodb.Prelude.Bytes.{Bytes, cmp_bytes}
use zydecodb.Prelude.SortedMap.{is_lt}
use zydecodb.Manifest.{SstableMeta}

-- `CompactionConfig`.
pub record CompactionConfig : Type 0 where
  pub l0_trigger : ℕ
  pub level_size_multiplier : ℕ
  pub l1_target_bytes : ℕ
  pub target_file_bytes : ℕ
  pub max_level : ℕ
  pub soft_pending_compaction_bytes : ℕ
  pub hard_pending_compaction_bytes : ℕ
  pub l2_gc_min_reclaim_bytes : ℕ
  pub optimize_filters_for_hits : Bool

-- `CompactionJob`, without its score.
pub record CompactionJob : Type 0 where
  pub inputs : List ℕ
  pub input_level : ℕ
  pub output_level : ℕ

abbrev pub bytes_lt : Bytes → Bytes → Bool
bytes_lt a b = is_lt (cmp_bytes a b)

-- `overlaps`.
unfoldable pub overlaps : Bytes → Bytes → Bytes → Bytes → Bool
overlaps a_min a_max b_min b_max = not (bytes_lt a_max b_min || bytes_lt b_max a_min)

-- The loop of `key_span`.
unfoldable pub widen : List SstableMeta → Bytes → Bytes → Bytes × Bytes
widen [] lo hi = (lo, hi)
widen (m ∷ ms) lo hi =
    widen ms (if bytes_lt m.min_key lo then m.min_key else lo)
      (if bytes_lt hi m.max_key then m.max_key else hi)

-- `key_span`.
unfoldable pub key_span : List SstableMeta → Option (Bytes × Bytes)
unfolding widen
key_span [] = none
key_span (m ∷ ms) = some (widen ms m.min_key m.max_key)

-- The tables of a level.
unfoldable pub at_level : ℕ → List SstableMeta → List SstableMeta
at_level level [] = []
at_level level (m ∷ metas) =
    let rest = at_level level metas in if m.level == level then m ∷ rest else rest

-- The ids of the tables that overlap a range, behind those that a job has.
unfoldable pub overlapping : Bytes → Bytes → List SstableMeta → List ℕ
unfolding overlaps
overlapping lo hi [] = []
overlapping lo hi (m ∷ metas) =
    let rest = overlapping lo hi metas in
    if overlaps m.min_key m.max_key lo hi then m.id ∷ rest else rest

-- `min_by_key` on the ids: the first of the least.
unfoldable pub oldest : SstableMeta → List SstableMeta → SstableMeta
oldest m [] = m
oldest m (n ∷ metas) = oldest (if ltb n.id m.id then n else m) metas

abbrev pub total_bytes : List SstableMeta → ℕ
total_bytes [] = 0
total_bytes (m ∷ metas) = m.size_bytes + total_bytes metas

-- `same_level_compaction_would_make_progress`: a small table, or two that overlap.
abbrev pub any_smaller : ℕ → List SstableMeta → Bool
any_smaller half [] = false
any_smaller half (m ∷ metas) = ltb m.size_bytes half || any_smaller half metas

abbrev pub overlaps_any : SstableMeta → List SstableMeta → Bool
overlaps_any a [] = false
overlaps_any a (b ∷ metas) =
    overlaps a.min_key a.max_key b.min_key b.max_key || overlaps_any a metas

abbrev pub any_overlap : List SstableMeta → Bool
any_overlap [] = false
any_overlap (a ∷ metas) = overlaps_any a metas || any_overlap metas

unfoldable pub same_level_compaction_would_make_progress : List SstableMeta → ℕ → Bool
same_level_compaction_would_make_progress input_metas target_file_bytes =
    if ltb (length input_metas) 2
    then false
    else any_smaller (target_file_bytes / 2) input_metas || any_overlap input_metas

-- `u64::saturating_mul`, a number of times.
abbrev pub grow : ℕ → ℕ → ℕ → ℕ
grow zero multiplier t = t
grow (suc n) multiplier t = grow n multiplier (min (t * multiplier) (2 ^ 64 - 1))

-- The ids that are not an id.
abbrev pub others : ℕ → List SstableMeta → List SstableMeta
others id [] = []
others id (m ∷ metas) = let rest = others id metas in if m.id == id then rest else m ∷ rest

abbrev pub has_elem : ℕ → List ℕ → Bool
has_elem id [] = false
has_elem id (j ∷ ids) = j == id || has_elem id ids

abbrev pub among : List ℕ → List SstableMeta → List SstableMeta
among ids [] = []
among ids (m ∷ metas) = let rest = among ids metas in if has_elem m.id ids then m ∷ rest else rest
