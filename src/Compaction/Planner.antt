-- ===== src/Compaction/Planner.antt =====
-- `CompactionPlanner` of crates/zydecodb-engine/src/compaction.rs.
use zydecodb.Prelude.{
  ℕ, zero, suc, ◌+◌, ◌-◌, ◌/◌, max, Option, none, some, List, [], ◌∷◌, ◌++◌, map, length, leb, ltb,
  ◌==◌, if◌then◌else◌,
}
use zydecodb.Compaction.{saturating_add}
use zydecodb.Manifest.{SstableMeta}
use zydecodb.Compaction.Levels.{
  CompactionConfig, CompactionJob, key_span, at_level, overlapping, oldest, total_bytes, grow,
  others, among,
}

abbrev pub ids_of : List SstableMeta → List ℕ
ids_of metas = map (λ (m : SstableMeta). m.id) metas

module _ (metas : List SstableMeta) (cfg : CompactionConfig) where
  -- `level_bytes`.
  unfoldable pub level_bytes : ℕ → ℕ
  unfolding at_level
  level_bytes level = total_bytes (at_level level metas)

  -- `level_file_count`.
  unfoldable pub level_file_count : ℕ → ℕ
  unfolding at_level
  level_file_count level = length (at_level level metas)

  -- `min_level_bytes`.
  unfoldable pub min_level_bytes : ℕ
  min_level_bytes = cfg.l1_target_bytes / max cfg.level_size_multiplier 1

  -- `nominal_max_level_target`.
  unfoldable pub nominal_max_level_target : ℕ
  nominal_max_level_target = grow (cfg.max_level - 1) cfg.level_size_multiplier cfg.l1_target_bytes

  -- `effective_level_targets`, a number of levels above the greatest.
  unfoldable pub target_above : ℕ → ℕ
  unfolding level_bytes nominal_max_level_target min_level_bytes
  target_above zero =
      let max_actual = level_bytes cfg.max_level in
      if ltb 0 max_actual then max_actual else nominal_max_level_target
  target_above (suc n) =
      let computed = target_above n / max cfg.level_size_multiplier 1 in
      if leb min_level_bytes computed then computed else 0

  -- `effective_level_target`.
  unfoldable pub effective_level_target : ℕ → ℕ
  unfolding target_above
  effective_level_target level = if level == 0 then 0 else target_above (cfg.max_level - level)

  -- The loop of `base_level`, with the number of levels left.
  unfoldable pub base_from : ℕ → ℕ → ℕ
  unfolding effective_level_target
  base_from zero level = cfg.max_level
  base_from (suc n) level =
      let rest = base_from n (level + 1) in
      if ltb 0 (effective_level_target level) then level else rest

  -- `base_level`.
  unfoldable pub base_level : ℕ
  unfolding base_from
  base_level = base_from (cfg.max_level - 1) 1

  -- The loop of `estimate_pending_bytes`.
  unfoldable pub pending_from : ℕ → ℕ → ℕ → ℕ
  unfolding effective_level_target level_bytes
  pending_from zero level pending = pending
  pending_from (suc n) level pending =
      let target = effective_level_target level in
      pending_from n (level + 1)
        (if target == 0 then pending else saturating_add pending (level_bytes level - target))

  -- `estimate_pending_bytes`.
  unfoldable pub estimate_pending_bytes : ℕ
  unfolding pending_from level_file_count level_bytes base_level
  estimate_pending_bytes =
      let pending = pending_from cfg.max_level 1 0 in
      if leb cfg.l0_trigger (level_file_count 0)
      then saturating_add (saturating_add pending (level_bytes 0)) (level_bytes base_level)
      else if leb 2 (level_file_count 0)
      then saturating_add pending (level_bytes 0)
      else pending

  -- `plan_l0`; the outer option is none where it panics.
  unfoldable pub plan_l0 : Option (Option CompactionJob)
  unfolding base_level key_span overlapping at_level
  plan_l0 =
      let l0 = at_level 0 metas in
      if ltb (length l0) cfg.l0_trigger then some none else elim (key_span l0) [
        | none ↦ none
        | some (lo, hi) ↦ some (
            some (record {
              inputs = ids_of l0 ++ overlapping lo hi (at_level base_level metas);
              input_level = 0;
              output_level = base_level;
            }))
      ]

  -- `plan_level`, behind its guards.
  unfoldable pub promote : ℕ → SstableMeta → CompactionJob
  unfolding overlapping at_level
  promote level m = record {
    inputs = m.id ∷ overlapping m.min_key m.max_key (at_level (level + 1) metas);
    input_level = level;
    output_level = level + 1;
  }

  -- `plan_level`.
  unfoldable pub plan_level : ℕ → Option CompactionJob
  unfolding effective_level_target at_level oldest promote
  plan_level level =
      let target = effective_level_target level in
      if target == 0
      then none
      else if leb (total_bytes (at_level level metas)) target
      then none
      else elim (at_level level metas) [ [] ↦ none | m ∷ ms ↦ some (promote level (oldest m ms)) ]

  -- The inputs of `plan_l2_gc`.
  unfoldable pub gc_inputs : SstableMeta → List ℕ
  unfolding overlapping at_level
  gc_inputs m = m.id ∷ overlapping m.min_key m.max_key (others m.id (at_level cfg.max_level metas))

  -- `plan_l2_gc`.
  unfoldable pub plan_l2_gc : Option CompactionJob
  unfolding at_level oldest gc_inputs
  plan_l2_gc = elim (at_level cfg.max_level metas) [
    | [] ↦ none
    | m ∷ ms ↦
        let inputs = gc_inputs (oldest m ms) in
        let input_bytes = total_bytes (among inputs metas) in
        if ltb (length inputs) 2
        then none
        else if ltb (input_bytes - input_bytes / 2) cfg.l2_gc_min_reclaim_bytes
        then none
        else some
            (record { inputs = inputs; input_level = cfg.max_level; output_level = cfg.max_level })
  ]

  -- `plan_for_level`.
  unfoldable pub plan_for_level : ℕ → Option (Option CompactionJob)
  unfolding plan_l0 plan_level
  plan_for_level zero = plan_l0
  plan_for_level (suc level) = some (plan_level (suc level))

  -- `plan`, on the levels in the order of their scores.
  unfoldable pub plan : List ℕ → Option (Option CompactionJob)
  unfolding plan_for_level plan_l2_gc
  plan [] = some plan_l2_gc
  plan (level ∷ levels) =
      let rest = plan levels in
      elim (plan_for_level level) [
        | none ↦ none
        | some none ↦ rest
        | some (some job) ↦ some (some job)
      ]
