-- ===== src/Compaction/Jobs.antt =====
-- `plan` of crates/zydecodb-engine/src/compaction.rs makes jobs that keep the levels apart.
use zydecodb.Prelude.{
  ℕ, zero, suc, ◌-◌, ◌/◌, ◌≤◌, ◌≡◌, refl, sym, subst, ap, ◌∙◌, inl, inr, Bool, true, false, Option,
  none, some, List, [], ◌∷◌, ◌++◌, arith, leb, ltb, length, ◌==◌, if◌then◌else◌, Option-cases,
}
use zydecodb.Prelude.Bytes.{Bytes}
use zydecodb.Prelude.SortedMap.{Has}
use zydecodb.Manifest.{SstableMeta}
use zydecodb.Compaction.Levels.{
  CompactionConfig, CompactionJob, key_span, at_level, overlapping, oldest, total_bytes, among,
}
use zydecodb.Compaction.Planner.{
  ids_of, effective_level_target, base_level, plan_l0, promote, plan_level, gc_inputs, plan_l2_gc,
  plan_for_level, plan,
}
use zydecodb.Compaction.Ranges.{Has-at_level, oldest-Has}
use zydecodb.Compaction.Closed.{IsLeveled, IsClosed, promote-IsClosed, gc-IsClosed, l0-IsClosed}

guarded :
    (b : Bool) (x : Option CompactionJob) (job : CompactionJob)
    → (if b then none else x) ≡ some job
    → x ≡ some job
guarded true x job h = ground arith
guarded false x job h = h

some_eq : (x y : CompactionJob) → some x ≡ some y → x ≡ y
some_eq x y h = ground arith

none-some : (x : CompactionJob) → ¬ (none ≡ some x)
none-some x h = ground arith

module _ (metas : List SstableMeta) (leveled : IsLeveled metas) where
  plan_level-IsClosed :
      (cfg : CompactionConfig) (level : ℕ) (job : CompactionJob)
      → plan_level metas cfg level ≡ some job
      → IsClosed metas job
  unfolding plan_level
  plan_level-IsClosed cfg level job e =
      go (at_level level metas) (λ k h. (Has-at_level level metas k h).0)
        (guarded (leb (total_bytes (at_level level metas)) (effective_level_target metas cfg level))
          (of (at_level level metas)) job
          (guarded (effective_level_target metas cfg level == 0)
            (if leb (total_bytes (at_level level metas)) (effective_level_target metas cfg level)
              then none
              else of (at_level level metas))
            job e))
    where
      of : List SstableMeta → Option CompactionJob
      of [] = none
      of (m ∷ ms) = some (promote metas cfg level (oldest m ms))

      go :
          (xs : List SstableMeta)
          → ((k : SstableMeta) → Has k xs → Has k metas)
          → of xs ≡ some job
          → IsClosed metas job
      go [] sub h = absurd (none-some job h)
      go (m ∷ ms) sub h =
          subst (IsClosed metas) (some_eq (promote metas cfg level (oldest m ms)) job h) (
            promote-IsClosed metas leveled cfg level (oldest m ms)
              (sub (oldest m ms) (oldest-Has m ms)))

  plan_l2_gc-IsClosed :
      (cfg : CompactionConfig) (job : CompactionJob)
      → 1 ≤ cfg.max_level
      → plan_l2_gc metas cfg ≡ some job
      → IsClosed metas job
  unfolding plan_l2_gc
  plan_l2_gc-IsClosed cfg job l e = go (at_level cfg.max_level metas) (λ k h. h) e
    where
      made : List ℕ → CompactionJob
      made inputs = record {
        inputs = inputs;
        input_level = cfg.max_level;
        output_level = cfg.max_level;
      }

      few : List ℕ → Bool
      few inputs = ltb (length inputs) 2

      small : List ℕ → Bool
      small inputs =
          ltb (total_bytes (among inputs metas) - total_bytes (among inputs metas) / 2)
            cfg.l2_gc_min_reclaim_bytes

      of : List SstableMeta → Option CompactionJob
      of [] = none
      of (m ∷ ms) =
          let inputs = gc_inputs metas cfg (oldest m ms) in
          if few inputs then none else if small inputs then none else some (made inputs)

      go :
          (xs : List SstableMeta)
          → ((k : SstableMeta) → Has k xs → Has k (at_level cfg.max_level metas))
          → of xs ≡ some job
          → IsClosed metas job
      go [] sub h = absurd (none-some job h)
      go (m ∷ ms) sub h =
          let inputs = gc_inputs metas cfg (oldest m ms) in
          let some_made = some (made inputs) in
          let same = some_eq (made inputs) job (
            guarded (small inputs) some_made job
              (guarded (few inputs) (if small inputs then none else some_made) job h)) in
          gc-IsClosed metas leveled cfg (oldest m ms) l (sub (oldest m ms) (oldest-Has m ms)) job
            (ap (λ (j : CompactionJob). j.inputs) (sym same))
            (ap (λ (j : CompactionJob). j.output_level) (sym same))

  plan_l0-IsClosed :
      (cfg : CompactionConfig) (job : CompactionJob)
      → 1 ≤ cfg.max_level
      → plan_l0 metas cfg ≡ some (some job)
      → IsClosed metas job
  unfolding plan_l0
  plan_l0-IsClosed cfg job l e = elim (Option-cases (key_span (at_level 0 metas))) [
    | inl n ↦ absurd (nothing n e)
    | inr ((lo, hi), q) ↦
        let same = made lo hi q e in
        l0-IsClosed metas leveled cfg lo hi job l q
          (ap (λ (j : CompactionJob). j.inputs) (sym same))
          (ap (λ (j : CompactionJob). j.output_level) (sym same))
  ]
    where
      job_of : Bytes → Bytes → CompactionJob
      job_of lo hi = record {
        inputs =
            ids_of (at_level 0 metas) ++ overlapping lo hi (at_level (base_level metas cfg) metas);
        input_level = 0;
        output_level = base_level metas cfg;
      }

      of : Option (Bytes × Bytes) → Option (Option CompactionJob)
      of none = none
      of (some (lo, hi)) = some (some (job_of lo hi))

      few : Bool
      few = ltb (length (at_level 0 metas)) cfg.l0_trigger

      cases :
          (b : Bool) (r : Option (Option CompactionJob))
          → (if b then some none else r) ≡ some (some job)
          → r ≡ some (some job)
      cases true r h = ground arith
      cases false r h = h

      no_job : ¬ (none ≡ some (some job))
      no_job h = ground arith

      inner : (x : CompactionJob) → some (some x) ≡ some (some job) → x ≡ job
      inner x h = ground arith

      nothing : key_span (at_level 0 metas) ≡ none → ¬ (plan_l0 metas cfg ≡ some (some job))
      nothing n h = no_job (ap of (sym n) ∙ cases few (of (key_span (at_level 0 metas))) h)

      made :
          (lo hi : Bytes)
          → key_span (at_level 0 metas) ≡ some (lo, hi)
          → plan_l0 metas cfg ≡ some (some job)
          → job_of lo hi ≡ job
      made lo hi q h =
          inner (job_of lo hi) (ap of (sym q) ∙ cases few (of (key_span (at_level 0 metas))) h)

  plan_for_level-IsClosed :
      (cfg : CompactionConfig) (level : ℕ) (job : CompactionJob)
      → 1 ≤ cfg.max_level
      → plan_for_level metas cfg level ≡ some (some job)
      → IsClosed metas job
  unfolding plan_for_level
  plan_for_level-IsClosed cfg zero job l e = plan_l0-IsClosed cfg job l e
  plan_for_level-IsClosed cfg (suc level) job l e =
      plan_level-IsClosed cfg (suc level) job (ground (arith, e))

-- Whatever the order of the levels is, the planner makes a job that keeps the levels apart: every
-- table that stays at the output level lies beside the inputs of the job, so before or behind all
-- of them. The tables have ids of their own and ranges that are not empty, those of one level are
-- apart above level 0, and there is a level above 0.
pub plan-IsClosed :
    (metas : List SstableMeta) (cfg : CompactionConfig) (levels : List ℕ) (job : CompactionJob)
    → IsLeveled metas
    → 1 ≤ cfg.max_level
    → plan metas cfg levels ≡ some (some job)
    → IsClosed metas job
unfolding plan
plan-IsClosed metas cfg [] job leveled l e =
    plan_l2_gc-IsClosed metas leveled cfg job l (ground (arith, e))
plan-IsClosed metas cfg (level ∷ levels) job leveled l e =
    step (plan_for_level metas cfg level) refl e
      (λ h. plan-IsClosed metas cfg levels job leveled l h)
  where
    no_job : ¬ (none ≡ some (some job))
    no_job h = ground arith

    step :
        (r : Option (Option CompactionJob))
        → plan_for_level metas cfg level ≡ r
        → elim r [
          | none ↦ none
          | some none ↦ plan metas cfg levels
          | some (some job) ↦ some (some job)
        ]
          ≡ some (some job)
        → (plan metas cfg levels ≡ some (some job) → IsClosed metas job)
        → IsClosed metas job
    step none q h rest = absurd (no_job h)
    step (some none) q h rest = rest h
    step (some (some j)) q h rest = plan_for_level-IsClosed metas leveled cfg level job l (q ∙ h)
