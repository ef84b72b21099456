-- ===== src/Compaction/LevelTests.antt =====
-- Compactions that are planned over a few tables.
use zydecodb.Prelude.{ℕ, ◌≡◌, ◌⊎◌, refl, ap, inl, inr, true, some, List, [], ◌∷◌, arith}
use zydecodb.Prelude.Bytes.{cmp_bytes}
use zydecodb.Prelude.SortedMap.{Has}
use zydecodb.Manifest.{SstableMeta}
use zydecodb.Compaction.Levels.{CompactionConfig, CompactionJob}
use zydecodb.Compaction.Planner.{plan}
use zydecodb.Compaction.Closed.{IsLeveled, IsBeside}
use zydecodb.Compaction.Jobs.{plan-IsClosed}

abbrev table : ℕ → ℕ → ℕ → ℕ → ℕ → SstableMeta
table id level first last size = record {
  id = id;
  level = level;
  min_key = 1 ∷ first ∷ [];
  max_key = 1 ∷ last ∷ [];
  min_seq = id;
  max_seq = id;
  size_bytes = size;
}

abbrev small_levels : CompactionConfig
small_levels = record {
  l0_trigger = 1;
  level_size_multiplier = 10;
  l1_target_bytes = 100;
  target_file_bytes = 50;
  max_level = 2;
  soft_pending_compaction_bytes = 1000;
  hard_pending_compaction_bytes = 2000;
  l2_gc_min_reclaim_bytes = 10;
  optimize_filters_for_hits = true;
}

abbrev fresh_table : SstableMeta
fresh_table = table 3 0 b'a' b'b' 5

abbrev old_table : SstableMeta
old_table = table 1 1 b'a' b'a' 50

abbrev bottom_table : SstableMeta
bottom_table = table 2 2 b'y' b'z' 20

abbrev three_tables : List SstableMeta
three_tables = fresh_table ∷ old_table ∷ bottom_table ∷ []

abbrev skipping : CompactionJob
skipping = record { inputs = 3 ∷ []; input_level = 0; output_level = 2 }

-- The bottom level is so small that level 1 has no target, and the table of level 0 goes to level 2,
-- past the table of level 1 that holds an older version of the same key.
level_skipped : plan three_tables small_levels (0 ∷ []) ≡ some (some skipping)
unfolding plan cmp_bytes
level_skipped = refl

facts :
    (m : SstableMeta)
    → Has m three_tables
    → ((m.id ≡ 3) × (m.level ≡ 0) × (m ≡ fresh_table))
      ⊎ (((m.id ≡ 1) × (m.level ≡ 1) × (m ≡ old_table))
          ⊎ ((m.id ≡ 2) × (m.level ≡ 2) × (m ≡ bottom_table)))
facts m (inl e) = inl (ap (λ (x : SstableMeta). x.id) e, ap (λ (x : SstableMeta). x.level) e, e)
facts m (inr (inl e)) =
    inr (inl (ap (λ (x : SstableMeta). x.id) e, ap (λ (x : SstableMeta). x.level) e, e))
facts m (inr (inr (inl e))) =
    inr (inr (ap (λ (x : SstableMeta). x.id) e, ap (λ (x : SstableMeta). x.level) e, e))
facts m (inr (inr (inr x))) = absurd x

same_table : (m n : SstableMeta) → Has m three_tables → Has n three_tables → m.id ≡ n.id → m ≡ n
same_table m n hm hn e = ground (arith, facts m hm, facts n hn, e)

three_tables-IsLeveled : IsLeveled three_tables
unfolding cmp_bytes
three_tables-IsLeveled = record {
  ranges = (refl, (refl, (refl, tt)));
  distinct = same_table;
  apart = λ m n hm hn e l d. absurd (d (ground (arith, facts m hm, facts n hn, e, l)));
}

plan-IsClosed_example : IsBeside three_tables (3 ∷ []) bottom_table
plan-IsClosed_example =
    plan-IsClosed three_tables small_levels (0 ∷ []) skipping three_tables-IsLeveled (omega arith)
      level_skipped bottom_table (inr (inr (inl refl))) refl (λ h. ground (arith, h))
