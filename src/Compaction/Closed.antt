-- ===== src/Compaction/Closed.antt =====
-- The jobs that the planner of crates/zydecodb-engine/src/compaction.rs makes keep the levels apart.
use zydecodb.Prelude.{
  ℕ, zero, suc, ◌+◌, ◌-◌, ◌≤◌, ◌≡◌, ◌≢◌, ◌⊎◌, sym, subst, ap, ◌∙◌, inl, inr, true, false, some,
  List, ◌++◌, arith, Bool-cases, All,
}
use zydecodb.Prelude.Bytes.{Bytes}
use zydecodb.Prelude.SortedMap.{Has, All-Has}
use zydecodb.Manifest.{SstableMeta}
use zydecodb.Compaction.Levels.{
  CompactionConfig, CompactionJob, bytes_lt, overlaps, key_span, at_level, overlapping, others,
}
use zydecodb.Compaction.Planner.{ids_of, base_from, base_level, promote, gc_inputs}
use zydecodb.Compaction.Ranges.{
  bytes_lt_le, bytes_le_lt, bytes_lt_irrefl, bytes_lt_trans, IsBefore, IsWithin, key_span-IsWithin,
  Has-at_level, at_level-Has, Has-overlapping, overlapping-Has, Has-others, others-Has, Has-ids_of,
  Has-append, append-Has,
}

-- The tables have ids of their own and a range that is not empty, and above level 0 the tables of a
-- level are apart.
pub record IsLeveled (metas : List SstableMeta) : Type 0 where
  pub ranges : All (λ (m : SstableMeta). bytes_lt m.max_key m.min_key ≡ false) metas
  pub distinct : (m n : SstableMeta) → Has m metas → Has n metas → m.id ≡ n.id → m ≡ n
  pub apart :
      (m n : SstableMeta)
      → Has m metas
      → Has n metas
      → m.level ≡ n.level
      → 1 ≤ n.level
      → m.id ≢ n.id
      → IsBefore m n ⊎ IsBefore n m

-- All the inputs of a job lie behind a table, or all of them before it.
abbrev pub IsBeside : List SstableMeta → List ℕ → SstableMeta → Type 0
IsBeside metas inputs m =
    ((n : SstableMeta) → Has n metas → Has n.id inputs → IsBefore m n)
    ⊎ ((n : SstableMeta) → Has n metas → Has n.id inputs → IsBefore n m)

-- Every table that a job leaves at its output level lies beside its inputs.
abbrev pub IsClosed : List SstableMeta → CompactionJob → Type 0
IsClosed metas job =
    (m : SstableMeta)
    → Has m metas
    → m.level ≡ job.output_level
    → ¬ (Has m.id job.inputs)
    → IsBeside metas job.inputs m

module _ (metas : List SstableMeta) (leveled : IsLeveled metas) where
  IsBeside-overlaps :
      (lo hi : Bytes) (inputs : List ℕ) (level : ℕ) (m : SstableMeta)
      → 1 ≤ level
      → ((n : SstableMeta)
          → Has n metas
          → Has n.id inputs
          → IsWithin lo hi n ⊎ ((n.level ≡ level) × (overlaps n.min_key n.max_key lo hi ≡ true)))
      → Has m metas
      → m.level ≡ level
      → ¬ (Has m.id inputs)
      → overlaps m.min_key m.max_key lo hi ≡ false
      → IsBeside metas inputs m
  unfolding overlaps
  IsBeside-overlaps lo hi inputs level m l each hm e out o =
      elim (Bool-cases (bytes_lt m.max_key lo)) [
        | inl below ↦ inl (λ n hn hi_n. before below n hn hi_n (each n hn hi_n))
        | inr f ↦
            let above : bytes_lt hi m.min_key ≡ true = ground (arith, o, f) in
            inr (λ n hn hi_n. after above n hn hi_n (each n hn hi_n))
      ]
    where
      range : bytes_lt m.max_key m.min_key ≡ false
      range =
          All-Has (λ (x : SstableMeta). bytes_lt x.max_key x.min_key ≡ false) m metas leveled.ranges
            hm

      other : (n : SstableMeta) → Has n.id inputs → n.id ≢ m.id
      other n h q = out (subst (λ i. Has i inputs) q h)

      before :
          bytes_lt m.max_key lo ≡ true
          → (n : SstableMeta) → Has n metas
          → Has n.id inputs
          → IsWithin lo hi n ⊎ ((n.level ≡ level) × (overlaps n.min_key n.max_key lo hi ≡ true))
          → IsBefore m n
      before below n hn hi_n (inl w) = bytes_lt_le m.max_key lo n.min_key below w.0
      before below n hn hi_n (inr (q, v)) =
          elim (leveled.apart n m hn hm (q ∙ sym e) (omega (arith, e, l)) (other n hi_n)) [
            | inl nm ↦
                let far : bytes_lt n.max_key lo ≡ true =
                  bytes_lt_trans n.max_key m.max_key lo
                    (bytes_lt_le n.max_key m.min_key m.max_key nm range) below in
                ground (arith, v, far)
            | inr mn ↦ mn
          ]

      after :
          bytes_lt hi m.min_key ≡ true
          → (n : SstableMeta) → Has n metas
          → Has n.id inputs
          → IsWithin lo hi n ⊎ ((n.level ≡ level) × (overlaps n.min_key n.max_key lo hi ≡ true))
          → IsBefore n m
      after above n hn hi_n (inl w) = bytes_le_lt n.max_key hi m.min_key w.1 above
      after above n hn hi_n (inr (q, v)) =
          elim (leveled.apart n m hn hm (q ∙ sym e) (omega (arith, e, l)) (other n hi_n)) [
            | inl nm ↦ nm
            | inr mn ↦
                let far : bytes_lt hi n.min_key ≡ true =
                  bytes_lt_trans hi m.min_key n.min_key above
                    (bytes_le_lt m.min_key m.max_key n.min_key range mn) in
                ground (arith, v, far)
          ]

  -- A table that is picked for a level, by its id.
  picked :
      (lo hi : Bytes) (level : ℕ) (n : SstableMeta)
      → Has n metas
      → Has n.id (overlapping lo hi (at_level level metas))
      → (n.level ≡ level) × (overlaps n.min_key n.max_key lo hi ≡ true)
  picked lo hi level n hn h =
      let (k, hk, o, q) = Has-overlapping lo hi (at_level level metas) n.id h in
      let (j, e) = Has-at_level level metas k hk in
      let same = leveled.distinct n k hn j q in
      (
        ap (λ (x : SstableMeta). x.level) same ∙ e,
        ap (λ (x : SstableMeta). overlaps x.min_key x.max_key lo hi) same ∙ o,
      )

  left_apart :
      (lo hi : Bytes) (level : ℕ) (m : SstableMeta)
      → Has m metas
      → m.level ≡ level
      → ¬ (Has m.id (overlapping lo hi (at_level level metas)))
      → overlaps m.min_key m.max_key lo hi ≡ false
  left_apart lo hi level m hm e out = elim (Bool-cases (overlaps m.min_key m.max_key lo hi)) [
    | inl s ↦
        absurd
          (out (overlapping-Has lo hi (at_level level metas) m (at_level-Has level metas m hm e) s))
    | inr f ↦ f
  ]

  pub promote-IsClosed :
      (cfg : CompactionConfig) (level : ℕ) (o : SstableMeta)
      → Has o metas
      → IsClosed metas (promote metas cfg level o)
  unfolding promote
  promote-IsClosed cfg level o ho m hm e out =
      IsBeside-overlaps o.min_key o.max_key (promote metas cfg level o).inputs (level + 1) m
        (omega arith) each hm e out
        (left_apart o.min_key o.max_key (level + 1) m hm e (λ h. out (inr h)))
    where
      each :
          (n : SstableMeta)
          → Has n metas
          → Has n.id (promote metas cfg level o).inputs
          → IsWithin o.min_key o.max_key n
            ⊎ ((n.level ≡ level + 1) × (overlaps n.min_key n.max_key o.min_key o.max_key ≡ true))
      each n hn (inl q) = inl (
          subst (IsWithin o.min_key o.max_key) (sym (leveled.distinct n o hn ho q))
            (bytes_lt_irrefl o.min_key, bytes_lt_irrefl o.max_key))
      each n hn (inr h) = inr (picked o.min_key o.max_key (level + 1) n hn h)

  pub gc-IsClosed :
      (cfg : CompactionConfig) (o : SstableMeta)
      → 1 ≤ cfg.max_level
      → Has o (at_level cfg.max_level metas)
      → (job : CompactionJob) → job.inputs ≡ gc_inputs metas cfg o
      → job.output_level ≡ cfg.max_level
      → IsClosed metas job
  unfolding gc_inputs
  gc-IsClosed cfg o l ho job qi ql m hm e out =
      subst (λ is. IsBeside metas is m) (sym qi)
        (IsBeside-overlaps o.min_key o.max_key (gc_inputs metas cfg o) cfg.max_level m l each hm
          (e ∙ ql) (λ h. out (subst (Has m.id) (sym qi) h))
          (apart_from (λ h. out (subst (Has m.id) (sym qi) h))))
    where
      rest : List SstableMeta
      rest = others o.id (at_level cfg.max_level metas)

      each :
          (n : SstableMeta)
          → Has n metas
          → Has n.id (gc_inputs metas cfg o)
          → IsWithin o.min_key o.max_key n
            ⊎ ((n.level ≡ cfg.max_level)
                × (overlaps n.min_key n.max_key o.min_key o.max_key ≡ true))
      each n hn (inl q) = inl (
          subst (IsWithin o.min_key o.max_key)
            (sym (leveled.distinct n o hn (Has-at_level cfg.max_level metas o ho).0 q))
            (bytes_lt_irrefl o.min_key, bytes_lt_irrefl o.max_key))
      each n hn (inr h) =
          let (k, hk, v, q) = Has-overlapping o.min_key o.max_key rest n.id h in
          let (j, f) =
            Has-at_level cfg.max_level metas k
              (Has-others o.id (at_level cfg.max_level metas) k hk) in
          let same = leveled.distinct n k hn j q in
          inr (
            ap (λ (x : SstableMeta). x.level) same ∙ f,
            ap (λ (x : SstableMeta). overlaps x.min_key x.max_key o.min_key o.max_key) same ∙ v,
          )

      apart_from :
          ¬ (Has m.id (gc_inputs metas cfg o))
          → overlaps m.min_key m.max_key o.min_key o.max_key ≡ false
      apart_from away = elim (Bool-cases (overlaps m.min_key m.max_key o.min_key o.max_key)) [
        | inl s ↦
            let there =
              others-Has o.id (at_level cfg.max_level metas) m
                (at_level-Has cfg.max_level metas m hm (e ∙ ql)) (λ q. away (inl q)) in
            absurd (away (inr (overlapping-Has o.min_key o.max_key rest m there s)))
        | inr f ↦ f
      ]

  base_from_positive :
      (cfg : CompactionConfig) (n level : ℕ)
      → 1 ≤ cfg.max_level
      → 1 ≤ level
      → 1 ≤ base_from metas cfg n level
  unfolding base_from
  base_from_positive cfg zero level h l = h
  base_from_positive cfg (suc n) level h l =
      ground (arith, l, base_from_positive cfg n (level + 1) h (omega (arith, l)))

  pub l0-IsClosed :
      (cfg : CompactionConfig) (lo hi : Bytes) (job : CompactionJob)
      → 1 ≤ cfg.max_level
      → key_span (at_level 0 metas) ≡ some (lo, hi)
      → job.inputs
        ≡ ids_of (at_level 0 metas) ++ overlapping lo hi (at_level (base_level metas cfg) metas)
      → job.output_level ≡ base_level metas cfg
      → IsClosed metas job
  unfolding base_level
  l0-IsClosed cfg lo hi job l span qi ql m hm e out =
      subst (λ is. IsBeside metas is m) (sym qi)
        (IsBeside-overlaps lo hi inputs (base_level metas cfg) m
          (base_from_positive cfg (cfg.max_level - 1) 1 l (omega arith)) each hm (e ∙ ql) away
          (left_apart lo hi (base_level metas cfg) m hm (e ∙ ql)
            (λ h. away (append-Has (ids_of (at_level 0 metas)) picks m.id h))))
    where
      picks : List ℕ
      picks = overlapping lo hi (at_level (base_level metas cfg) metas)

      inputs : List ℕ
      inputs = ids_of (at_level 0 metas) ++ picks

      away : ¬ (Has m.id inputs)
      away h = out (subst (Has m.id) (sym qi) h)

      each :
          (n : SstableMeta)
          → Has n metas
          → Has n.id inputs
          → IsWithin lo hi n
            ⊎ ((n.level ≡ base_level metas cfg) × (overlaps n.min_key n.max_key lo hi ≡ true))
      each n hn h = elim (Has-append (ids_of (at_level 0 metas)) picks n.id h) [
        | inl i ↦
            let (k, hk, q) = Has-ids_of (at_level 0 metas) n.id i in
            let same = leveled.distinct n k hn (Has-at_level 0 metas k hk).0 q in
            inl (
              subst (IsWithin lo hi) (sym same)
                (key_span-IsWithin (at_level 0 metas) lo hi span k hk))
        | inr i ↦ inr (picked lo hi (base_level metas cfg) n hn i)
      ]
