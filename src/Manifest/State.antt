-- ===== src/Manifest/State.antt =====
-- What the state behind a list of records says of the tables and of the sequence numbers.
use zydecodb.Prelude.{ℕ, ◌≤◌, ◌≡◌, ◌≢◌, ap, List, [], ◌∷◌, ◌++◌, All, arith, ◌⊎◌, ◌↔◌, max}
use zydecodb.Prelude.SortedMap.{Has, All-imp}
use zydecodb.Manifest.{
  SstableMeta, ManifestRecord, sstable_add, sstable_remove, seq_checkpoint, wal_truncate,
  ManifestState, no_state, apply, without,
}
use zydecodb.Manifest.Replay.{applied}

-- No record removes the table `id`.
abbrev pub NotRemoved : ℕ → List ManifestRecord → Type 0
NotRemoved id [] = Unit
NotRemoved id (sstable_add m ∷ rs) = NotRemoved id rs
NotRemoved id (sstable_remove n ∷ rs) = (id ≢ n) × NotRemoved id rs
NotRemoved id (seq_checkpoint n ∷ rs) = NotRemoved id rs
NotRemoved id (wal_truncate n ∷ rs) = NotRemoved id rs

-- A record adds the table, and none that follows removes it.
abbrev pub IsAlive : SstableMeta → List ManifestRecord → Type 0
IsAlive m [] = ⊥
IsAlive m (sstable_add m' ∷ rs) = ((m ≡ m') × NotRemoved m.id rs) ⊎ IsAlive m rs
IsAlive m (sstable_remove n ∷ rs) = IsAlive m rs
IsAlive m (seq_checkpoint n ∷ rs) = IsAlive m rs
IsAlive m (wal_truncate n ∷ rs) = IsAlive m rs

Has-append :
    (m m' : SstableMeta) (ms : List SstableMeta) → Has m (ms ++ (m' ∷ [])) ↔ (Has m ms ⊎ (m ≡ m'))
Has-append m m' [] = ground arith
Has-append m m' (x ∷ ms) = ground (arith, Has-append m m' ms)

Has-without :
    (m : SstableMeta) (id : ℕ) (ms : List SstableMeta)
    → Has m (without id ms) ↔ (Has m ms × (m.id ≢ id))
unfolding without
Has-without m id [] = ground arith
Has-without m id (x ∷ ms) =
    ground (arith, Has-without m id ms, ap (λ (y : SstableMeta). y.id) {x = m} {y = x})

live_exact_from :
    (m : SstableMeta) (s : ManifestState) (rs : List ManifestRecord)
    → Has m (applied s rs).live_sstables
      ↔ ((Has m s.live_sstables × NotRemoved m.id rs) ⊎ IsAlive m rs)
unfolding applied apply
live_exact_from m s [] = ground arith
live_exact_from m s (sstable_add m' ∷ rs) =
    ground (arith, live_exact_from m (apply s (sstable_add m')) rs, Has-append m m' s.live_sstables)
live_exact_from m s (sstable_remove n ∷ rs) =
    ground
      (arith, live_exact_from m (apply s (sstable_remove n)) rs, Has-without m n s.live_sstables)
live_exact_from m s (seq_checkpoint n ∷ rs) = live_exact_from m (apply s (seq_checkpoint n)) rs
live_exact_from m s (wal_truncate n ∷ rs) = live_exact_from m (apply s (wal_truncate n)) rs

-- The live tables behind a list of records are exactly those that a record adds and no later
-- record removes.
pub live_exact :
    (m : SstableMeta) (rs : List ManifestRecord)
    → Has m (applied no_state rs).live_sstables ↔ IsAlive m rs
live_exact m rs = ground (arith, live_exact_from m no_state rs)

abbrev pub Covers : ManifestState → Type 0
Covers s = All (λ m. m.max_seq ≤ s.last_durable_seq) s.live_sstables

All-append :
    (P : SstableMeta → Type 0) (m : SstableMeta) (ms : List SstableMeta)
    → All P ms
    → P m
    → All P (ms ++ (m ∷ []))
All-append P m [] a p = (p, tt)
All-append P m (x ∷ ms) a p = (a.0, All-append P m ms a.1 p)

All-without :
    (P : SstableMeta → Type 0) (id : ℕ) (ms : List SstableMeta) → All P ms → All P (without id ms)
unfolding without
All-without P id [] a = tt
All-without P id (x ∷ ms) a = ground (arith, All-without P id ms a.1)

higher :
    (a b : ℕ) (ms : List SstableMeta)
    → a ≤ b
    → All (λ m. m.max_seq ≤ a) ms
    → All (λ m. m.max_seq ≤ b) ms
higher a b ms h c = All-imp (λ m. m.max_seq ≤ a) (λ m. m.max_seq ≤ b) ms (λ m k. omega arith) c

apply-Covers : (s : ManifestState) (r : ManifestRecord) → Covers s → Covers (apply s r)
unfolding apply
apply-Covers s (sstable_add m) c =
    let d = max s.last_durable_seq m.max_seq in
    All-append (λ x. x.max_seq ≤ d) m s.live_sstables
      (higher s.last_durable_seq d s.live_sstables (omega arith) c) (omega arith)
apply-Covers s (sstable_remove n) c =
    All-without (λ x. x.max_seq ≤ s.last_durable_seq) n s.live_sstables c
apply-Covers s (seq_checkpoint n) c =
    higher s.last_durable_seq (max s.last_durable_seq n) s.live_sstables (omega arith) c
apply-Covers s (wal_truncate n) c = c

-- Each record keeps that the durable sequence number is at least the greatest one of every live
-- table, and neither the durable sequence number nor the truncated segment ever goes down.
pub apply_monotone :
    (s : ManifestState) (r : ManifestRecord)
    → Covers s
    → Covers (apply s r)
      × (s.last_durable_seq ≤ (apply s r).last_durable_seq)
      × (s.wal_truncated_up_to ≤ (apply s r).wal_truncated_up_to)
unfolding apply
apply_monotone s (sstable_add m) c = (apply-Covers s (sstable_add m) c, omega arith, omega arith)
apply_monotone s (sstable_remove n) c =
    (apply-Covers s (sstable_remove n) c, omega arith, omega arith)
apply_monotone s (seq_checkpoint n) c =
    (apply-Covers s (seq_checkpoint n) c, omega arith, omega arith)
apply_monotone s (wal_truncate n) c = (apply-Covers s (wal_truncate n) c, omega arith, omega arith)
