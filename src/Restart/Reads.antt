-- ===== src/Restart/Reads.antt =====
-- What a read finds after the replay of crates/zydecodb-engine/src/engine/open.rs.
use zydecodb.Prelude.{
  ℕ, ◌≤◌, ◌<◌, ◌≡◌, refl, sym, subst, ap, ◌∙◌, inl, inr, not, max, Bool, if◌then◌else◌, Option,
  none, some, List, [], ◌∷◌, arith, Bool-cases, All,
}
use zydecodb.Prelude.Bytes.{Bytes}
use zydecodb.Prelude.SortedMap.{All-imp, seek}
use zydecodb.Memtable.{Memtable, Pair, new}
use zydecodb.Memtable.Valid.{IsValid, new-IsValid}
use zydecodb.Wal.{WalOp, WalEntry, seq_of}
use zydecodb.Restart.{ReplayState, is_skipped, replay_records, read_latest}
use zydecodb.Restart.Spec.{ops_of, last_op, last_write, is_counted, IsLog}
use zydecodb.Restart.Ops.{
  pairs-ops_of, IsFreshFor, after_ops, after_ops-IsValid, after_ops-seqs, after_ops-max_seq_seen,
  read-after_ops,
}

old_enough :
    (n seq : ℕ) (ops : List WalOp) (m : Memtable)
    → n < seq
    → All (λ (p : Pair). p.0.seq ≤ n) m.map
    → IsFreshFor seq ops m
old_enough n seq [] m h a = tt
old_enough n seq (op ∷ ops) m h a = (
  All-imp (λ (p : Pair). p.0.seq ≤ n) (λ (p : Pair). p.0.user_key ≡ op.key → p.0.seq < seq) m.map
      (λ p le _. omega (arith, le, h)) a,
  old_enough n seq ops m h a,
)

-- The versions that are there are at most the greatest seq that was seen.
abbrev pub IsSeen : ReplayState → Type 0
IsSeen st = All (λ (p : Pair). p.0.seq ≤ st.max_seq_seen) st.active.map

counted_eq :
    (floor : ℕ) (ceiling : Option ℕ) (seq : ℕ)
    → is_counted floor ceiling seq ≡ not (is_skipped floor ceiling seq)
counted_eq floor none seq = ground arith
counted_eq floor (some ceiling) seq = ground arith

module _ (now : ℕ) (uk : Bytes) (floor : ℕ) (ceiling : Option ℕ) where
  replay_from :
      (n : ℕ) (records : List WalEntry) (st : ReplayState)
      → IsLog n records
      → IsValid st.active
      → All (λ (p : Pair). p.0.seq ≤ n) st.active.map
      → IsSeen st
      → (read_latest now uk (replay_records floor ceiling records st).active
          ≡ last_write now uk floor ceiling records (read_latest now uk st.active))
        × IsValid (replay_records floor ceiling records st).active
        × IsSeen (replay_records floor ceiling records st)
  unfolding replay_records
  replay_from n [] st log v a seen = (refl, v, seen)
  replay_from n (rec ∷ records) st log v a seen =
      elim (Bool-cases (is_skipped floor ceiling (seq_of rec))) [
        | inl t ↦
            let rest =
              replay_from (seq_of rec) records st log.3 v
                (All-imp (λ (p : Pair). p.0.seq ≤ n) (λ (p : Pair). p.0.seq ≤ seq_of rec)
                  st.active.map (λ p h. omega (arith, h, log.0)) a)
                seen in
            rw (replay_records, t)
              (
                rest.0 ∙ ap say (sym (counted_eq floor ceiling (seq_of rec) ∙ ap not t)),
                rest.1,
                rest.2,
              )
        | inr f ↦
            let rest =
              replay_from (seq_of rec) records (after_ops (seq_of rec) (ops_of rec) marked) log.3
                (after_ops-IsValid (seq_of rec) (ops_of rec) marked log.1 v)
                (after_ops-seqs (seq_of rec) (seq_of rec) (ops_of rec) marked (omega arith) (
                  All-imp (λ (p : Pair). p.0.seq ≤ n) (λ (p : Pair). p.0.seq ≤ seq_of rec)
                    st.active.map (λ p h. omega (arith, h, log.0)) a))
                still_seen in
            rw (replay_records, f, pairs-ops_of rec)
              (
                rest.0
                    ∙ ap (last_write now uk floor ceiling records) (
                        read-after_ops now uk (seq_of rec) (ops_of rec) marked log.1 v log.2
                          (old_enough n (seq_of rec) (ops_of rec) st.active log.0 a))
                    ∙ ap say (sym (counted_eq floor ceiling (seq_of rec) ∙ ap not f)),
                rest.1,
                rest.2,
              )
      ]
    where
      -- What is read, by whether the entry counts.
      say : Bool → Option (Bytes × ℕ)
      say b =
          let before = read_latest now uk st.active in
          last_write now uk floor ceiling records
            (if b then last_op now uk (seq_of rec) (ops_of rec) before else before)

      top : ℕ
      top = max st.max_seq_seen (seq_of rec)

      marked : ReplayState
      marked = record st { max_seq_seen = top }

      still_seen : IsSeen (after_ops (seq_of rec) (ops_of rec) marked)
      still_seen =
          subst
            (λ b.
              All (λ (p : Pair). p.0.seq ≤ b)
                (after_ops (seq_of rec) (ops_of rec) marked).active.map)
            (sym (after_ops-max_seq_seen (seq_of rec) (ops_of rec) marked))
            (after_ops-seqs (seq_of rec) top (ops_of rec) marked (omega arith) (
              All-imp (λ (p : Pair). p.0.seq ≤ st.max_seq_seen) (λ (p : Pair). p.0.seq ≤ top)
                st.active.map (λ p h. omega (arith, h)) seen))

-- After the replay of a log into an empty memtable, a read of any key finds what the last operation
-- on the key says, of the entries above the greatest seq of the tables and not above the ceiling:
-- the value with the seq of its entry, nothing after a deletion or past its expiry, and nothing
-- where no such entry has the key. Moreover no version has a seq above the greatest that was seen,
-- so the next write is newer. The seqs of the log grow and fit a u64, and the keys of a batch are
-- distinct.
pub read-replay_records :
    (now : ℕ) (uk : Bytes) (floor : ℕ) (ceiling : Option ℕ) (records : List WalEntry) (seen : ℕ)
    → IsLog 0 records
    → (read_latest now uk
          (replay_records floor ceiling records
            (record { active = new; max_seq_seen = seen; replayed = 0 })).active
        ≡ last_write now uk floor ceiling records none)
      × IsSeen (
          replay_records floor ceiling records
            (record { active = new; max_seq_seen = seen; replayed = 0 }))
unfolding read_latest seek
read-replay_records now uk floor ceiling records seen log =
    let start : ReplayState = record { active = new; max_seq_seen = seen; replayed = 0 } in
    let (reads, valid, below) =
      replay_from now uk floor ceiling 0 records start log new-IsValid tt tt in
    (reads, below)
