-- ===== src/Restart/Ops.antt =====
-- Reads after the pairs of one entry of the log are inserted.
use zydecodb.Prelude.{
  ℕ, ◌+◌, ◌≤◌, ◌<◌, ◌≡◌, ◌≢◌, refl, sym, subst, ap, ◌∙◌, inl, inr, true, false, some, List, [], ◌∷◌,
  map, arith, if◌then◌else◌, Bool-cases, All,
}
use zydecodb.Prelude.Bytes.{Bytes, cmp_bytes-IsTotal}
use zydecodb.Prelude.SortedMap.{insert-All, All-imp}
use zydecodb.Keys.{InternalKey, cmp_key, max_seq}
use zydecodb.Keys.Order.{cmp_key-IsTotal}
use zydecodb.Entry.{Entry, is_tombstone, is_expired}
use zydecodb.Memtable.{Memtable, Pair, bytes_eq, insert_entry, get_latest}
use zydecodb.Memtable.Newest.{bytes_eq→≡, get_latest-insert_entry}
use zydecodb.Memtable.Valid.{IsValid, insert_entry-IsValid}
use zydecodb.Compaction.Read.{resolve_entry}
use zydecodb.Wal.{
  WalOp, WalEntry, single, batch, seq_of, op_to_memtable_pair, to_memtable_pair,
  into_memtable_pairs,
}
use zydecodb.Restart.{ReplayState, insert_pairs, resolved, read_latest}
use zydecodb.Restart.Latest.{get_latest-insert_other}
use zydecodb.Restart.Spec.{ops_of, outcome, last_op, HasDistinctKeys}

pub pairs-ops_of :
    (rec : WalEntry) → into_memtable_pairs rec ≡ map (op_to_memtable_pair (seq_of rec)) (ops_of rec)
unfolding into_memtable_pairs to_memtable_pair op_to_memtable_pair seq_of
pairs-ops_of (single r) = refl
pairs-ops_of (batch b) = refl

user_key-pair : (seq : ℕ) (op : WalOp) → (op_to_memtable_pair seq op).0.user_key ≡ op.key
unfolding op_to_memtable_pair
user_key-pair seq op = ground arith

seq-pair : (seq : ℕ) (op : WalOp) → (op_to_memtable_pair seq op).0.seq ≡ seq
unfolding op_to_memtable_pair
seq-pair seq op = ground arith

resolve-pair :
    (now seq : ℕ) (op : WalOp)
    → resolve_entry (op_to_memtable_pair seq op).0 (op_to_memtable_pair seq op).1 now false
      ≡ outcome now seq op
unfolding resolve_entry op_to_memtable_pair is_tombstone is_expired
resolve-pair now seq op = ground arith

-- No version of the keys of the operations has their seq or a greater one.
abbrev pub IsFreshFor : ℕ → List WalOp → Memtable → Type 0
IsFreshFor seq ops m =
    All (λ (op : WalOp). All (λ (p : Pair). p.0.user_key ≡ op.key → p.0.seq < seq) m.map) ops

read-insert :
    (now : ℕ) (uk : Bytes) (seq : ℕ) (op : WalOp) (m : Memtable)
    → seq ≤ max_seq
    → IsValid m
    → All (λ (p : Pair). p.0.user_key ≡ op.key → p.0.seq < seq) m.map
    → read_latest now uk
        (insert_entry (op_to_memtable_pair seq op).0 (op_to_memtable_pair seq op).1 m)
      ≡ (if bytes_eq op.key uk then outcome now seq op else read_latest now uk m)
unfolding read_latest
read-insert now uk seq op m fits v fresh = elim (Bool-cases (bytes_eq op.key uk)) [
  | inl t ↦ rw t (
      ap (resolved now) (
        subst (λ u. get_latest u (insert_entry k e m) ≡ some (k, e))
          (user_key-pair seq op ∙ bytes_eq→≡ op.key uk t)
          (get_latest-insert_entry k e m (omega (arith, seq-pair seq op)) v newest))
      ∙ resolve-pair now seq op)
  | inr f ↦ rw f (
      ap (resolved now)
        (get_latest-insert_other uk k e m (omega (arith, seq-pair seq op)) (other f)))
]
  where
    k : InternalKey
    k = (op_to_memtable_pair seq op).0

    e : Entry
    e = (op_to_memtable_pair seq op).1

    newest : All (λ (p : Pair). p.0.user_key ≡ k.user_key → p.0.seq < k.seq) m.map
    newest =
        All-imp (λ (p : Pair). p.0.user_key ≡ op.key → p.0.seq < seq)
          (λ (p : Pair). p.0.user_key ≡ k.user_key → p.0.seq < k.seq) m.map
          (λ p h q.
            let below = h (q ∙ user_key-pair seq op) in omega (arith, below, seq-pair seq op))
          fresh

    self : bytes_eq op.key op.key ≡ true
    self = ground (arith, cmp_bytes-IsTotal.self op.key)

    other : bytes_eq op.key uk ≡ false → k.user_key ≢ uk
    other f q =
        let same : bytes_eq op.key uk ≡ true =
          subst (λ u. bytes_eq op.key u ≡ true) (sym (user_key-pair seq op) ∙ q) self in
        ground (arith, f, same)

fresh_after :
    (seq : ℕ) (op : WalOp) (ops : List WalOp) (m : Memtable)
    → All (λ (o : WalOp). o.key ≢ op.key) ops
    → IsFreshFor seq ops m
    → IsFreshFor seq ops
        (insert_entry (op_to_memtable_pair seq op).0 (op_to_memtable_pair seq op).1 m)
unfolding insert_entry
fresh_after seq op [] m d h = tt
fresh_after seq op (o ∷ ops) m d h = (
  insert-All cmp_key cmp_key-IsTotal (λ (p : Pair). p.0.user_key ≡ o.key → p.0.seq < seq)
      (op_to_memtable_pair seq op).0 (op_to_memtable_pair seq op).1 m.map
      (λ q. absurd (d.0 (sym q ∙ user_key-pair seq op))) h.0,
  fresh_after seq op ops m d.1 h.1,
)

insert_op-IsValid :
    (seq : ℕ) (op : WalOp) (m : Memtable)
    → seq ≤ max_seq
    → IsValid m
    → IsValid (insert_entry (op_to_memtable_pair seq op).0 (op_to_memtable_pair seq op).1 m)
insert_op-IsValid seq op m fits v =
    insert_entry-IsValid (op_to_memtable_pair seq op).0 (op_to_memtable_pair seq op).1 m
      (omega (arith, seq-pair seq op)) v

abbrev next_state : ℕ → WalOp → ReplayState → ReplayState
next_state seq op st = record st {
  active = insert_entry (op_to_memtable_pair seq op).0 (op_to_memtable_pair seq op).1 st.active;
  replayed = st.replayed + 1;
}

-- The loop over the pairs of the operations.
abbrev pub after_ops : ℕ → List WalOp → ReplayState → ReplayState
after_ops seq ops st = insert_pairs (map (op_to_memtable_pair seq) ops) st

pub after_ops-IsValid :
    (seq : ℕ) (ops : List WalOp) (st : ReplayState)
    → seq ≤ max_seq
    → IsValid st.active
    → IsValid (after_ops seq ops st).active
unfolding insert_pairs
after_ops-IsValid seq [] st fits v = v
after_ops-IsValid seq (op ∷ ops) st fits v =
    after_ops-IsValid seq ops (next_state seq op st) fits
      (insert_op-IsValid seq op st.active fits v)

pub after_ops-seqs :
    (seq n : ℕ) (ops : List WalOp) (st : ReplayState)
    → seq ≤ n
    → All (λ (p : Pair). p.0.seq ≤ n) st.active.map
    → All (λ (p : Pair). p.0.seq ≤ n) (after_ops seq ops st).active.map
unfolding insert_pairs insert_entry
after_ops-seqs seq n [] st h a = a
after_ops-seqs seq n (op ∷ ops) st h a = after_ops-seqs seq n ops (next_state seq op st) h (
    insert-All cmp_key cmp_key-IsTotal (λ (p : Pair). p.0.seq ≤ n) (op_to_memtable_pair seq op).0
      (op_to_memtable_pair seq op).1 st.active.map (omega (arith, seq-pair seq op)) a)

pub after_ops-max_seq_seen :
    (seq : ℕ) (ops : List WalOp) (st : ReplayState)
    → (after_ops seq ops st).max_seq_seen ≡ st.max_seq_seen
unfolding insert_pairs
after_ops-max_seq_seen seq [] st = refl
after_ops-max_seq_seen seq (op ∷ ops) st = after_ops-max_seq_seen seq ops (next_state seq op st)

pub read-after_ops :
    (now : ℕ) (uk : Bytes) (seq : ℕ) (ops : List WalOp) (st : ReplayState)
    → seq ≤ max_seq
    → IsValid st.active
    → HasDistinctKeys ops
    → IsFreshFor seq ops st.active
    → read_latest now uk (after_ops seq ops st).active
      ≡ last_op now uk seq ops (read_latest now uk st.active)
unfolding insert_pairs
read-after_ops now uk seq [] st fits v d h = refl
read-after_ops now uk seq (op ∷ ops) st fits v d h =
    read-after_ops now uk seq ops (next_state seq op st) fits
      (insert_op-IsValid seq op st.active fits v) d.1 (fresh_after seq op ops st.active d.0 h.1)
    ∙ ap (last_op now uk seq ops) (read-insert now uk seq op st.active fits v h.0)
