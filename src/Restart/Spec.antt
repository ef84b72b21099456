-- ===== src/Restart/Spec.antt =====
-- What the operations of a log say to a client, without memtable or keys.
use zydecodb.Prelude.{
  ℕ, ◌≤◌, ◌<◌, ◌≢◌, not, Bool, Option, none, some, List, [], ◌∷◌, ltb, ◌==◌, ◌&&◌, if◌then◌else◌,
  All,
}
use zydecodb.Prelude.Bytes.{Bytes}
use zydecodb.Keys.{max_seq}
use zydecodb.Memtable.{bytes_eq}
use zydecodb.Wal.{WalOp, WalEntry, single, batch, wal_del, seq_of}

-- The operations of an entry.
abbrev pub ops_of : WalEntry → List WalOp
ops_of (single r) =
    record { command = r.command; expires_at = r.expires_at; key = r.key; value = r.value } ∷ []
ops_of (batch b) = b.ops

-- What a client reads after an operation: the value with its seq, and nothing after a deletion or past
-- the expiry, where 0 is no expiry.
abbrev pub outcome : ℕ → ℕ → WalOp → Option (Bytes × ℕ)
outcome now seq op =
    if op.command == wal_del
    then none
    else if ltb 0 op.expires_at && ltb op.expires_at now
    then none
    else some (op.value, seq)

-- The last operation on a key decides; where there is none, what was read before.
abbrev pub last_op : ℕ → Bytes → ℕ → List WalOp → Option (Bytes × ℕ) → Option (Bytes × ℕ)
last_op now uk seq [] before = before
last_op now uk seq (op ∷ ops) before =
    last_op now uk seq ops (if bytes_eq op.key uk then outcome now seq op else before)

-- The entries that count: above a floor, and not above a ceiling.
abbrev pub is_counted : ℕ → Option ℕ → ℕ → Bool
is_counted floor none seq = ltb floor seq
is_counted floor (some ceiling) seq = ltb floor seq && not (ltb ceiling seq)

abbrev pub last_write :
    ℕ → Bytes → ℕ → Option ℕ → List WalEntry → Option (Bytes × ℕ) → Option (Bytes × ℕ)
last_write now uk floor ceiling [] before = before
last_write now uk floor ceiling (rec ∷ records) before = last_write now uk floor ceiling records (
    if is_counted floor ceiling (seq_of rec)
    then last_op now uk (seq_of rec) (ops_of rec) before
    else before)

-- Distinct keys, as the writer of a batch demands.
abbrev pub HasDistinctKeys : List WalOp → Type 0
HasDistinctKeys [] = Unit
HasDistinctKeys (op ∷ ops) = All (λ (o : WalOp). o.key ≢ op.key) ops × HasDistinctKeys ops

-- The seqs grow from entry to entry, above a seq, and fit a u64.
abbrev pub IsLog : ℕ → List WalEntry → Type 0
IsLog seq [] = Unit
IsLog seq (rec ∷ records) =
    (seq < seq_of rec)
    × (seq_of rec ≤ max_seq)
    × HasDistinctKeys (ops_of rec)
    × IsLog (seq_of rec) records
