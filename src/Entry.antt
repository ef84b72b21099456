-- ===== src/Entry.antt =====
-- crates/zydecodb-engine/src/entry.rs: what is stored against an internal key.
use zydecodb.Prelude.{ℕ, Bool, true, false, Option, none, some, length, ◌==◌, ltb, if◌then◌else◌}
use zydecodb.Prelude.Bytes.{Bytes}

-- `struct Entry`: no value marks a tombstone; `expires_at` is in Unix milliseconds.
pub record Entry : Type 0 where
  pub value : Option Bytes
  pub expires_at : Option ℕ

-- `Entry::value`.
abbrev pub value : Bytes → Option ℕ → Entry
value v expires_at = record { value = some v; expires_at = expires_at }

-- `Entry::tombstone`.
abbrev pub tombstone : Entry
tombstone = record { value = none; expires_at = none }

-- `Entry::is_tombstone`.
unfoldable pub is_tombstone : Entry → Bool
is_tombstone e = elim e.value [ none ↦ true | some v ↦ false ]

-- `Entry::value_len`.
unfoldable pub value_len : Entry → ℕ
value_len e = elim e.value [ none ↦ 0 | some v ↦ length v ]

-- `Entry::is_expired`.
unfoldable pub is_expired : Entry → ℕ → Bool
is_expired e now_ms = elim e.expires_at [
  | none ↦ false
  | some ts ↦ if ts == 0 then false else ltb ts now_ms
]
