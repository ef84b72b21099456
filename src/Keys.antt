-- ===== src/Keys.antt =====
-- crates/zydecodb-engine/src/keys.rs: the internal key with its order, the keyspaces, and the
-- checks that a write makes of its key and value.
pub mod Order
pub mod Seek
pub mod Valid
mod Tests
use Prim.Native.Nat.Ordering.{lt, eq, gt}
use zydecodb.Prelude.{
  ℕ, zero, suc, ◌+◌, ◌*◌, ◌^◌, ◌-◌, ◌≤◌, Ordering, compare, Bool, true, false, Option, none, some,
  List, [], ◌∷◌, length, ◌==◌, ltb, if◌then◌else◌,
}
use zydecodb.Prelude.Bytes.{Bytes, cmp_bytes}
use zydecodb.Prelude.Order.{then_with}
use zydecodb.Errors.{EngineResult, ok, err, bad_key, bad_value}

abbrev pub ks_system : ℕ
ks_system = 0x00

abbrev pub ks_user : ℕ
ks_user = 0x01

abbrev pub max_key_bytes : ℕ
max_key_bytes = 64 * 1024

abbrev pub max_value_bytes : ℕ
max_value_bytes = 16 * 1024 * 1024

-- `u64::MAX`.
abbrev pub max_seq : ℕ
max_seq = 2 ^ 64 - 1

-- `enum EntryKind`.
pub data EntryKind : Type 0 where
  value tombstone : EntryKind

-- `EntryKind::as_u8`.
unfoldable pub kind_as_u8 : EntryKind → ℕ
kind_as_u8 value = 0x01
kind_as_u8 tombstone = 0x02

-- `EntryKind::from_u8`.
unfoldable pub kind_from_u8 : ℕ → Option EntryKind
kind_from_u8 b = if b == 0x01 then some value else if b == 0x02 then some tombstone else none

-- `struct InternalKey`; a `seq` is a `u64`.
pub record InternalKey : Type 0 where
  pub user_key : Bytes
  pub seq : ℕ
  pub kind : EntryKind

-- `InternalKey::keyspace`.
unfoldable pub keyspace : InternalKey → Option ℕ
keyspace k = elim k.user_key [ [] ↦ none | b ∷ rest ↦ some b ]

-- `<InternalKey as Ord>::cmp`: user key ascending, then seq descending, then kind.
unfoldable pub cmp_key : InternalKey → InternalKey → Ordering
unfolding kind_as_u8
cmp_key a b =
    then_with (cmp_bytes a.user_key b.user_key)
      (then_with (compare b.seq a.seq) (compare (kind_as_u8 a.kind) (kind_as_u8 b.kind)))

-- `validate_user_key`.
unfoldable pub validate_user_key : Bytes → EngineResult (Unit {0})
validate_user_key [] = err (bad_key "empty key")
validate_user_key (b ∷ rest) =
    if ltb max_key_bytes (length (b ∷ rest))
    then err (bad_key "key length exceeds MAX_KEY_BYTES")
    else if b == ks_user
    then ok tt
    else err (bad_key "reserved keyspace")

-- `validate_system_key`.
unfoldable pub validate_system_key : Bytes → EngineResult (Unit {0})
validate_system_key [] = err (bad_key "empty system key")
validate_system_key (b ∷ rest) =
    if ltb max_key_bytes (length (b ∷ rest))
    then err (bad_key "system key length exceeds MAX_KEY_BYTES")
    else if b == ks_system
    then ok tt
    else err (bad_key "not a system key")

-- `validate_value`.
unfoldable pub validate_value : Bytes → EngineResult (Unit {0})
validate_value v =
    if ltb max_value_bytes (length v)
    then err (bad_value "value length exceeds MAX_VALUE_BYTES")
    else ok tt
