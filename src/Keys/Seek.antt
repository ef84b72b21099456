-- ===== src/Keys/Seek.antt =====
-- The seek bound `(user_key, u64::MAX, Value)` of the read path.
use Prim.Native.Nat.Ordering.{lt, gt}
use zydecodb.Prelude.{◌≤◌, ◌≡◌, ◌≢◌, ◌↔◌, arith}
use zydecodb.Prelude.Bytes.{Bytes, cmp_bytes, cmp_bytes-IsTotal}
use zydecodb.Keys.{value, max_seq, kind_as_u8, InternalKey, cmp_key}

-- `InternalKey::new(user_key, u64::MAX, EntryKind::Value)`.
abbrev pub seek_bound : Bytes → InternalKey
seek_bound uk = record { user_key = uk; seq = max_seq; kind = value }

-- A key lies at or after the seek bound of `uk` exactly when its user key is not below `uk`: no
-- version of `uk` is missed, whatever its seq and kind, and no version of a smaller key is met.
pub seek_exact :
    (uk : Bytes) (k : InternalKey)
    → k.seq ≤ max_seq
    → (cmp_key (seek_bound uk) k ≢ gt) ↔ (cmp_bytes uk k.user_key ≢ gt)
unfolding cmp_key kind_as_u8
seek_exact uk k h = ground arith

-- Of two versions of one user key the one with the greater seq comes first.
pub newer_first : (a b : InternalKey) → a.user_key ≡ b.user_key → (cmp_key a b ≡ lt) → b.seq ≤ a.seq
unfolding cmp_key
newer_first a b e h = ground (arith, cmp_bytes-IsTotal.self b.user_key)
