-- ===== src/Keys/Order.antt =====
-- The order of internal keys is a total order.

use zydecodb.Prelude.{ℕ, ◌≡◌, Ordering, compare, arith}
use zydecodb.Prelude.Bytes.{Bytes, cmp_bytes, cmp_bytes-IsTotal}
use zydecodb.Prelude.Order.{
  IsTotal, compare-IsTotal, on_key-IsTotal, reversed-IsTotal, cmp_pair, cmp_pair-IsTotal,
}
use zydecodb.Keys.{EntryKind, kind_as_u8, InternalKey, cmp_key}

kind_injective : (a b : EntryKind) → kind_as_u8 a ≡ kind_as_u8 b → a ≡ b
unfolding kind_as_u8
kind_injective a b h = ground arith

cmp_kind : EntryKind → EntryKind → Ordering
cmp_kind a b = compare (kind_as_u8 a) (kind_as_u8 b)

cmp_kind-IsTotal : IsTotal cmp_kind
unfolding cmp_kind
cmp_kind-IsTotal = on_key-IsTotal kind_as_u8 kind_injective compare-IsTotal

parts : InternalKey → Bytes × (ℕ × EntryKind)
parts k = (k.user_key, (k.seq, k.kind))

parts_injective : (a b : InternalKey) → parts a ≡ parts b → a ≡ b
unfolding parts
parts_injective a b h = ground arith

-- `cmp` of internal keys is a total order: it gives `Equal` at equal keys only, turning the
-- arguments round turns the result round, and `Less` is transitive.
pub cmp_key-IsTotal : IsTotal cmp_key
unfolding cmp_key cmp_kind parts
cmp_key-IsTotal = on_key-IsTotal parts parts_injective (
    cmp_pair-IsTotal cmp_bytes (cmp_pair (λ a b. compare b a) cmp_kind) cmp_bytes-IsTotal (
      cmp_pair-IsTotal (λ a b. compare b a) cmp_kind (reversed-IsTotal compare-IsTotal)
        cmp_kind-IsTotal))
