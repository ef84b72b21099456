-- ===== src/Quota/Stored.antt =====
-- The bytes that a tenant has stored: the specification of the usage counters. A store is the list
-- of its keys with the lengths of their values.
use zydecodb.Prelude.{
  ℕ, ◌+◌, ◌≡◌, ap, Bool, true, false, Option, none, some, List, [], ◌∷◌, arith, if◌then◌else◌,
}
use zydecodb.Prelude.Bytes.{Bytes, cmp_bytes-IsTotal}
use zydecodb.Memtable.{bytes_eq}
use zydecodb.Quota.{tenant_from_key, freed}

unfoldable pub is_of : Bytes → Bytes → Bool
unfolding tenant_from_key
is_of t k = elim (tenant_from_key k) [ none ↦ false | some u ↦ bytes_eq u t ]

abbrev pub counted : Bool → ℕ → ℕ
counted b n = if b then n else 0

-- The sum of the lengths of the values of a tenant.
unfoldable pub stored : Bytes → List (Bytes × ℕ) → ℕ
unfolding is_of
stored t [] = 0
stored t ((k, n) ∷ s) = counted (is_of t k) n + stored t s

-- The length of the value of a key.
unfoldable pub lookup : Bytes → List (Bytes × ℕ) → Option ℕ
lookup k [] = none
lookup k ((j, n) ∷ s) = let rest = lookup k s in if bytes_eq j k then some n else rest

unfoldable pub put_value : Bytes → ℕ → List (Bytes × ℕ) → List (Bytes × ℕ)
put_value k v [] = (k, v) ∷ []
put_value k v ((j, n) ∷ s) =
    let rest = put_value k v s in if bytes_eq j k then (k, v) ∷ s else (j, n) ∷ rest

unfoldable pub erase_value : Bytes → List (Bytes × ℕ) → List (Bytes × ℕ)
erase_value k [] = []
erase_value k ((j, n) ∷ s) = let rest = erase_value k s in if bytes_eq j k then s else (j, n) ∷ rest

pub bytes_eq→≡ : (a b : Bytes) → bytes_eq a b ≡ true → a ≡ b
bytes_eq→≡ a b h = cmp_bytes-IsTotal.same a b (ground arith)

same_tenant : (t j k : Bytes) → bytes_eq j k ≡ true → is_of t j ≡ is_of t k
same_tenant t j k h = ap (is_of t) (bytes_eq→≡ j k h)

-- A write adds the new length and takes the old one away.
pub stored-put_value :
    (t k : Bytes) (v : ℕ) (s : List (Bytes × ℕ))
    → stored t (put_value k v s) + counted (is_of t k) (freed (lookup k s))
      ≡ stored t s + counted (is_of t k) v
unfolding stored put_value lookup
stored-put_value t k v [] = ground arith
stored-put_value t k v ((j, n) ∷ s) = ground (arith, stored-put_value t k v s, same_tenant t j k)

pub stored-erase_value :
    (t k : Bytes) (s : List (Bytes × ℕ))
    → stored t (erase_value k s) + counted (is_of t k) (freed (lookup k s)) ≡ stored t s
unfolding stored erase_value lookup
stored-erase_value t k [] = ground arith
stored-erase_value t k ((j, n) ∷ s) = ground (arith, stored-erase_value t k s, same_tenant t j k)
