-- ===== src/Keys/Valid.antt =====
-- What the checks of keys and values accept.
use zydecodb.Prelude.{ℕ, ◌≤◌, ◌≡◌, ◌≢◌, ◌↔◌, [], ◌∷◌, length, arith}
use zydecodb.Prelude.Bytes.{Bytes}
use zydecodb.Errors.{ok}
use zydecodb.Keys.{ks_user, ks_system, max_key_bytes, validate_user_key, validate_system_key}

-- The key begins with the keyspace byte and fits the limit.
abbrev pub InKeyspace : ℕ → Bytes → Type 0
InKeyspace ks [] = ⊥
InKeyspace ks (b ∷ rest) = (b ≡ ks) × (length (b ∷ rest) ≤ max_key_bytes)

-- `validate_user_key` accepts exactly the keys of at most 64 KiB that begin with byte 1,
-- `validate_system_key` exactly those that begin with byte 0.
pub validate_exact :
    (k : Bytes)
    → ((validate_user_key k ≡ ok tt) ↔ InKeyspace ks_user k)
      × ((validate_system_key k ≡ ok tt) ↔ InKeyspace ks_system k)
unfolding validate_user_key validate_system_key
validate_exact [] = ((λ h. cc, λ h. absurd h), (λ h. cc, λ h. absurd h))
validate_exact (b ∷ rest) = ground arith

-- No key passes both checks: a user write never reaches the system keyspace.
pub keyspaces_disjoint : (k : Bytes) → validate_user_key k ≡ ok tt → validate_system_key k ≢ ok tt
unfolding validate_user_key validate_system_key
keyspaces_disjoint [] h = cc
keyspaces_disjoint (b ∷ rest) h = ground arith
