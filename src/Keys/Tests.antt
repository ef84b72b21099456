-- ===== src/Keys/Tests.antt =====
-- Runs of the key functions, and the theorems at concrete keys.
use Prim.Native.Nat.Ordering.{lt}
use zydecodb.Prelude.{◌≤◌, ◌≡◌, ◌↔◌, refl, [], ◌∷◌}
use zydecodb.Prelude.Bytes.{cmp_bytes}
use zydecodb.Errors.{ok, err, bad_key}
use zydecodb.Keys.{
  InternalKey, value, tombstone, cmp_key, ks_user, ks_system, validate_user_key,
  validate_system_key,
}
use zydecodb.Keys.Seek.{newer_first}
use zydecodb.Keys.Valid.{validate_exact, InKeyspace}

abbrev older : InternalKey
older = record { user_key = 1 ∷ b'k' ∷ []; seq = 1; kind = value }

abbrev newer : InternalKey
newer = record { user_key = 1 ∷ b'k' ∷ []; seq = 2; kind = tombstone }

newer_before_older : cmp_key newer older ≡ lt
unfolding cmp_key cmp_bytes
newer_before_older = refl

-- The tests of `tombstone_and_value_same_key_seq_are_ordered_deterministically`.
value_before_tombstone : cmp_key (record newer { kind = value }) newer ≡ lt
unfolding cmp_key cmp_bytes
value_before_tombstone = refl

reserved : validate_user_key (0 ∷ 7 ∷ []) ≡ err (bad_key "reserved keyspace")
unfolding validate_user_key
reserved = refl

accepted : validate_user_key (1 ∷ 7 ∷ []) ≡ ok tt
unfolding validate_user_key
accepted = refl

newer_first_example : 1 ≤ 2
newer_first_example = newer_first newer older refl newer_before_older

validate_exact_example :
    ((validate_user_key (1 ∷ 7 ∷ []) ≡ ok tt) ↔ InKeyspace ks_user (1 ∷ 7 ∷ []))
    × ((validate_system_key (1 ∷ 7 ∷ []) ≡ ok tt) ↔ InKeyspace ks_system (1 ∷ 7 ∷ []))
validate_exact_example = validate_exact (1 ∷ 7 ∷ [])
