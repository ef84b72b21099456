-- ===== src/Bloom/Tests.antt =====
-- Filters of concrete keys, with a hash that stands for that of xxhash_rust.
use zydecodb.Prelude.{
  ℕ, ◌+◌, ◌*◌, ◌/◌, ◌%◌, ◌^◌, ◌<◌, ◌≡◌, refl, true, false, some, List, [], ◌∷◌, length, arith, inl,
  inr,
}
use zydecodb.Prelude.Bytes.{Bytes, from_be}
use zydecodb.Prelude.Slices.{slice}
use zydecodb.Prelude.BitField.{test_bit, set_bit}
use zydecodb.Bloom.{nth_bit, build, maybe_contains, decode_filter}
use zydecodb.Bloom.Membership.{maybe_contains-build}
use zydecodb.Bloom.Codec.{probes_in_range}

abbrev toy_hash : Bytes → ℕ → ℕ
toy_hash [] seed = (seed + 17) % 2 ^ 64
toy_hash (x ∷ xs) seed = (toy_hash xs seed * 31 + x + 1) % 2 ^ 64

abbrev two_keys : List Bytes
two_keys = (1 ∷ 2 ∷ []) ∷ (1 ∷ 3 ∷ []) ∷ []

maybe_contains-build_example : maybe_contains toy_hash (build toy_hash two_keys) (1 ∷ 3 ∷ []) ≡ true
maybe_contains-build_example = maybe_contains-build toy_hash two_keys (1 ∷ 3 ∷ []) (inr (inl refl))

absent : maybe_contains toy_hash (build toy_hash two_keys) (9 ∷ 9 ∷ []) ≡ false
unfolding maybe_contains build test_bit set_bit
absent = refl

stored_filter :
    decode_filter (0 ∷ 0 ∷ 0 ∷ 12 ∷ 255 ∷ 15 ∷ [])
    ≡ some (record { bits = 255 ∷ 15 ∷ []; num_bits = 12 })
unfolding decode_filter slice from_be
stored_filter = refl

probes_in_range_example : nth_bit 5 9 3 12 / 8 < length {A = ℕ} (255 ∷ 15 ∷ [])
probes_in_range_example =
    probes_in_range (0 ∷ 0 ∷ 0 ∷ 12 ∷ 255 ∷ 15 ∷ [])
      (record { bits = 255 ∷ 15 ∷ []; num_bits = 12 }) 5 9 3 stored_filter (omega arith)
