-- ===== src/Bloom/Codec.antt =====
-- The stored form of a filter.
use zydecodb.Prelude.{
  ℕ, ◌*◌, ◌/◌, ◌^◌, ◌<◌, ◌≤◌, max, ◌≡◌, refl, some, List, [], ◌∷◌, ◌++◌, length, length-append,
  ltb-false, arith,
}
use native.Mathlib.Nat.{mod-eq_of_lt}
use zydecodb.Prelude.Bytes.{Bytes, to_be, length-to_be}
use zydecodb.Prelude.Slices.{word_first, drop_first}
use zydecodb.Bloom.{
  BloomFilter, bytes_for, nth_bit, add, add_all, empty_for, build, encode_filter, decode_filter,
}
use zydecodb.Bloom.Membership.{nth_bit_lt, build-IsWellFormed}

decode-encode_filter :
    (f : BloomFilter)
    → f.num_bits < 2 ^ 32
    → bytes_for f.num_bits ≤ length f.bits
    → decode_filter (encode_filter f) ≡ some f
unfolding decode_filter encode_filter
decode-encode_filter f small stored =
    let head = to_be 4 f.num_bits in
    rw (mod-eq_of_lt small) (
      rw
        (ltb-false (length (head ++ f.bits)) 4
          (omega (arith, length-append head f.bits, length-to_be 4 f.num_bits)))
        (rw (word_first 4 f.num_bits f.bits small) (
          rw (drop_first head f.bits (length-to_be 4 f.num_bits))
            (rw (ltb-false (length f.bits) (bytes_for f.num_bits) stored) refl))))

module _ (xxh3 : Bytes → ℕ → ℕ) where
  add_all-num_bits : (f : BloomFilter) (ks : List Bytes) → (add_all xxh3 f ks).num_bits ≡ f.num_bits
  unfolding add_all add
  add_all-num_bits f [] = refl
  add_all-num_bits f (k ∷ ks) = add_all-num_bits (add xxh3 f k) ks

  build-num_bits :
      (keys : List Bytes) → (build xxh3 keys).num_bits ≡ max (max (length keys) 1 * 10) 64
  unfolding build empty_for
  build-num_bits keys = add_all-num_bits (empty_for (length keys)) keys

  -- A filter of at most 429 496 729 keys is read back from its stored form as it was built.
  pub decode-encode_filter-build :
      (keys : List Bytes)
      → length keys ≤ 429496729
      → decode_filter (encode_filter (build xxh3 keys)) ≡ some (build xxh3 keys)
  decode-encode_filter-build keys few =
      let w = build-IsWellFormed xxh3 keys in
      decode-encode_filter (build xxh3 keys) (omega (arith, build-num_bits keys))
        (omega (arith, w.stored))

-- Every probe of a filter that the decoder returns stands within its bits, whatever the bytes were
-- and whatever the hashes are, if the filter has any bits (a filter without bits is not probed).
pub probes_in_range :
    (buf : Bytes) (f : BloomFilter) (h1 h2 i : ℕ)
    → decode_filter buf ≡ some f
    → 0 < f.num_bits
    → nth_bit h1 h2 i f.num_bits / 8 < length f.bits
unfolding decode_filter
probes_in_range buf f h1 h2 i h positive =
    let below = nth_bit_lt h1 h2 i f.num_bits positive in
    let stored : bytes_for f.num_bits ≤ length f.bits = ground (arith, h) in omega arith
