-- ===== src/Bloom.antt =====
-- crates/zydecodb-engine/src/bloom.rs: the Bloom filter of an SSTable. The hash is that of the
-- crate xxhash_rust, a parameter: a key and a seed give a `u64`.
pub mod Membership
pub mod Codec
mod Tests
use zydecodb.Prelude.{
  ℕ, zero, suc, ◌+◌, ◌*◌, ◌/◌, ◌%◌, ◌^◌, max, Bool, true, false, Option, none, some, List, [], ◌∷◌,
  ◌++◌, length, ltb, ◌==◌, drop, replicate, if◌then◌else◌,
}
use zydecodb.Prelude.Bytes.{Bytes, to_be, from_be}
use zydecodb.Prelude.Slices.{slice}
use zydecodb.Prelude.BitField.{bit_at, set_at}

abbrev pub num_hashes : ℕ
num_hashes = 7

abbrev pub bits_per_key : ℕ
bits_per_key = 10

-- `struct BloomFilter`.
pub record BloomFilter : Type 0 where
  pub bits : Bytes
  pub num_bits : ℕ

-- `usize::div_ceil(8)`.
abbrev pub bytes_for : ℕ → ℕ
bytes_for n = (n + 7) / 8

-- `nth_bit`, with the wrapping sum and product of `u64`.
unfoldable pub nth_bit : ℕ → ℕ → ℕ → ℕ → ℕ
nth_bit h1 h2 i num_bits = (h1 + i * h2 % 2 ^ 64) % 2 ^ 64 % num_bits

-- The loop of `add`, from round `i` on.
unfoldable pub add_rounds : ℕ → ℕ → ℕ → ℕ → ℕ → Bytes → Bytes
unfolding nth_bit
add_rounds zero h1 h2 num_bits i bits = bits
add_rounds (suc n) h1 h2 num_bits i bits =
    add_rounds n h1 h2 num_bits (suc i) (set_at (nth_bit h1 h2 i num_bits) bits)

-- The loop of `maybe_contains`, from round `i` on.
unfoldable pub test_rounds : ℕ → ℕ → ℕ → ℕ → ℕ → Bytes → Bool
unfolding nth_bit
test_rounds zero h1 h2 num_bits i bits = true
test_rounds (suc n) h1 h2 num_bits i bits =
    let rest = test_rounds n h1 h2 num_bits (suc i) bits in
    if bit_at (nth_bit h1 h2 i num_bits) bits then rest else false

-- The filter that `build` starts from.
unfoldable pub empty_for : ℕ → BloomFilter
empty_for count =
    let num_bits = max (max count 1 * bits_per_key) 64 in
    record { bits = replicate (bytes_for num_bits) 0; num_bits = num_bits }

module _ (xxh3 : Bytes → ℕ → ℕ) where
  -- `hashes`.
  unfoldable pub hashes : Bytes → ℕ × ℕ
  hashes key = (xxh3 key 0, xxh3 key 0x9E3779B97F4A7C15)

  -- `add`.
  unfoldable pub add : BloomFilter → Bytes → BloomFilter
  unfolding hashes add_rounds
  add f key =
      let (h1, h2) = hashes key in
      record { bits = add_rounds num_hashes h1 h2 f.num_bits 0 f.bits; num_bits = f.num_bits }

  -- The loop of `build`.
  unfoldable pub add_all : BloomFilter → List Bytes → BloomFilter
  unfolding add
  add_all f [] = f
  add_all f (k ∷ ks) = add_all (add f k) ks

  -- `build`.
  unfoldable pub build : List Bytes → BloomFilter
  unfolding add_all empty_for
  build keys = add_all (empty_for (length keys)) keys

  -- `maybe_contains`.
  unfoldable pub maybe_contains : BloomFilter → Bytes → Bool
  unfolding hashes test_rounds
  maybe_contains f key =
      let (h1, h2) = hashes key in
      if f.num_bits == 0 then true else test_rounds num_hashes h1 h2 f.num_bits 0 f.bits

-- `encode`; the cast to `u32` is kept.
unfoldable pub encode_filter : BloomFilter → Bytes
encode_filter f = to_be 4 (f.num_bits % 2 ^ 32) ++ f.bits

-- `decode`.
unfoldable pub decode_filter : Bytes → Option BloomFilter
decode_filter buf =
    let num_bits = from_be (slice 0 4 buf) in
    let bits = drop 4 buf in
    if ltb (length buf) 4
    then none
    else if ltb (length bits) (bytes_for num_bits)
    then none
    else some (record { bits = bits; num_bits = num_bits })
