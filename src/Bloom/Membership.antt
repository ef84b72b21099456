-- ===== src/Bloom/Membership.antt =====
-- The filter never denies a key that it was built from, and never reads past its bits.
use zydecodb.Prelude.{
  ℕ, zero, suc, ◌+◌, ◌*◌, ◌/◌, ◌%◌, ◌^◌, ◌<◌, ◌≤◌, max, ◌≡◌, refl, ap, ◌∙◌, true, List, [], ◌∷◌,
  length, ==_ne, arith, replicate, inl, inr,
}
use native.Mathlib.Nat.{mod-lt}
use zydecodb.Prelude.Bytes.{Bytes}
use zydecodb.Prelude.BitField.{bit_at, set_at, length-update, bit_at-set_at, bit_at_kept}
use zydecodb.Prelude.SortedMap.{Has}
use zydecodb.Bloom.{
  BloomFilter, num_hashes, bytes_for, nth_bit, add_rounds, test_rounds, hashes, add, add_all,
  empty_for, build, maybe_contains,
}

-- The bits that are probed exist.
pub record IsWellFormed (f : BloomFilter) : Type 0 where
  pub some_bits : 0 < f.num_bits
  pub stored : f.num_bits ≤ 8 * length f.bits

pub nth_bit_lt : (h1 h2 i n : ℕ) → 0 < n → nth_bit h1 h2 i n < n
unfolding nth_bit
nth_bit_lt h1 h2 i n h = mod-lt ((h1 + i * h2 % 2 ^ 64) % 2 ^ 64) h

length-add_rounds :
    (n h1 h2 m i : ℕ) (bits : Bytes) → length (add_rounds n h1 h2 m i bits) ≡ length bits
unfolding add_rounds
length-add_rounds zero h1 h2 m i bits = refl
length-add_rounds (suc n) h1 h2 m i bits =
    length-add_rounds n h1 h2 m (suc i) (set_at (nth_bit h1 h2 i m) bits)
    ∙ length-update (nth_bit h1 h2 i m / 8) _ bits

-- A bit that is set stays set.
add_rounds_keep :
    (n h1 h2 m i j : ℕ) (bits : Bytes)
    → bit_at j bits ≡ true
    → bit_at j (add_rounds n h1 h2 m i bits) ≡ true
unfolding add_rounds
add_rounds_keep zero h1 h2 m i j bits h = h
add_rounds_keep (suc n) h1 h2 m i j bits h =
    add_rounds_keep n h1 h2 m (suc i) j (set_at (nth_bit h1 h2 i m) bits)
      (bit_at_kept j (nth_bit h1 h2 i m) bits h)

test_rounds_more :
    (n h1 h2 m i : ℕ) (bits bits' : Bytes)
    → ((j : ℕ) → bit_at j bits ≡ true → bit_at j bits' ≡ true)
    → test_rounds n h1 h2 m i bits ≡ true
    → test_rounds n h1 h2 m i bits' ≡ true
unfolding test_rounds
test_rounds_more zero h1 h2 m i bits bits' more h = refl
test_rounds_more (suc n) h1 h2 m i bits bits' more h =
    ground (arith, more (nth_bit h1 h2 i m), test_rounds_more n h1 h2 m (suc i) bits bits' more)

-- The probes of a key find the bits that its addition has set.
test-add_rounds :
    (n h1 h2 m i : ℕ) (bits : Bytes)
    → 0 < m
    → m ≤ 8 * length bits
    → test_rounds n h1 h2 m i (add_rounds n h1 h2 m i bits) ≡ true
unfolding add_rounds test_rounds
test-add_rounds zero h1 h2 m i bits positive fits = refl
test-add_rounds (suc n) h1 h2 m i bits positive fits =
    let bit = nth_bit h1 h2 i m in
    let bits' = set_at bit bits in
    rw
      (add_rounds_keep n h1 h2 m (suc i) bit bits'
        (bit_at-set_at bit bits (omega (arith, nth_bit_lt h1 h2 i m positive))))
      (test-add_rounds n h1 h2 m (suc i) bits' positive
        (omega (arith, length-update (bit / 8) _ bits)))

length-replicate : (n : ℕ) → length (replicate {A = ℕ} n 0) ≡ n
length-replicate zero = refl
length-replicate (suc n) = ap suc (length-replicate n)

pub empty_for-IsWellFormed : (n : ℕ) → IsWellFormed (empty_for n)
unfolding empty_for
empty_for-IsWellFormed n = record {
  some_bits = omega arith;
  stored = omega (arith, length-replicate (bytes_for (max (max n 1 * 10) 64)));
}

module _ (xxh3 : Bytes → ℕ → ℕ) where
  add-IsWellFormed : (f : BloomFilter) (k : Bytes) → IsWellFormed f → IsWellFormed (add xxh3 f k)
  unfolding add
  add-IsWellFormed f k w = record {
    some_bits = w.some_bits;
    stored = omega (
      arith,
      w.stored,
      length-add_rounds num_hashes (hashes xxh3 k).0 (hashes xxh3 k).1 f.num_bits 0 f.bits,
    );
  }

  maybe_contains-add :
      (f : BloomFilter) (k : Bytes) → IsWellFormed f → maybe_contains xxh3 (add xxh3 f k) k ≡ true
  unfolding maybe_contains add
  maybe_contains-add f k w = rw (==_ne f.num_bits 0 (omega (arith, w.some_bits))) (
      test-add_rounds num_hashes (hashes xxh3 k).0 (hashes xxh3 k).1 f.num_bits 0 f.bits w.some_bits
        w.stored)

  -- A key that may be present stays so.
  maybe_contains_kept :
      (f : BloomFilter) (j k : Bytes)
      → maybe_contains xxh3 f k ≡ true
      → maybe_contains xxh3 (add xxh3 f j) k ≡ true
  unfolding maybe_contains add
  maybe_contains_kept f j k h = ground (
    arith,
    test_rounds_more num_hashes (hashes xxh3 k).0 (hashes xxh3 k).1 f.num_bits 0 f.bits
        (add_rounds num_hashes (hashes xxh3 j).0 (hashes xxh3 j).1 f.num_bits 0 f.bits)
        (λ i. add_rounds_keep num_hashes (hashes xxh3 j).0 (hashes xxh3 j).1 f.num_bits 0 i f.bits),
  )

  maybe_contains_all :
      (f : BloomFilter) (ks : List Bytes) (k : Bytes)
      → maybe_contains xxh3 f k ≡ true
      → maybe_contains xxh3 (add_all xxh3 f ks) k ≡ true
  unfolding add_all
  maybe_contains_all f [] k h = h
  maybe_contains_all f (j ∷ ks) k h =
      maybe_contains_all (add xxh3 f j) ks k (maybe_contains_kept f j k h)

  Has-add_all :
      (f : BloomFilter) (ks : List Bytes) (k : Bytes)
      → IsWellFormed f
      → Has k ks
      → maybe_contains xxh3 (add_all xxh3 f ks) k ≡ true
  unfolding add_all
  Has-add_all f [] k w h = absurd h
  Has-add_all f (j ∷ ks) k w (inl same) =
      maybe_contains_all (add xxh3 f j) ks k
        (ap (λ (x : Bytes). maybe_contains xxh3 (add xxh3 f j) x) same ∙ maybe_contains-add f j w)
  Has-add_all f (j ∷ ks) k w (inr h) = Has-add_all (add xxh3 f j) ks k (add-IsWellFormed f j w) h

  add_all-IsWellFormed :
      (f : BloomFilter) (ks : List Bytes) → IsWellFormed f → IsWellFormed (add_all xxh3 f ks)
  unfolding add_all
  add_all-IsWellFormed f [] w = w
  add_all-IsWellFormed f (k ∷ ks) w =
      add_all-IsWellFormed (add xxh3 f k) ks (add-IsWellFormed f k w)

  -- A filter says of each key that it was built from that the key may be present.
  pub maybe_contains-build :
      (keys : List Bytes) (k : Bytes) → Has k keys → maybe_contains xxh3 (build xxh3 keys) k ≡ true
  unfolding build
  maybe_contains-build keys k h =
      Has-add_all (empty_for (length keys)) keys k (empty_for-IsWellFormed (length keys)) h

  pub build-IsWellFormed : (keys : List Bytes) → IsWellFormed (build xxh3 keys)
  unfolding build
  build-IsWellFormed keys =
      add_all-IsWellFormed (empty_for (length keys)) keys (empty_for-IsWellFormed (length keys))
