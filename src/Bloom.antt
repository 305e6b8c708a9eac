-- ===== src/Bloom.antt =====
-- Terp_Builder/Pods/leveldb-library/util/bloom.cc: the Bloom filter policy. The array that CreateFilter sets bits in is the new
-- end of dst, kept apart here until it is whole. An index past the array's end is undefined: here
-- it writes nothing and reads 0.
pub mod Bits
pub mod Members
pub mod Policy
use terp_builder.Base.{ℕ, zero, suc, ◌+◌, ◌-◌, ◌*◌, ◌/◌, ◌%◌, ◌^◌, Bool, true, false}
use terp_builder.Base.{
  List, [], ◌∷◌, ◌++◌, length, set, get_or, bit_and, bit_or, ltb, ◌==◌, if◌then◌else◌,
}
use terp_builder.Slice.{Slice}
use terp_builder.Hash.{hash}

pub record BloomFilterPolicy : Type 0 where
  pub bits_per_key : ℕ
  pub k : ℕ

abbrev pub at_most_30 : ℕ → ℕ
at_most_30 k = if ltb 30 k then 30 else k

-- The double product is cut to an integer. Below 44 bits per key, 0.69 times an integer is at least
-- 0.01 from an integer, so the exact product is cut to the same one; from 44 on both are 30.
unfoldable pub bloom_filter_policy : ℕ → BloomFilterPolicy
bloom_filter_policy bits_per_key =
    let k = bits_per_key * 69 / 100 in
    record { bits_per_key = bits_per_key; k = at_most_30 (if ltb k 1 then 1 else k) }

-- Rotated right by 17 bits.
abbrev pub delta_of : ℕ → ℕ
delta_of h = bit_or (h / 2 ^ 17) (h * 2 ^ 15 % 2 ^ 32)

unfoldable pub set_bit : ℕ → List ℕ → List ℕ
set_bit bitpos array =
    set array (bitpos / 8) (bit_or (get_or array (bitpos / 8) 0) (2 ^ (bitpos % 8)))

-- The inner loop, over k probes.
unfoldable pub set_probes : ℕ → ℕ → ℕ → ℕ → List ℕ → List ℕ
set_probes zero bits delta h array = array
set_probes (suc k) bits delta h array =
    set_probes k bits delta ((h + delta) % 2 ^ 32) (set_bit (h % bits) array)

unfoldable pub test_bit : ℕ → List ℕ → Bool
test_bit bitpos array =
    if bit_and (get_or array (bitpos / 8) 0) (2 ^ (bitpos % 8)) == 0 then false else true

unfoldable pub test_probes : ℕ → ℕ → ℕ → ℕ → List ℕ → Bool
test_probes zero bits delta h array = true
test_probes (suc k) bits delta h array =
    let rest = test_probes k bits delta ((h + delta) % 2 ^ 32) array in
    if test_bit (h % bits) array then rest else false

abbrev pub zero_bytes : ℕ → List ℕ
zero_bytes zero = []
zero_bytes (suc n) = 0 ∷ zero_bytes n

module _ (little : Bool) where
  abbrev pub bloom_hash : Slice → ℕ
  bloom_hash key = hash little key 0xbc9f1d34

  -- The outer loop, over the keys.
  unfoldable pub add_keys : ℕ → ℕ → List Slice → List ℕ → List ℕ
  add_keys k bits [] array = array
  add_keys k bits (key ∷ keys) array =
      let h = bloom_hash key in add_keys k bits keys (set_probes k bits (delta_of h) h array)

  abbrev pub bytes_for : BloomFilterPolicy → ℕ → ℕ
  bytes_for policy n =
      let bits = n * policy.bits_per_key % 2 ^ 64 in
      ((if ltb bits 64 then 64 else bits) + 7) % 2 ^ 64 / 8

  unfoldable pub create_filter : BloomFilterPolicy → List Slice → List ℕ → List ℕ
  create_filter policy keys dst =
      let bytes = bytes_for policy (length keys) in
      dst ++ (add_keys policy.k (bytes * 8) keys (zero_bytes bytes) ++ (policy.k ∷ []))

  -- A byte past 127 is a number above 30, whether char is signed or not.
  unfoldable pub key_may_match : Slice → Slice → Bool
  key_may_match key bloom_filter =
      let len = length bloom_filter in
      let k = get_or bloom_filter (len - 1) 0 in
      let h = bloom_hash key in
      let found = test_probes k ((len - 1) * 8) (delta_of h) h bloom_filter in
      if ltb len 2 then false else if ltb 30 k then true else found
