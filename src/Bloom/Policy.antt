-- ===== src/Bloom/Policy.antt =====
-- The Bloom filter as the filter policy of a table's filter block.
use native.Mathlib.Nat.{mul-le-mul_right}
use terp_builder.Base.{ℕ, ◌+◌, ◌*◌, ◌^◌, ◌<◌, refl, arith, Bool, [], length}
use terp_builder.Bloom.{bloom_filter_policy, create_filter, key_may_match}
use terp_builder.Bloom.Members.{key_may_match-create_filter}
use terp_builder.FilterBlock.{FilterPolicy, IsPolicy}

-- NewBloomFilterPolicy
abbrev pub new_bloom_filter_policy : Bool → ℕ → FilterPolicy
new_bloom_filter_policy little bits_per_key = record {
  create_filter = create_filter little (bloom_filter_policy bits_per_key);
  key_may_match = key_may_match little;
}

-- The Bloom filter keeps the promises of filter_policy.h, for fewer keys than a limit for which the
-- number of bits does not wrap around as a size_t.
pub new_bloom_filter_policy-IsPolicy :
    (little : Bool) (bits_per_key limit : ℕ)
    → limit * bits_per_key + 7 < 2 ^ 64
    → IsPolicy (new_bloom_filter_policy little bits_per_key) limit
unfolding create_filter
new_bloom_filter_policy-IsPolicy little b limit h = record {
  appends = λ keys dst. refl;
  matches = λ keys few.
      key_may_match-create_filter little b keys []
        (omega (arith, mul-le-mul_right {m = length keys} {n = limit} b (omega (arith, few))));
}
