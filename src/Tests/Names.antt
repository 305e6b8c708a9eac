-- ===== src/Tests/Names.antt =====
-- Numbers as text, file names, and a filter.
use terp_builder.Base.{length, ℕ, ◌^◌, ◌≡◌, ◌↔◌, refl, arith, true, false, not, Option, some}
use terp_builder.Base.{List, [], ◌∷◌, length, drop, All, ltb, ◌==◌, if◌then◌else◌}
use terp_builder.Base.Text.{bytes}
use terp_builder.Slice.{Slice}
use terp_builder.Logging.{consume_decimal_number}
use terp_builder.Logging.Numbers.{leading, trailing, number_from, consume_decimal_number-lem}
use terp_builder.FileName.{FileType, table_file, parse_file_name}
use terp_builder.FileName.Owned.{IsOwned}
use terp_builder.FileName.Parse.{parse_file_name_iff}
use terp_builder.Bloom.{
  add_keys, set_probes, set_bit, bloom_filter_policy, create_filter, key_may_match,
}
use terp_builder.Bloom.Policy.{new_bloom_filter_policy, new_bloom_filter_policy-IsPolicy}
use terp_builder.FilterBlock.{
  FilterPolicy, FilterBlockBuilder, filter_block_builder, filter_block_reader, finish, finished,
  may_match, add_key, make_keys, generate_filter, generate_below, start_block,
}
use terp_builder.FilterBlock.Calls.{Call, block, key_added, build, grouped, build-grouped}
use terp_builder.FilterBlock.Builder.{state_of}
use mathlib.Core.Option
use terp_builder.FilterBlock.Members.{may_match-added}
use terp_builder.Coding.Fixed.{put_fixed32, encode_fixed32, decode_fixed32, host_bytes, host_value}
use terp_builder.Hash.{hash, four_at_a_time, remaining, stir}
use terp_builder.Bloom.Members.{key_may_match-create_filter}

-- 2^64 is one too many.
abbrev too_large : Slice
too_large = bytes "18446744073709551616.log"

consume_decimal_number-lem_example :
    consume_decimal_number too_large 7
    ≡ some (
        if ltb (number_from 0 (leading too_large)) (2 ^ 64)
        then (
          not (length (leading too_large) == 0),
          number_from 0 (leading too_large),
          trailing too_large,
        )
        else (false, 7, too_large))
consume_decimal_number-lem_example = consume_decimal_number-lem too_large 7

parse_file_name_iff_example :
    (o : Option (ℕ × FileType)) × (parse_file_name (bytes "000012.ldb") ≡ some o)
    × ((o ≡ some (12, table_file)) ↔ IsOwned (bytes "000012.ldb") 12 table_file)
parse_file_name_iff_example = parse_file_name_iff (bytes "000012.ldb") 12 table_file

abbrev directory : List ℕ
directory = bytes "/data/db"

abbrev keys : List Slice
keys = bytes "apple" ∷ bytes "pear" ∷ []

key_may_match-create_filter_example :
    All
      (λ key.
        key_may_match true key (drop 1 (create_filter true (bloom_filter_policy 10) keys (9 ∷ [])))
        ≡ true)
      keys
key_may_match-create_filter_example =
    key_may_match-create_filter true 10 keys (9 ∷ []) (omega arith)

-- Two blocks, with a key of the second read back once its filter is made.
abbrev calls : List Call
calls =
    block 0
    ∷ key_added (bytes "fig")
    ∷ block 2100
    ∷ key_added (bytes "apple")
    ∷ key_added (bytes "pear")
    ∷ []

abbrev policy : FilterPolicy
policy = new_bloom_filter_policy true 10

abbrev built : FilterBlockBuilder
built = record {
  keys = bytes "applepear";
  start = 0 ∷ 5 ∷ [];
  result = create_filter true (bloom_filter_policy 10) (bytes "fig" ∷ []) [];
  filter_offsets = 0 ∷ [];
}

built-calls : build policy calls filter_block_builder ≡ some built
unfolding build start_block generate_below generate_filter add_key make_keys
built-calls = refl

build-grouped_example :
    build policy calls filter_block_builder ≡ Option.map (state_of policy) (grouped calls ([], []))
build-grouped_example =
    build-grouped policy 100 (new_bloom_filter_policy-IsPolicy true 10 100 (omega arith)) calls
      ([], [])

built-size : length (finish true policy built) ≡ 31
unfolding finish finished generate_filter make_keys put_fixed32 encode_fixed32 host_bytes
    create_filter add_keys set_probes set_bit bloom_filter_policy hash four_at_a_time remaining stir
    decode_fixed32 host_value
built-size = refl

may_match-added_example :
    may_match true policy (filter_block_reader true (finish true policy built)) 2100 (bytes "pear")
    ≡ true
may_match-added_example =
    may_match-added true policy 100 (new_bloom_filter_policy-IsPolicy true 10 100 (omega arith))
      (block 0 ∷ key_added (bytes "fig") ∷ []) 2100 (bytes "apple" ∷ []) (bytes "pear") [] built
      built-calls (omega arith) (omega (arith, built-size))
