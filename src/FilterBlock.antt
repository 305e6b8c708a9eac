-- ===== src/FilterBlock.antt =====
-- Terp_Builder/Pods/leveldb-library/table/filter_block.h and filter_block.cc: the block of a table that holds its filters, built
-- and read with a filter policy (include/leveldb/filter_policy.h), the record FilterPolicy. A
-- size_t that is stored as uint32_t is cut to 32 bits. tmp_keys_ is empty between the calls.
pub mod Builder
pub mod Calls
pub mod Placed
pub mod Words
pub mod Reader
pub mod Members
use terp_builder.Base.{
  ℕ, zero, suc, ◌+◌, ◌-◌, ◌*◌, ◌/◌, ◌%◌, ◌^◌, Bool, true, false, ◌&&◌, Option, none, some,
}
use terp_builder.Base.{
  List, [], ◌∷◌, or_zero, ◌++◌, length, take, drop, get_or, ltb, leb, ◌==◌, if◌then◌else◌, All, ◌≡◌,
  ◌<◌,
}
use terp_builder.Slice.{Slice}
use terp_builder.Coding.Fixed.{put_fixed32, decode_fixed32}

-- CreateFilter with the keys and dst, and KeyMayMatch with the key and the filter.
pub record FilterPolicy : Type 0 where
  pub create_filter : List Slice → List ℕ → List ℕ
  pub key_may_match : Slice → Slice → Bool

-- What filter_policy.h says of the two: CreateFilter appends, and KeyMayMatch is true of every key
-- that CreateFilter was given, where there are no more of them than it can take.
pub record IsPolicy (policy : FilterPolicy) (limit : ℕ) : Type 0 where
  pub appends :
      (keys : List Slice) (dst : List ℕ)
      → policy.create_filter keys dst ≡ dst ++ policy.create_filter keys []
  pub matches :
      (keys : List Slice)
      → length keys < limit
      → All (λ key. policy.key_may_match key (policy.create_filter keys []) ≡ true) keys

abbrev pub filter_base_lg : ℕ
filter_base_lg = 11

abbrev pub filter_base : ℕ
filter_base = 2 ^ filter_base_lg

pub record FilterBlockBuilder : Type 0 where
  pub keys : List ℕ
  pub start : List ℕ
  pub result : List ℕ
  pub filter_offsets : List ℕ

abbrev pub filter_block_builder : FilterBlockBuilder
filter_block_builder = record { keys = []; start = []; result = []; filter_offsets = [] }

unfoldable pub add_key : Slice → FilterBlockBuilder → FilterBlockBuilder
add_key key b = record b { keys = b.keys ++ key; start = b.start ++ (length b.keys ∷ []) }

-- The keys between the starts, with the end of the last behind them.
unfoldable pub make_keys : List ℕ → List ℕ → List Slice
make_keys keys [] = []
make_keys keys (s ∷ []) = []
make_keys keys (s ∷ e ∷ start) = take (e - s) (drop s keys) ∷ make_keys keys (e ∷ start)

abbrev pub stored : ℕ → ℕ
stored n = n % 2 ^ 32

module _ (policy : FilterPolicy) where
  unfoldable pub generate_filter : FilterBlockBuilder → FilterBlockBuilder
  generate_filter b =
      if length b.start == 0
      then record b { filter_offsets = b.filter_offsets ++ (stored (length b.result) ∷ []) }
      else record {
        keys = [];
        start = [];
        result = policy.create_filter (make_keys b.keys (b.start ++ (length b.keys ∷ []))) b.result;
        filter_offsets = b.filter_offsets ++ (stored (length b.result) ∷ []);
      }

  -- The loop of StartBlock, over fuel.
  unfoldable pub generate_below : ℕ → ℕ → FilterBlockBuilder → FilterBlockBuilder
  generate_below zero filter_index b = b
  generate_below (suc fuel) filter_index b =
      let rest = generate_below fuel filter_index (generate_filter b) in
      if ltb (length b.filter_offsets) filter_index then rest else b

  -- The assertion is `none`. Each round of the loop adds an offset.
  unfoldable pub start_block : ℕ → FilterBlockBuilder → Option FilterBlockBuilder
  start_block block_offset b =
      let filter_index = block_offset / filter_base in
      if ltb filter_index (length b.filter_offsets)
      then none
      else some (generate_below (filter_index - length b.filter_offsets) filter_index b)

module _ (little : Bool) where
  abbrev pub put_offsets : List ℕ → List ℕ → List ℕ
  put_offsets [] dst = dst
  put_offsets (n ∷ offsets) dst = put_offsets offsets (put_fixed32 little dst n)

  -- The loop over filter_offsets_ and what follows it.
  unfoldable pub finished : FilterBlockBuilder → Slice
  finished b =
      put_fixed32 little (put_offsets b.filter_offsets b.result) (stored (length b.result))
      ++ (filter_base_lg ∷ [])

  unfoldable pub finish : FilterPolicy → FilterBlockBuilder → Slice
  finish policy b = finished (if length b.start == 0 then b else generate_filter policy b)

-- data_ and offset_ are null where num_ is 0.
pub record FilterBlockReader : Type 0 where
  pub contents : List ℕ
  pub offset : ℕ
  pub num : ℕ
  pub base_lg : ℕ

module _ (little : Bool) where
  -- DecodeFixed32 of what is there.
  abbrev pub word_at : List ℕ → ℕ → ℕ
  word_at contents n = or_zero (decode_fixed32 little (drop n contents))

  unfoldable pub filter_block_reader : Slice → FilterBlockReader
  filter_block_reader contents =
      let n = length contents in
      let lg = get_or contents (n - 1) 0 in
      let last_word = word_at contents (n - 5) in
      if ltb n 5
      then record { contents = []; offset = 0; num = 0; base_lg = 0 }
      else if ltb (n - 5) last_word
      then record { contents = []; offset = 0; num = 0; base_lg = lg }
      else record {
        contents = contents;
        offset = last_word;
        num = (n - 5 - last_word) / 4;
        base_lg = lg;
      }

  unfoldable pub may_match : FilterPolicy → FilterBlockReader → ℕ → Slice → Bool
  may_match policy r block_offset key =
      let index = block_offset / 2 ^ r.base_lg in
      let start = word_at r.contents (r.offset + index * 4) in
      let limit = word_at r.contents (r.offset + index * 4 + 4) in
      if ltb index r.num
      then if leb start limit && leb limit r.offset
        then policy.key_may_match key (take (limit - start) (drop start r.contents))
        else if start == limit
        then false
        else true
      else true
