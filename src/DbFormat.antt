-- ===== src/DbFormat.antt =====
-- Terp_Builder/Pods/leveldb-library/db/dbformat.h and dbformat.cc: internal keys, the user key
-- followed by eight bytes that hold a sequence number and a value type.
-- `little` is port::kLittleEndian. A failed assertion, and a read outside a key, is `none`.
pub mod Keys
pub mod Order
pub mod Separators
pub mod Lookup
pub mod Debug
pub mod Filter
use Prim.Native.Nat.{Ordering}
use terp_builder.Base.{ℕ, ◌+◌, ◌-◌, ◌*◌, ◌/◌, ◌%◌, ◌^◌, Bool, true, false, Option, none, some}
use terp_builder.Base.{List, ◌++◌, length, take, drop, bit_and, bit_or, leb, ltb, ◌==◌, ◌&&◌}
use terp_builder.Base.{if◌then◌else◌}
use terp_builder.Slice.{Slice}
use terp_builder.Coding.Fixed.{put_fixed64, encode_fixed64, decode_fixed64}
use terp_builder.Coding.Varint.{encode_varint32}
use terp_builder.Comparator.{Comparator}

-- enum ValueType
pub data ValueType : Type 0 where
  deletion value : ValueType

abbrev pub type_code : ValueType → ℕ
type_code deletion = 0
type_code value = 1

abbrev pub value_type_for_seek : ValueType
value_type_for_seek = value

abbrev pub max_sequence_number : ℕ
max_sequence_number = 2 ^ 56 - 1

pub record ParsedInternalKey : Type 0 where
  pub user_key : Slice
  pub sequence : ℕ
  pub type : ValueType

abbrev pub internal_key_encoding_length : ParsedInternalKey → ℕ
internal_key_encoding_length key = length key.user_key + 8

-- The assertion seq <= kMaxSequenceNumber is a hypothesis of the theorems.
unfoldable pub pack_sequence_and_type : ℕ → ValueType → ℕ
pack_sequence_and_type seq t = bit_or (seq * 2 ^ 8 % 2 ^ 64) (type_code t)

-- The byte that ParseInternalKey casts to a ValueType; it answers true for these two codes only.
abbrev pub value_type : ℕ → Option ValueType
value_type c = if c == 0 then some deletion else if c == 1 then some value else none

-- LookupKey: the bytes from start_ to end_, and the offset kstart_ - start_.
pub record LookupKey : Type 0 where
  pub space : List ℕ
  pub kstart : ℕ

unfoldable pub extract_user_key : Slice → Option Slice
extract_user_key key = if leb 8 (length key) then some (take (length key - 8) key) else none

typed : Slice → ℕ → Option ValueType → Option ParsedInternalKey
typed user seq none = none
typed user seq (some t) = some (record { user_key = user; sequence = seq; type = t })

numbered : Slice → Option ℕ → Option ParsedInternalKey
numbered user none = none
numbered user (some num) = typed user (num / 2 ^ 8) (value_type (bit_and num 0xff % 256))

-- The tie-break of InternalKeyComparator::Compare: the larger number comes first.
abbrev by_tag : Option ℕ → Option ℕ → Option Ordering
by_tag (some anum) (some bnum) =
    some (if ltb bnum anum then Ordering.lt else if ltb anum bnum then Ordering.gt else Ordering.eq)
by_tag _ _ = none

abbrev decide : Ordering → Option Ordering → Option Ordering
decide Ordering.eq tie = tie
decide Ordering.lt tie = some Ordering.lt
decide Ordering.gt tie = some Ordering.gt

abbrev on_users : Comparator → Option Slice → Option Slice → Option Ordering → Option Ordering
on_users user (some a) (some b) tie = decide (user.compare a b) tie
on_users user _ _ tie = none

abbrev pub is_lt : Ordering → Bool
is_lt Ordering.lt = true
is_lt Ordering.eq = false
is_lt Ordering.gt = false

abbrev is_below : Comparator → Slice → Slice → Bool
is_below user a b = is_lt (user.compare a b)

module _ (little : Bool) where
  unfoldable pub append_internal_key : List ℕ → ParsedInternalKey → List ℕ
  append_internal_key result key =
      put_fixed64 little (result ++ key.user_key) (pack_sequence_and_type key.sequence key.type)

  -- The bool and *result: `none` for false.
  unfoldable pub parse_internal_key : Slice → Option ParsedInternalKey
  unfolding typed numbered
  parse_internal_key key =
      if ltb (length key) 8
      then none
      else numbered (take (length key - 8) key) (decode_fixed64 little (drop (length key - 8) key))

  -- The last eight bytes of an internal key.
  unfoldable pub tag : Slice → Option ℕ
  tag key = if leb 8 (length key) then decode_fixed64 little (drop (length key - 8) key) else none

  module _ (user : Comparator) where
    -- InternalKeyComparator::Compare
    unfoldable pub internal_compare : Slice → Slice → Option Ordering
    unfolding tag extract_user_key
    internal_compare akey bkey =
        on_users user (extract_user_key akey) (extract_user_key bkey) (by_tag (tag akey) (tag bkey))

    -- The earliest number tacked on to a shortened user key.
    abbrev pub shortened : List ℕ → List ℕ
    shortened tmp =
        put_fixed64 little tmp (pack_sequence_and_type max_sequence_number value_type_for_seek)

    abbrev pub shorten : List ℕ → Slice → List ℕ → List ℕ
    shorten whole user_part tmp =
        if ltb (length tmp) (length user_part) && is_below user user_part tmp
        then shortened tmp
        else whole

    separator_from : List ℕ → Option Slice → Option Slice → Option (List ℕ)
    separator_from start (some user_start) (some user_limit) =
        some (shorten start user_start (user.find_shortest_separator user_start user_limit))
    separator_from start _ _ = none

    -- InternalKeyComparator::FindShortestSeparator
    unfoldable pub internal_separator : List ℕ → Slice → Option (List ℕ)
    unfolding separator_from
    internal_separator start limit =
        separator_from start (extract_user_key start) (extract_user_key limit)

    successor_from : List ℕ → Option Slice → Option (List ℕ)
    successor_from key none = none
    successor_from key (some user_key) =
        some (shorten key user_key (user.find_short_successor user_key))

    -- InternalKeyComparator::FindShortSuccessor
    unfoldable pub internal_successor : List ℕ → Option (List ℕ)
    unfolding successor_from
    internal_successor key = successor_from key (extract_user_key key)

  -- The constructor: varint32 of the internal key's length, the user key, the packed number.
  unfoldable pub lookup_key : Slice → ℕ → LookupKey
  lookup_key user_key s =
      let prefix = encode_varint32 ((length user_key + 8) % 2 ^ 32) in
      record {
        space =
            prefix
            ++ (user_key ++ encode_fixed64 little (pack_sequence_and_type s value_type_for_seek));
        kstart = length prefix;
      }

pub memtable_key : LookupKey → Slice
memtable_key k = k.space

pub internal_key : LookupKey → Slice
internal_key k = drop k.kstart k.space

pub user_key : LookupKey → Slice
user_key k = take (length k.space - k.kstart - 8) (drop k.kstart k.space)
