-- ===== src/Format.antt =====
-- Terp_Builder/Pods/leveldb-library/table/format.h and format.cc: the handles of a table's blocks and the table's footer. A method
-- that sets its object returns it, and the status, and what is left of the input. ReadBlock is not
-- here. `little` is port::kLittleEndian.
pub mod Handles
pub mod RoundTrip
use terp_builder.Base.{
  ℕ, zero, suc, ◌+◌, ◌-◌, ◌*◌, ◌/◌, ◌%◌, ◌^◌, Bool, Option, none, some, List, [], ◌∷◌, ◌++◌,
}
use terp_builder.Base.{length, take, drop, bit_or, ◌==◌, if◌then◌else◌, ◌>>=◌}
use terp_builder.Slice.{Slice}
use terp_builder.Status.{Status, ok, corrupt}
use terp_builder.Coding.Fixed.{put_fixed32, decode_fixed32}
use terp_builder.Coding.Varint.{put_varint64, get_varint64}

pub record BlockHandle : Type 0 where
  pub offset : ℕ
  pub size : ℕ

-- ~0, the value of a field that is not set.
abbrev pub unset : ℕ
unset = 2 ^ 64 - 1

abbrev pub block_handle : BlockHandle
block_handle = record { offset = unset; size = unset }

pub record Footer : Type 0 where
  pub metaindex_handle : BlockHandle
  pub index_handle : BlockHandle

abbrev pub max_encoded_length : ℕ
max_encoded_length = 10 + 10

abbrev pub encoded_length : ℕ
encoded_length = 2 * max_encoded_length + 8

abbrev pub table_magic_number : ℕ
table_magic_number = 0xdb4775248b80fb57

-- The two assertions are `none`.
unfoldable pub encode_handle : BlockHandle → List ℕ → Option (List ℕ)
encode_handle h dst =
    if h.offset == unset
    then none
    else if h.size == unset
    then none
    else some (put_varint64 (put_varint64 dst h.offset) h.size)

abbrev pub read_size : BlockHandle → Option ℕ × Slice → BlockHandle × Status × Slice
read_size h (none, input) = (h, corrupt "bad block handle", input)
read_size h (some n, input) = (record h { size = n }, ok, input)

abbrev pub read_offset : BlockHandle → Option ℕ × Slice → BlockHandle × Status × Slice
read_offset h (none, input) = (h, corrupt "bad block handle", input)
read_offset h (some n, input) = read_size (record h { offset = n }) (get_varint64 input)

unfoldable pub decode_handle : BlockHandle → Slice → BlockHandle × Status × Slice
decode_handle h input = read_offset h (get_varint64 input)

abbrev pub zeros : ℕ → List ℕ
zeros zero = []
zeros (suc n) = 0 ∷ zeros n

-- `resize` of std::string: it cuts, or appends '\0'.
abbrev pub resize : ℕ → List ℕ → List ℕ
resize n dst = take n dst ++ zeros (n - length dst)

-- The index handle of a footer, after its metaindex handle.
abbrev pub read_index : Slice → Footer → BlockHandle × Status × Slice → Footer × Status × Slice
read_index after f (h, ok, input) = (record f { index_handle = h }, ok, after)
read_index after f (h, s, input) = (record f { index_handle = h }, s, input)

abbrev pub read_metaindex : Slice → Footer → BlockHandle × Status × Slice → Footer × Status × Slice
read_metaindex after f (h, ok, input) =
    read_index after (record f { metaindex_handle = h }) (decode_handle f.index_handle input)
read_metaindex after f (h, s, input) = (record f { metaindex_handle = h }, s, input)

module _ (little : Bool) where
  -- The resize sets the length of the whole string, so the assertion at the end looks at what was
  -- in dst before.
  unfoldable pub encode_footer : Footer → List ℕ → Option (List ℕ)
  encode_footer f dst = do
    d1 ← encode_handle f.metaindex_handle dst
    d2 ← encode_handle f.index_handle d1
    let d3 =
        put_fixed32 little
          (put_fixed32 little (resize (2 * max_encoded_length) d2) (table_magic_number % 2 ^ 32))
          (table_magic_number / 2 ^ 32)
    (if length d3 == length dst + encoded_length then some d3 else none)

  -- `none` is a read past an input that is too short.
  unfoldable pub decode_footer : Footer → Slice → Option (Footer × Status × Slice)
  decode_footer f input = do
    magic_lo ← decode_fixed32 little (drop (encoded_length - 8) input)
    magic_hi ← decode_fixed32 little (drop (encoded_length - 4) input)
    some (
        if bit_or (magic_hi * 2 ^ 32 % 2 ^ 64) magic_lo == table_magic_number
        then read_metaindex (drop encoded_length input) f (decode_handle f.metaindex_handle input)
        else (f, corrupt "not an sstable (bad magic number)", input))
