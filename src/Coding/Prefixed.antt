-- ===== src/Coding/Prefixed.antt =====
-- The length-prefixed slices of util/coding.cc: PutLengthPrefixedSlice and the two overloads of
-- GetLengthPrefixedSlice.
pub mod RoundTrip
use terp_builder.Base.{ℕ, ◌%◌, ◌^◌, Option, none, some, List, ◌++◌, length, take, drop}
use terp_builder.Base.{leb, if◌then◌else◌}
use terp_builder.Slice.{Slice}
use terp_builder.Coding.Varint.{put_varint32, get_varint32, get_varint32_ptr}

-- The size_t length is converted to uint32_t.
unfoldable pub put_length_prefixed_slice : List ℕ → Slice → List ℕ
put_length_prefixed_slice dst v = put_varint32 dst (length v % 2 ^ 32) ++ v

prefixed : Option (ℕ × Slice) → Option (Slice × Slice)
prefixed none = none
prefixed (some (len, p)) = if leb len (length p) then some (take len p, drop len p) else none

-- The overload on pointers: the slice and the bytes from the returned pointer up to the limit.
unfoldable pub get_length_prefixed_slice_ptr : Slice → Option (Slice × Slice)
unfolding prefixed
get_length_prefixed_slice_ptr p = prefixed (get_varint32_ptr p)

unfoldable pub sized : Option ℕ × Slice → Option Slice × Slice
sized (none, input) = (none, input)
sized (some len, input) =
    if leb len (length input) then (some (take len input), drop len input) else (none, input)

-- The overload on a Slice*: the bool with *result, and *input after the call. Where the length is
-- read and too few bytes follow, the call fails with the length taken off the input.
unfoldable pub get_length_prefixed_slice : Slice → Option Slice × Slice
unfolding sized
get_length_prefixed_slice input = sized (get_varint32 input)
