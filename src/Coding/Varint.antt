-- ===== src/Coding/Varint.antt =====
-- The variable-length part of util/coding.h and coding.cc: EncodeVarint32, EncodeVarint64,
-- PutVarint32, PutVarint64, VarintLength, GetVarint32Ptr with its fallback, GetVarint64Ptr,
-- GetVarint32 and GetVarint64.
-- A store through an unsigned char pointer keeps the low byte, `% 256`. A pointer pair (p, limit)
-- is the list of the bytes between the two, and `none` is nullptr.
pub mod Encode
pub mod Decode
pub mod RoundTrip
use mathlib.Core.Logic.{dite}
use mathlib.Core.WellFounded.{Acc}
use native.Mathlib.Decide.{dec_lt}
use terp_builder.Base.{ℕ, ◌+◌, ◌*◌, ◌/◌, ◌%◌, ◌^◌, ◌<◌, Option, none, some, arith}
use terp_builder.Base.{List, [], ◌∷◌, ◌++◌, bit_and, bit_or, ltb, leb, ◌==◌, if◌then◌else◌}
use terp_builder.Base.Order.{lt_wf}

-- `v | B`, stored as a byte.
abbrev pub more_byte : ℕ → ℕ
more_byte v = bit_or v 128 % 256

unfoldable pub encode_varint32 : ℕ → List ℕ
encode_varint32 v =
    if ltb v (2 ^ 7)
    then v % 256 ∷ []
    else if ltb v (2 ^ 14)
    then more_byte v ∷ v / 2 ^ 7 % 256 ∷ []
    else if ltb v (2 ^ 21)
    then more_byte v ∷ more_byte (v / 2 ^ 7) ∷ v / 2 ^ 14 % 256 ∷ []
    else if ltb v (2 ^ 28)
    then more_byte v ∷ more_byte (v / 2 ^ 7) ∷ more_byte (v / 2 ^ 14) ∷ v / 2 ^ 21 % 256 ∷ []
    else more_byte v
      ∷ more_byte (v / 2 ^ 7)
      ∷ more_byte (v / 2 ^ 14)
      ∷ more_byte (v / 2 ^ 21)
      ∷ v / 2 ^ 28 % 256
      ∷ []

unfoldable pub put_varint32 : List ℕ → ℕ → List ℕ
put_varint32 dst v = dst ++ encode_varint32 v

shift_smaller : (v : ℕ) → 127 < v → v / 128 < v
shift_smaller v h = omega arith

-- `while (v >= B)`: v falls in every round, so no fuel is needed.
encode_loop : (v : ℕ) → Acc ◌<◌ v → List ℕ
encode_loop v (Acc.intro _ smaller) =
    dite (dec_lt 127 v)
      (λ more. more_byte v ∷ encode_loop (v / 128) (smaller _ (shift_smaller v more)))
      (λ _. v % 256 ∷ [])

pub encode_varint64 : ℕ → List ℕ
encode_varint64 v = encode_loop v (lt_wf.apply v)

unfoldable pub put_varint64 : List ℕ → ℕ → List ℕ
put_varint64 dst v = dst ++ encode_varint64 v

length_loop : (v : ℕ) → Acc ◌<◌ v → ℕ → ℕ
length_loop v (Acc.intro _ smaller) len =
    dite (dec_lt 127 v) (λ more. length_loop (v / 128) (smaller _ (shift_smaller v more)) (len + 1))
      (λ _. len)

pub varint_length : ℕ → ℕ
varint_length v = length_loop v (lt_wf.apply v) 1

-- The loop that GetVarint32PtrFallback (last 28, width 32) and GetVarint64Ptr (last 63, width 64)
-- share: `for (shift = 0; shift <= last && p < limit; shift += 7)` over a word of `width` bits.
module _ (last width : ℕ) where
  unfoldable pub varint_loop : List ℕ → ℕ → ℕ → Option (ℕ × List ℕ)
  varint_loop [] shift result = none
  varint_loop (byte ∷ p) shift result =
      let more =
        varint_loop p (shift + 7) (bit_or result (bit_and byte 127 * 2 ^ shift % 2 ^ width)) in
      if leb shift last
      then (if bit_and byte 128 == 0
          then some (bit_or result (byte * 2 ^ shift % 2 ^ width), p)
          else more)
      else none

unfoldable pub get_varint32_ptr_fallback : List ℕ → Option (ℕ × List ℕ)
get_varint32_ptr_fallback p = varint_loop 28 32 p 0 0

unfoldable pub get_varint32_ptr : List ℕ → Option (ℕ × List ℕ)
unfolding get_varint32_ptr_fallback
get_varint32_ptr [] = get_varint32_ptr_fallback []
get_varint32_ptr (byte ∷ p) =
    if bit_and byte 128 == 0 then some (byte, p) else get_varint32_ptr_fallback (byte ∷ p)

unfoldable pub get_varint64_ptr : List ℕ → Option (ℕ × List ℕ)
get_varint64_ptr p = varint_loop 63 64 p 0 0

-- The bool and *value (`none` for false), and *input after the call.
abbrev advance : List ℕ → Option (ℕ × List ℕ) → Option ℕ × List ℕ
advance input none = (none, input)
advance input (some (v, q)) = (some v, q)

unfoldable pub get_varint32 : List ℕ → Option ℕ × List ℕ
unfolding get_varint32_ptr
get_varint32 input = advance input (get_varint32_ptr input)

unfoldable pub get_varint64 : List ℕ → Option ℕ × List ℕ
unfolding get_varint64_ptr
get_varint64 input = advance input (get_varint64_ptr input)
