-- ===== src/Coding/Fixed.antt =====
-- The fixed-width part of util/coding.h and coding.cc: EncodeFixed32, EncodeFixed64, PutFixed32,
-- PutFixed64, DecodeFixed32 and DecodeFixed64.
-- `little` is port::kLittleEndian, which the build sets. A memcpy from or to a word copies the
-- host's own representation, `host_bytes` and `host_value`.
pub mod Portable
pub mod RoundTrip
use mathlib.Core.List.{reverse}
use terp_builder.Base.{ℕ, zero, suc, ◌+◌, ◌*◌, ◌/◌, ◌%◌, ◌^◌, Bool, Option, none, some}
use terp_builder.Base.{List, [], ◌∷◌, ◌++◌, drop, bit_and, bit_or, if◌then◌else◌}

-- The n low bytes of v, the lowest first, and back.
abbrev pub le_bytes : ℕ → ℕ → List ℕ
le_bytes zero v = []
le_bytes (suc n) v = v % 256 ∷ le_bytes n (v / 256)

abbrev pub le_value : List ℕ → ℕ
le_value [] = 0
le_value (b ∷ bs) = b + 256 * le_value bs

unfoldable pub host_bytes : Bool → ℕ → ℕ → List ℕ
host_bytes little n v = if little then le_bytes n v else reverse (le_bytes n v)

unfoldable pub host_value : Bool → List ℕ → ℕ
host_value little bs = if little then le_value bs else le_value (reverse bs)

module _ (little : Bool) where
  unfoldable pub encode_fixed32 : ℕ → List ℕ
  encode_fixed32 v =
      if little
      then host_bytes little 4 v
      else bit_and v 0xff
        ∷ bit_and (v / 2 ^ 8) 0xff
        ∷ bit_and (v / 2 ^ 16) 0xff
        ∷ bit_and (v / 2 ^ 24) 0xff
        ∷ []

  unfoldable pub encode_fixed64 : ℕ → List ℕ
  encode_fixed64 v =
      if little
      then host_bytes little 8 v
      else bit_and v 0xff
        ∷ bit_and (v / 2 ^ 8) 0xff
        ∷ bit_and (v / 2 ^ 16) 0xff
        ∷ bit_and (v / 2 ^ 24) 0xff
        ∷ bit_and (v / 2 ^ 32) 0xff
        ∷ bit_and (v / 2 ^ 40) 0xff
        ∷ bit_and (v / 2 ^ 48) 0xff
        ∷ bit_and (v / 2 ^ 56) 0xff
        ∷ []

  unfoldable pub put_fixed32 : List ℕ → ℕ → List ℕ
  put_fixed32 dst v = dst ++ encode_fixed32 v

  unfoldable pub put_fixed64 : List ℕ → ℕ → List ℕ
  put_fixed64 dst v = dst ++ encode_fixed64 v

  -- `none` is a read past the bytes that there are, which the code does not check for.
  unfoldable pub decode_fixed32 : List ℕ → Option ℕ
  decode_fixed32 (a ∷ b ∷ c ∷ d ∷ rest) = some (
      if little
      then host_value little (a ∷ b ∷ c ∷ d ∷ [])
      else bit_or (bit_or (bit_or a (b * 2 ^ 8 % 2 ^ 32)) (c * 2 ^ 16 % 2 ^ 32))
          (d * 2 ^ 24 % 2 ^ 32))
  decode_fixed32 _ = none

  halves : Option ℕ → Option ℕ → Option ℕ
  halves (some lo) (some hi) = some (bit_or (hi * 2 ^ 32 % 2 ^ 64) lo)
  halves _ _ = none

  unfoldable pub decode_fixed64 : List ℕ → Option ℕ
  unfolding halves
  decode_fixed64 (a ∷ b ∷ c ∷ d ∷ e ∷ f ∷ g ∷ h ∷ rest) =
      if little
      then some (host_value little (a ∷ b ∷ c ∷ d ∷ e ∷ f ∷ g ∷ h ∷ []))
      else halves (decode_fixed32 ptr) (decode_fixed32 (drop 4 ptr))
    where
      ptr : List ℕ
      ptr = a ∷ b ∷ c ∷ d ∷ e ∷ f ∷ g ∷ h ∷ rest
  decode_fixed64 _ = none
