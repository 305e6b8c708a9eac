-- ===== src/Hash.antt =====
-- Terp_Builder/Pods/leveldb-library/util/hash.cc: the hash of a slice. `little` is port::kLittleEndian.
pub mod Host
use terp_builder.Base.{ℕ, ◌+◌, ◌*◌, ◌/◌, ◌%◌, ◌^◌, Bool, [], ◌∷◌, or_zero, length, bit_xor}
use terp_builder.Slice.{Slice}
use terp_builder.Coding.Fixed.{decode_fixed32}

abbrev pub m : ℕ
m = 0xc6a4a793

abbrev pub r : ℕ
r = 24

-- `h += w; h *= m; h ^= (h >> s)` on uint32.
unfoldable pub stir : ℕ → ℕ → ℕ → ℕ
stir s h w = let product = (h + w) % 2 ^ 32 * m % 2 ^ 32 in bit_xor product (product / 2 ^ s)

-- The bytes that the switch picks up, the lowest last.
unfoldable pub remaining : ℕ → Slice → ℕ
remaining h [] = h
remaining h (a ∷ []) = stir r h a
remaining h (a ∷ b ∷ []) = stir r ((h + b * 2 ^ 8) % 2 ^ 32) a
remaining h (a ∷ b ∷ c ∷ rest) = stir r (((h + c * 2 ^ 16) % 2 ^ 32 + b * 2 ^ 8) % 2 ^ 32) a

module _ (little : Bool) where
  -- The loop: DecodeFixed32 finds the four bytes that it reads.
  unfoldable pub four_at_a_time : ℕ → Slice → ℕ
  four_at_a_time h (a ∷ b ∷ c ∷ d ∷ rest) =
      four_at_a_time (stir 16 h (or_zero (decode_fixed32 little (a ∷ b ∷ c ∷ d ∷ rest)))) rest
  four_at_a_time h (a ∷ b ∷ c ∷ []) = remaining h (a ∷ b ∷ c ∷ [])
  four_at_a_time h (a ∷ b ∷ []) = remaining h (a ∷ b ∷ [])
  four_at_a_time h (a ∷ []) = remaining h (a ∷ [])
  four_at_a_time h [] = remaining h []

  -- n * m is a size_t, and only its low 32 bits stay in h.
  unfoldable pub hash : Slice → ℕ → ℕ
  hash s seed = four_at_a_time (bit_xor seed (length s * m % 2 ^ 64) % 2 ^ 32) s
