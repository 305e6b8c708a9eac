-- ===== src/Coding/Fixed/Portable.antt =====
-- The fixed-width encodings and the host's byte order.
use terp_builder.Base.{ℕ, ◌/◌, ◌^◌, ◌≡◌, Bool, true, false, refl, arith}
use terp_builder.Base.Bits.{bit_and_ones_eight}
use terp_builder.Coding.Fixed.{le_bytes, host_bytes, encode_fixed32, encode_fixed64}

-- EncodeFixed32 writes the four bytes of the value, lowest first, on either kind of host.
pub encode_fixed32_le : (little : Bool) (v : ℕ) → encode_fixed32 little v ≡ le_bytes 4 v
unfolding encode_fixed32 host_bytes
encode_fixed32_le true v = refl
encode_fixed32_le false v = ground (
  arith,
  bit_and_ones_eight v,
  bit_and_ones_eight (v / 2 ^ 8),
  bit_and_ones_eight (v / 2 ^ 16),
  bit_and_ones_eight (v / 2 ^ 24),
)

-- EncodeFixed64 writes the eight bytes of the value, lowest first, on either kind of host.
pub encode_fixed64_le : (little : Bool) (v : ℕ) → encode_fixed64 little v ≡ le_bytes 8 v
unfolding encode_fixed64 host_bytes
encode_fixed64_le true v = refl
encode_fixed64_le false v = ground (
  arith,
  bit_and_ones_eight v,
  bit_and_ones_eight (v / 2 ^ 8),
  bit_and_ones_eight (v / 2 ^ 16),
  bit_and_ones_eight (v / 2 ^ 24),
  bit_and_ones_eight (v / 2 ^ 32),
  bit_and_ones_eight (v / 2 ^ 40),
  bit_and_ones_eight (v / 2 ^ 48),
  bit_and_ones_eight (v / 2 ^ 56),
)
