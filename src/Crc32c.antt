-- ===== src/Crc32c.antt =====
-- Terp_Builder/Pods/leveldb-library/util/crc32c.h: the masking of a stored checksum. Extend, in
-- util/crc32c.cc, is not here. A checksum is below 2^32, and so is all arithmetic.
pub mod Masking
use terp_builder.Base.{ℕ, ◌+◌, ◌-◌, ◌*◌, ◌/◌, ◌%◌, ◌^◌, bit_or}

-- `kMaskDelta`
abbrev pub mask_delta : ℕ
mask_delta = 0xa282ead8

unfoldable pub mask : ℕ → ℕ
mask crc = (bit_or (crc / 2 ^ 15) (crc * 2 ^ 17 % 2 ^ 32) + mask_delta) % 2 ^ 32

-- `masked_crc - kMaskDelta` wraps around below 0.
abbrev rotated : ℕ → ℕ
rotated masked_crc = (masked_crc + 2 ^ 32 - mask_delta) % 2 ^ 32

unfoldable pub unmask : ℕ → ℕ
unmask masked_crc = bit_or (rotated masked_crc / 2 ^ 17) (rotated masked_crc * 2 ^ 15 % 2 ^ 32)
