-- ===== src/Base64/Decode/Bytes.antt =====
-- The four values that fbase64.c makes of three bytes make the bytes again.
use terp_builder.Base.{ℕ, ◌+◌, ◌*◌, ◌/◌, ◌%◌, ◌^◌, ◌<◌, ◌≡◌, ◌∙◌, arith, bit_and, bit_or}
use terp_builder.Base.Bits.{
  bit_or_comm, bit_or_disjoint, bit_and_three, bit_and_fifteen, bit_and_sixty_three,
}
use terp_builder.Coding.Fixed.RoundTrip.{IsByte}
use terp_builder.Base64.{output0, output1, output2, output3}

-- Bits beside those of a shifted number.
or_low : (k low high : ℕ) → low < 2 ^ k → bit_or (high * 2 ^ k) low ≡ high * 2 ^ k + low
or_low k low high h = bit_or_comm (high * 2 ^ k) low ∙ bit_or_disjoint k low high h ∙ omega arith

-- The four values of three bytes make the bytes again.
pub first_byte :
    (a b : ℕ) → IsByte a → IsByte b → bit_or (output0 a * 4 % 256) (output1 a b / 16) % 256 ≡ a
first_byte a b ha hb =
    let shifted : output0 a * 4 % 256 ≡ a / 4 * 4 = omega (arith, ha) in
    let low : output1 a b / 16 ≡ a % 4 = omega (arith, ha, hb, bit_and_three a) in
    rw (shifted, low, or_low 2 (a % 4) (a / 4) (omega arith)) (omega (arith, ha))

pub second_byte :
    (a b c : ℕ)
    → IsByte b
    → IsByte c
    → bit_or (bit_and (output1 a b) 0x0f * 16 % 256) (output2 b c / 4) % 256 ≡ b
second_byte a b c hb hc =
    let shifted : bit_and (output1 a b) 0x0f * 16 % 256 ≡ b / 16 * 16 =
      omega (arith, hb, bit_and_fifteen (output1 a b), bit_and_three a) in
    let low : output2 b c / 4 ≡ b % 16 = omega (arith, hb, hc, bit_and_fifteen b) in
    rw (shifted, low, or_low 4 (b % 16) (b / 16) (omega arith)) (omega (arith, hb))

pub third_byte :
    (b c : ℕ) → IsByte c → bit_or (bit_and (output2 b c) 0x03 * 64 % 256) (output3 c) % 256 ≡ c
third_byte b c hc =
    let shifted : bit_and (output2 b c) 0x03 * 64 % 256 ≡ c / 64 * 64 =
      omega (arith, hc, bit_and_three (output2 b c), bit_and_fifteen b) in
    let low : output3 c ≡ c % 64 = bit_and_sixty_three c in
    rw (shifted, low, or_low 6 (c % 64) (c / 64) (omega arith)) (omega (arith, hc))
