-- ===== src/Crc32c/Masking.antt =====
-- Mask and Unmask of util/crc32c.h, one after the other.
use terp_builder.Base.{ℕ, ◌+◌, ◌-◌, ◌*◌, ◌/◌, ◌%◌, ◌^◌, ◌<◌, ◌≡◌, ◌∙◌, arith, bit_or}
use terp_builder.Base.Bits.{bit_or_disjoint}
use terp_builder.Crc32c.{mask_delta, mask, unmask}

-- The two parts of a rotation share no bit.
rotate_right :
    (crc : ℕ)
    → crc < 2 ^ 32
    → bit_or (crc / 2 ^ 15) (crc * 2 ^ 17 % 2 ^ 32) ≡ crc / 2 ^ 15 + crc % 2 ^ 15 * 2 ^ 17
rotate_right crc h =
    let e : crc * 2 ^ 17 % 2 ^ 32 ≡ crc % 2 ^ 15 * 2 ^ 17 = omega arith in
    rw e (bit_or_disjoint 17 (crc / 2 ^ 15) (crc % 2 ^ 15) (omega arith))

rotate_left :
    (crc : ℕ)
    → crc < 2 ^ 32
    → bit_or (crc / 2 ^ 17) (crc * 2 ^ 15 % 2 ^ 32) ≡ crc / 2 ^ 17 + crc % 2 ^ 17 * 2 ^ 15
rotate_left crc h =
    let e : crc * 2 ^ 15 % 2 ^ 32 ≡ crc % 2 ^ 17 * 2 ^ 15 = omega arith in
    rw e (bit_or_disjoint 15 (crc / 2 ^ 17) (crc % 2 ^ 17) (omega arith))

masked-back : (r : ℕ) → r < 2 ^ 32 → ((r + mask_delta) % 2 ^ 32 + 2 ^ 32 - mask_delta) % 2 ^ 32 ≡ r
masked-back r h = omega arith

back-masked : (r : ℕ) → r < 2 ^ 32 → ((r + 2 ^ 32 - mask_delta) % 2 ^ 32 + mask_delta) % 2 ^ 32 ≡ r
back-masked r h = omega arith

-- On checksums below 2^32, Unmask undoes Mask, and Mask undoes Unmask.
pub unmask-mask : (crc : ℕ) → crc < 2 ^ 32 → (unmask (mask crc) ≡ crc) × (mask (unmask crc) ≡ crc)
unfolding mask unmask
unmask-mask crc h = (first, second)
  where
    right : ℕ
    right = crc / 2 ^ 15 + crc % 2 ^ 15 * 2 ^ 17

    first : unmask (mask crc) ≡ crc
    first =
        rw (rotate_right crc h, masked-back right (omega arith))
          (rotate_left right (omega arith) ∙ omega arith)

    turned : ℕ
    turned = (crc + 2 ^ 32 - mask_delta) % 2 ^ 32

    left : ℕ
    left = turned / 2 ^ 17 + turned % 2 ^ 17 * 2 ^ 15

    turned-again : left / 2 ^ 15 + left % 2 ^ 15 * 2 ^ 17 ≡ turned
    turned-again = omega arith

    second : mask (unmask crc) ≡ crc
    second =
        rw (rotate_left turned (omega arith), rotate_right left (omega arith), turned-again)
          (back-masked crc h)

pub mask-lt : (crc : ℕ) → mask crc < 2 ^ 32
unfolding mask
mask-lt crc = omega arith
