-- ===== src/Hash/Host.antt =====
-- Hash on the two kinds of host, and its range.
use native.Mathlib.Nat.{div-le_self}
use terp_builder.Base.{ℕ, ◌+◌, ◌*◌, ◌/◌, ◌%◌, ◌^◌, ◌<◌, ◌≡◌, refl, arith, Bool, true, false}
use terp_builder.Base.{[], ◌∷◌, or_zero, All}
use terp_builder.Base.Digits.{bit_xor-lt}
use terp_builder.Slice.{Slice}
use terp_builder.Coding.Fixed.{decode_fixed32, le_value}
use terp_builder.Coding.Fixed.RoundTrip.{IsByte, decode_fixed32_le}
use terp_builder.Hash.{hash, four_at_a_time, remaining, stir, m, r}

stir-lt : (s h w : ℕ) → stir s h w < 2 ^ 32
unfolding stir
stir-lt s h w =
    let product : ℕ = (h + w) % 2 ^ 32 * m % 2 ^ 32 in
    bit_xor-lt 32 product (product / 2 ^ s) (omega arith)
      (omega (arith, div-le_self product (2 ^ s)))

remaining-lt : (h : ℕ) (t : Slice) → h < 2 ^ 32 → remaining h t < 2 ^ 32
unfolding remaining
remaining-lt h [] p = p
remaining-lt h (a ∷ []) p = stir-lt r h a
remaining-lt h (a ∷ b ∷ []) p = stir-lt r _ a
remaining-lt h (a ∷ b ∷ c ∷ rest) p = stir-lt r _ a

four-lt : (little : Bool) (s : Slice) (h : ℕ) → h < 2 ^ 32 → four_at_a_time little h s < 2 ^ 32
unfolding four_at_a_time
four-lt little (a ∷ b ∷ c ∷ d ∷ rest) h p =
    let w = or_zero (decode_fixed32 little (a ∷ b ∷ c ∷ d ∷ rest)) in
    four-lt little rest (stir 16 h w) (stir-lt 16 h w)
four-lt little (a ∷ b ∷ c ∷ []) h p = remaining-lt h (a ∷ b ∷ c ∷ []) p
four-lt little (a ∷ b ∷ []) h p = remaining-lt h (a ∷ b ∷ []) p
four-lt little (a ∷ []) h p = remaining-lt h (a ∷ []) p
four-lt little [] h p = remaining-lt h [] p

four-host : (s : Slice) (h : ℕ) → All IsByte s → four_at_a_time true h s ≡ four_at_a_time false h s
unfolding four_at_a_time
four-host (a ∷ b ∷ c ∷ d ∷ rest) h p =
    let word = le_value (a ∷ b ∷ c ∷ d ∷ []) in
    rw
      (
        decode_fixed32_le a b c d p.0 p.1.0 p.1.1.0 p.1.1.1.0 true rest,
        decode_fixed32_le a b c d p.0 p.1.0 p.1.1.0 p.1.1.1.0 false rest,
      )
      (four-host rest (stir 16 h word) p.1.1.1.1)
four-host (a ∷ b ∷ c ∷ []) h p = refl
four-host (a ∷ b ∷ []) h p = refl
four-host (a ∷ []) h p = refl
four-host [] h p = refl

-- The hash of bytes is a uint32, and the same on either kind of host.
pub hash-host :
    (s : Slice) (seed : ℕ)
    → All IsByte s
    → (hash true s seed ≡ hash false s seed) × (hash true s seed < 2 ^ 32)
unfolding hash
hash-host s seed p = (four-host s _ p, four-lt true s _ (omega arith))
