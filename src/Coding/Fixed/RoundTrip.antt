-- ===== src/Coding/Fixed/RoundTrip.antt =====
-- Reading back what the fixed-width routines wrote.
use terp_builder.Base.{length, ℕ, ◌+◌, ◌*◌, ◌%◌, ◌^◌, ◌<◌, ◌≤◌, ◌≡◌, refl, ap, ◌∙◌, arith}
use terp_builder.Base.{Bool, true, false, List, [], ◌∷◌, ◌++◌, some, bit_or}
use terp_builder.Base.Bits.{bit_or_disjoint, bit_or_comm}
use terp_builder.Coding.Fixed.{le_value, host_value}
use terp_builder.Coding.Fixed.{encode_fixed32, encode_fixed64, decode_fixed32, decode_fixed64}
use terp_builder.Coding.Fixed.Portable.{encode_fixed32_le, encode_fixed64_le}

abbrev pub IsByte : ℕ → Type 0
IsByte b = b < 256

module _ (a b c d : ℕ) (ha : IsByte a) (hb : IsByte b) (hc : IsByte c) (hd : IsByte d) where
  -- The four shifted bytes share no digit.
  join_bytes :
      bit_or (bit_or (bit_or a (b * 2 ^ 8 % 2 ^ 32)) (c * 2 ^ 16 % 2 ^ 32)) (d * 2 ^ 24 % 2 ^ 32)
      ≡ le_value (a ∷ b ∷ c ∷ d ∷ [])
  join_bytes = ground (
    arith,
    bit_or_disjoint 8 a b,
    bit_or_disjoint 16 (a + b * 2 ^ 8) c,
    bit_or_disjoint 24 (a + b * 2 ^ 8 + c * 2 ^ 16) d,
  )

  -- On bytes DecodeFixed32 gives the same number on either kind of host.
  pub decode_fixed32_le :
      (little : Bool) (rest : List ℕ)
      → decode_fixed32 little (a ∷ b ∷ c ∷ d ∷ rest) ≡ some (le_value (a ∷ b ∷ c ∷ d ∷ []))
  unfolding decode_fixed32 host_value
  decode_fixed32_le true rest = refl
  decode_fixed32_le false rest = ap some join_bytes

join_halves :
    (lo hi : ℕ) → lo < 2 ^ 32 → hi < 2 ^ 32 → bit_or (hi * 2 ^ 32 % 2 ^ 64) lo ≡ lo + hi * 2 ^ 32
join_halves lo hi h k = ground (arith, bit_or_comm (hi * 2 ^ 32) lo, bit_or_disjoint 32 lo hi)

le_value-lt :
    (a b c d : ℕ)
    → IsByte a
    → IsByte b
    → IsByte c
    → IsByte d
    → le_value (a ∷ b ∷ c ∷ d ∷ []) < 2 ^ 32
le_value-lt a b c d ha hb hc hd = omega arith

-- On bytes DecodeFixed64 gives the same number on either kind of host.
pub decode_fixed64_le :
    (little : Bool) (a b c d e f g h : ℕ) (rest : List ℕ)
    → IsByte a
    → IsByte b
    → IsByte c
    → IsByte d
    → IsByte e
    → IsByte f
    → IsByte g
    → IsByte h
    → decode_fixed64 little (a ∷ b ∷ c ∷ d ∷ e ∷ f ∷ g ∷ h ∷ rest)
      ≡ some (le_value (a ∷ b ∷ c ∷ d ∷ e ∷ f ∷ g ∷ h ∷ []))
unfolding decode_fixed64 host_value
decode_fixed64_le true a b c d e f g h rest ha hb hc hd he hf hg hh = refl
decode_fixed64_le false a b c d e f g h rest ha hb hc hd he hf hg hh =
    rw (decode_fixed32_le a b c d ha hb hc hd, decode_fixed32_le e f g h he hf hg hh)
      (ap some (
        join_halves _ _ (le_value-lt a b c d ha hb hc hd) (le_value-lt e f g h he hf hg hh)
        ∙ omega arith))

-- DecodeFixed32 reads back the uint32 that EncodeFixed32 wrote, on either kind of host, whatever
-- follows it.
pub decode_fixed32-encode_fixed32 :
    (little : Bool) (v : ℕ) (rest : List ℕ)
    → v < 2 ^ 32
    → decode_fixed32 little (encode_fixed32 little v ++ rest) ≡ some v
decode_fixed32-encode_fixed32 little v rest h = rw (encode_fixed32_le) (
    decode_fixed32_le _ _ _ _ (omega arith) (omega arith) (omega arith) (omega arith) little rest
    ∙ ap some (omega arith))

-- DecodeFixed64 reads back the uint64 that EncodeFixed64 wrote, on either kind of host, whatever
-- follows it.
pub decode_fixed64-encode_fixed64 :
    (little : Bool) (v : ℕ) (rest : List ℕ)
    → v < 2 ^ 64
    → decode_fixed64 little (encode_fixed64 little v ++ rest) ≡ some v
decode_fixed64-encode_fixed64 little v rest h = rw (encode_fixed64_le) (
    decode_fixed64_le little _ _ _ _ _ _ _ _ rest (omega arith) (omega arith) (omega arith)
      (omega arith) (omega arith) (omega arith) (omega arith) (omega arith)
    ∙ ap some (omega arith))

pub decode_fixed32_total :
    (little : Bool) (p : List ℕ) → 4 ≤ length p → (n : ℕ) × (decode_fixed32 little p ≡ some n)
unfolding decode_fixed32
decode_fixed32_total little (a ∷ b ∷ c ∷ d ∷ rest) h = (_, refl)
decode_fixed32_total little [] h = absurd (omega arith)
decode_fixed32_total little (a ∷ []) h = absurd (omega arith)
decode_fixed32_total little (a ∷ b ∷ []) h = absurd (omega arith)
decode_fixed32_total little (a ∷ b ∷ c ∷ []) h = absurd (omega arith)
