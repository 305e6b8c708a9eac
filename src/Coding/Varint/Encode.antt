-- ===== src/Coding/Varint/Encode.antt =====
-- What the encoders write, in plain arithmetic.
use mathlib.Core.WellFounded.{Acc}
use terp_builder.Base.{ℕ, zero, suc, ◌+◌, ◌/◌, ◌%◌, ◌^◌, ◌≤◌, ◌<◌, ◌≡◌, sym, ◌∙◌, arith}
use terp_builder.Base.{List, [], ◌∷◌, length, All, ltb, if◌then◌else◌}
use terp_builder.Base.Bits.{bit_or_top}
use terp_builder.Coding.Fixed.RoundTrip.{IsByte}
use terp_builder.Coding.Varint.{encode_varint32, encode_loop, encode_varint64}
use terp_builder.Coding.Varint.{length_loop, varint_length}

-- The groups of seven bits of v, lowest first, all but the last marked by the top bit: at most
-- k + 1 of them, enough for v below 128 ^ (k + 1).
abbrev pub groups : ℕ → ℕ → List ℕ
groups zero v = v ∷ []
groups (suc k) v =
    let rest = groups k (v / 128) in if ltb v 128 then v ∷ [] else (v % 128 + 128) ∷ rest

pub encode_varint32-groups : (v : ℕ) → v < 2 ^ 32 → encode_varint32 v ≡ groups 4 v
unfolding encode_varint32
encode_varint32-groups v h =
    ground (
      arith,
      bit_or_top v,
      bit_or_top (v / 2 ^ 7),
      bit_or_top (v / 2 ^ 14),
      bit_or_top (v / 2 ^ 21),
    )

encode_loop-groups : (k v : ℕ) (w : Acc ◌<◌ v) → v < 128 ^ suc k → encode_loop v w ≡ groups k v
unfolding encode_loop
encode_loop-groups zero v (Acc.intro _ smaller) h = ground arith
encode_loop-groups (suc k) v (Acc.intro _ smaller) h =
    grind (
      arith,
      bit_or_top v,
      λ (w : Acc ◌<◌ (v / 128)). encode_loop-groups k (v / 128) w (omega arith),
    )

pub encode_varint64-groups : (v : ℕ) → v < 2 ^ 64 → encode_varint64 v ≡ groups 9 v
unfolding encode_varint64
encode_varint64-groups v h = encode_loop-groups 9 v _ (omega arith)

length_loop-groups :
    (k v : ℕ) (w : Acc ◌<◌ v) (len : ℕ)
    → v < 128 ^ suc k
    → length_loop v w len + 1 ≡ len + length (groups k v)
unfolding length_loop
length_loop-groups zero v (Acc.intro _ smaller) len h = ground arith
length_loop-groups (suc k) v (Acc.intro _ smaller) len h =
    grind
      (arith, λ (w : Acc ◌<◌ (v / 128)). length_loop-groups k (v / 128) w (len + 1) (omega arith))

pub length-groups : (k v : ℕ) → (1 ≤ length (groups k v)) × (length (groups k v) ≤ k + 1)
length-groups zero v = omega arith
length-groups (suc k) v = ground (arith, length-groups k (v / 128))

pub groups-IsByte : (k v : ℕ) → v < 128 ^ suc k → All IsByte (groups k v)
groups-IsByte zero v h = omega arith
groups-IsByte (suc k) v h = ground (arith, groups-IsByte k (v / 128) (omega arith))

-- On a uint64 VarintLength is the number of bytes that EncodeVarint64 writes, from 1 to 10.
pub varint_length-encode :
    (v : ℕ)
    → v < 2 ^ 64
    → (varint_length v ≡ length (encode_varint64 v))
      × (1 ≤ varint_length v)
      × (varint_length v ≤ 10)
unfolding varint_length
varint_length-encode v h =
    rw (encode_varint64-groups v h)
      (omega (arith, length_loop-groups 9 v _ 1 (omega arith), length-groups 9 v))

groups-short : (k v : ℕ) → v < 128 ^ suc k → groups (suc k) v ≡ groups k v
groups-short zero v h = ground arith
groups-short (suc k) v h = ground (arith, groups-short k (v / 128) (omega arith))

-- On a uint32 the unrolled EncodeVarint32 writes what the loop of EncodeVarint64 writes.
pub encode_varint32-eq-encode_varint64 :
    (v : ℕ) → v < 2 ^ 32 → encode_varint32 v ≡ encode_varint64 v
encode_varint32-eq-encode_varint64 v h =
    rw (encode_varint32-groups v h, encode_varint64-groups v (omega arith))
      (sym (groups-short 4 v (omega arith))
        ∙ sym (groups-short 5 v (omega arith))
        ∙ sym (groups-short 6 v (omega arith))
        ∙ sym (groups-short 7 v (omega arith))
        ∙ sym (groups-short 8 v (omega arith)))
