-- ===== src/Coding/Varint/RoundTrip.antt =====
-- Reading back what the varint encoders wrote.
use native.Mathlib.Nat.{div-add-mod, mod-eq_of_lt}
use native.Mathlib.Numerals.{towards_suc}
use terp_builder.Base.{
  ℕ, zero, suc, ◌+◌, ◌*◌, ◌/◌, ◌%◌, ◌^◌, ◌≤◌, ◌<◌, ◌≡◌, refl, ap, ◌∙◌, inl, inr,
}
use terp_builder.Base.{arith, List, [], ◌∷◌, ◌++◌, some, none, Option-cases, append-nil}
use terp_builder.Base.{length-append, bit_and}
use terp_builder.Base.Bits.{bit_or_disjoint, bit_and_top, bit_and_ones_seven}
use terp_builder.Coding.Varint.{put_varint32, put_varint64}
use terp_builder.Coding.Varint.{varint_loop, get_varint32, get_varint64, get_varint32_ptr}
use terp_builder.Coding.Varint.{get_varint64_ptr}
use terp_builder.Coding.Varint.Encode.{groups, encode_varint32-groups, encode_varint64-groups}
use terp_builder.Coding.Fixed.RoundTrip.{IsByte}
use terp_builder.Base.{sym, Bool-cases, ltb}
use terp_builder.Coding.Varint.{advance, get_varint32_ptr_fallback}
use terp_builder.Coding.Varint.Decode.{varint_loop-append, get_varint32_ptr-byte}

module _ (last width : ℕ) where
  last_byte :
      (v shift acc : ℕ) (rest : List ℕ)
      → v < 128
      → acc < 2 ^ shift
      → v * 2 ^ shift < 2 ^ width
      → shift ≤ last
      → varint_loop last width (v ∷ rest) shift acc ≡ some (acc + v * 2 ^ shift, rest)
  unfolding varint_loop
  last_byte v shift acc rest hv ha fits hs =
      ground (arith, bit_and_top v, mod-eq_of_lt fits, bit_or_disjoint shift acc v)

  low_group : (g : ℕ) → g < 128 → bit_and (g + 128) 127 ≡ g
  low_group g hg = omega (arith, bit_and_ones_seven (g + 128))

  inner_byte :
      (g shift acc : ℕ) (rest : List ℕ)
      → g < 128
      → acc < 2 ^ shift
      → g * 2 ^ shift < 2 ^ width
      → shift ≤ last
      → varint_loop last width ((g + 128) ∷ rest) shift acc
        ≡ varint_loop last width rest (shift + 7) (acc + g * 2 ^ shift)
  unfolding varint_loop
  inner_byte g shift acc rest hg ha fits hs = ground (
    arith,
    bit_and_top (g + 128),
    ap (λ (t : ℕ). t * 2 ^ shift % 2 ^ width) (low_group g hg),
    mod-eq_of_lt fits,
    bit_or_disjoint shift acc g,
  )

  shift_seven : (s : ℕ) → 2 ^ (s + 7) ≡ 128 * 2 ^ s
  shift_seven s = simp towards_suc (omega arith)

  split_group : (v s : ℕ) → v * 2 ^ s ≡ v % 128 * 2 ^ s + v / 128 * 2 ^ (s + 7)
  split_group v s = omega (
    arith,
    ap (λ (t : ℕ). t * 2 ^ s) (div-add-mod v 128),
    ap (λ (t : ℕ). v / 128 * t) (shift_seven s),
  )

  room : (acc g t : ℕ) → acc < t → g < 128 → acc + g * t < 128 * t
  room acc g t ha hg = grind arith

  varint_loop-groups :
      (k v shift acc : ℕ) (rest : List ℕ)
      → v < 128 ^ suc k
      → acc < 2 ^ shift
      → v * 2 ^ shift < 2 ^ width
      → shift + 7 * k ≤ last
      → varint_loop last width (groups k v ++ rest) shift acc ≡ some (acc + v * 2 ^ shift, rest)
  varint_loop-groups zero v shift acc rest hv ha fits hs =
      last_byte v shift acc rest hv ha fits (omega arith)
  varint_loop-groups (suc k) v shift acc rest hv ha fits hs = ground (
    arith,
    last_byte v shift acc rest,
    split_group v shift,
    shift_seven shift,
    room acc (v % 128) (2 ^ shift),
    inner_byte (v % 128) shift acc (groups k (v / 128) ++ rest),
    varint_loop-groups k (v / 128) (shift + 7) (acc + v % 128 * 2 ^ shift) rest (omega arith),
  )

groups-head : (k v : ℕ) → v < 128 ^ suc k → (b : ℕ) × (t : List ℕ) × (groups k v ≡ b ∷ t) × IsByte b
groups-head zero v h = (v, [], refl, omega arith)
groups-head (suc k) v h = elim (Bool-cases (ltb v 128)) [
  | inl e ↦ (v, [], rw e, ground arith)
  | inr e ↦ (v % 128 + 128, groups k (v / 128), rw e, omega arith)
]

varint32_ptr-groups :
    (v : ℕ) (rest : List ℕ) → v < 2 ^ 32 → get_varint32_ptr (groups 4 v ++ rest) ≡ some (v, rest)
varint32_ptr-groups v rest h =
    let (b, t, e, byte) = groups-head 4 v (omega arith) in
    ap (λ l. get_varint32_ptr (l ++ rest)) e
    ∙ get_varint32_ptr-byte b (t ++ rest) byte
    ∙ ap (λ l. get_varint32_ptr_fallback (l ++ rest)) (sym e)
    ∙ unfold get_varint32_ptr_fallback in
      varint_loop-groups 28 32 4 v 0 0 rest (omega arith) (omega arith) (omega arith) (omega arith)
      ∙ ap (λ u. some (u, rest)) (omega arith)

varint64_ptr-groups :
    (v : ℕ) (rest : List ℕ) → v < 2 ^ 64 → get_varint64_ptr (groups 9 v ++ rest) ≡ some (v, rest)
unfolding get_varint64_ptr
varint64_ptr-groups v rest h =
    varint_loop-groups 63 64 9 v 0 0 rest (omega arith) (omega arith) (omega arith) (omega arith)
    ∙ ap (λ u. some (u, rest)) (omega arith)

-- GetVarint32 reads back the uint32 that PutVarint32 appended, and advances past it.
pub get_varint32-put_varint32 :
    (v : ℕ) (rest : List ℕ) → v < 2 ^ 32 → get_varint32 (put_varint32 [] v ++ rest) ≡ (some v, rest)
unfolding put_varint32 get_varint32
get_varint32-put_varint32 v rest h =
    rw (encode_varint32-groups v h)
      (ap (advance (groups 4 v ++ rest)) (varint32_ptr-groups v rest h))

pub get_varint32_ptr-put_varint32 :
    (v : ℕ) (rest : List ℕ)
    → v < 2 ^ 32
    → get_varint32_ptr (put_varint32 [] v ++ rest) ≡ some (v, rest)
unfolding put_varint32
get_varint32_ptr-put_varint32 v rest h =
    rw (encode_varint32-groups v h) (varint32_ptr-groups v rest h)

-- GetVarint64 reads back the uint64 that PutVarint64 appended, and advances past it.
pub get_varint64-put_varint64 :
    (v : ℕ) (rest : List ℕ) → v < 2 ^ 64 → get_varint64 (put_varint64 [] v ++ rest) ≡ (some v, rest)
unfolding get_varint64 put_varint64
get_varint64-put_varint64 v rest h =
    rw (encode_varint64-groups v h)
      (ap (advance (groups 9 v ++ rest)) (varint64_ptr-groups v rest h))

-- GetVarint64 fails on every proper prefix of what PutVarint64 appended for a uint64, and leaves it.
pub get_varint64_truncated :
    (v x : ℕ) (front back : List ℕ)
    → v < 2 ^ 64
    → put_varint64 [] v ≡ front ++ (x ∷ back)
    → get_varint64 front ≡ (none, front)
unfolding get_varint64 put_varint64 get_varint64_ptr
get_varint64_truncated v x front back h e = elim (Option-cases (get_varint64_ptr front)) [
  | inl e' ↦ ap (advance front) e'
  | inr ((u, rest), e') ↦ absurd (
      ground (
        arith,
        whole,
        varint_loop-append 63 64 front (x ∷ back) 0 0 u rest e',
        length-append rest (x ∷ back),
      ))
]
  where
    whole : get_varint64_ptr (front ++ (x ∷ back)) ≡ some (v, [])
    whole = rw (append-nil, ← encode_varint64-groups v h, e) at (varint64_ptr-groups v [] h)
