-- ===== src/Coding/Shrinks.antt =====
-- How much of the input the decoding routines leave.
use terp_builder.Base.{
  ℕ, ◌+◌, ◌*◌, ◌^◌, ◌%◌, ◌≤◌, ◌<◌, ◌≡◌, refl, ap, arith, Option, none, some, Option-cases, inl, inr,
}
use terp_builder.Base.{List, [], ◌∷◌, length, length-drop, bit_and, bit_or}
use terp_builder.Slice.{Slice}
use terp_builder.Coding.Varint.{varint_loop, get_varint32_ptr, get_varint32_ptr_fallback}
use terp_builder.Coding.Varint.{get_varint32, get_varint64, get_varint64_ptr}
use terp_builder.Coding.Prefixed.{get_length_prefixed_slice, sized}

module _ (last width : ℕ) where
  varint_loop-shrinks :
      (src : List ℕ) (shift result v : ℕ) (rest : List ℕ)
      → varint_loop last width src shift result ≡ some (v, rest)
      → length rest < length src
  unfolding varint_loop
  varint_loop-shrinks [] shift result v rest e = absurd (cc)
  varint_loop-shrinks (b ∷ p) shift result v rest e = ground (
    arith,
    varint_loop-shrinks p (shift + 7) (bit_or result (bit_and b 127 * 2 ^ shift % 2 ^ width)) v
        rest,
  )

get_varint32_ptr-shrinks :
    (src : List ℕ) (v : ℕ) (rest : List ℕ)
    → get_varint32_ptr src ≡ some (v, rest)
    → length rest < length src
unfolding get_varint32_ptr get_varint32_ptr_fallback
get_varint32_ptr-shrinks [] v rest e = varint_loop-shrinks 28 32 [] 0 0 v rest e
get_varint32_ptr-shrinks (b ∷ p) v rest e =
    ground (arith, varint_loop-shrinks 28 32 (b ∷ p) 0 0 v rest)

pub get_varint32-shrinks :
    (input : Slice) (v : ℕ) (rest : Slice)
    → get_varint32 input ≡ (some v, rest)
    → length rest < length input
unfolding get_varint32
get_varint32-shrinks input v rest e = elim (Option-cases (get_varint32_ptr input)) [
  | inl missing ↦ absurd (cc)
  | inr ((v', q), found) ↦ ground (arith, get_varint32_ptr-shrinks input v' q)
]

pub get_varint64-shrinks :
    (input : Slice) (v : ℕ) (rest : Slice)
    → get_varint64 input ≡ (some v, rest)
    → length rest < length input
unfolding get_varint64 get_varint64_ptr
get_varint64-shrinks input v rest e = elim (Option-cases (varint_loop 63 64 input 0 0)) [
  | inl missing ↦ absurd (cc)
  | inr ((v', q), found) ↦ ground (arith, varint_loop-shrinks 63 64 input 0 0 v' q)
]

sized-shrinks :
    (o : Option ℕ) (input s rest : Slice)
    → sized (o, input) ≡ (some s, rest)
    → (len : ℕ) × (o ≡ some len) × (length rest ≤ length input)
unfolding sized
sized-shrinks none input s rest e = absurd (cc)
sized-shrinks (some len) input s rest e = (len, refl, ground (arith, length-drop len input))

pub get_length_prefixed_slice-shrinks :
    (input s rest : Slice)
    → get_length_prefixed_slice input ≡ (some s, rest)
    → length rest < length input
unfolding get_length_prefixed_slice
get_length_prefixed_slice-shrinks input s rest e =
    let (o, p) = get_varint32 input in
    let (len, found, le) = sized-shrinks o p s rest e in
    let lt = get_varint32-shrinks input len p (ap (λ x. (x, p)) found) in omega arith
