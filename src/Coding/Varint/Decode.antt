-- ===== src/Coding/Varint/Decode.antt =====
-- The decoding loop on any input, well formed or not.
use terp_builder.Base.{ℕ, ◌+◌, ◌*◌, ◌%◌, ◌^◌, ◌≤◌, ◌<◌, ◌≡◌, refl, ap, ◌∙◌, inl, inr, arith}
use terp_builder.Base.{List, [], ◌∷◌, ◌++◌, length, All, some, none, bit_or, bit_and}
use terp_builder.Base.{leb, ◌==◌, Bool-cases}
use terp_builder.Base.Bits.{bit_or-lt, zero-bit_or}
use terp_builder.Coding.Fixed.RoundTrip.{IsByte}
use terp_builder.Coding.Varint.{varint_loop, get_varint32_ptr, get_varint32_ptr_fallback}
use terp_builder.Coding.Varint.{get_varint32, get_varint64, get_varint64_ptr}
use terp_builder.Base.{sym, ◌⊎◌, Option-cases}

module _ (last width : ℕ) where
  -- One round of the loop.
  abbrev joined : ℕ → ℕ → ℕ → ℕ
  joined byte shift result = bit_or result (bit_and byte 127 * 2 ^ shift % 2 ^ width)

  -- What the loop returned: it took `front` off the input, at most last / 7 + 1 bytes in all, of
  -- which j were taken before.
  abbrev pub Took : List ℕ → ℕ → ℕ → List ℕ → Type 0
  Took src j v rest =
      (front : List ℕ) × (src ≡ front ++ rest)
      × (1 ≤ length front)
      × (7 * (length front + j) ≤ last + 7)
      × (v < 2 ^ width)

  module _ (pos : 0 < 2 ^ width) where
    word : (result x : ℕ) → result < 2 ^ width → bit_or result (x % 2 ^ width) < 2 ^ width
    word result x h = bit_or-lt width result (x % 2 ^ width) h (omega arith)

    pub varint_loop-Took :
        (src : List ℕ) (shift result j v : ℕ) (rest : List ℕ)
        → shift ≡ 7 * j
        → result < 2 ^ width
        → varint_loop last width src shift result ≡ some (v, rest)
        → Took src j v rest
    unfolding varint_loop
    varint_loop-Took [] shift result j v rest hs hr e = absurd (cc)
    varint_loop-Took (b ∷ p) shift result j v rest hs hr e = elim (Bool-cases (leb shift last)) [
      | inr over ↦ absurd (ground arith)
      | inl within ↦ elim (Bool-cases (bit_and b 128 == 0)) [
        | inl done ↦ (
          b ∷ [],
          ground arith,
          omega arith,
          ground arith,
          ground (arith, word result (b * 2 ^ shift) hr),
        )
        | inr more ↦
            let (front, e', some_bytes, few, small) =
              varint_loop-Took p (shift + 7) (joined b shift result) (j + 1) v rest (omega arith)
                (word result (bit_and b 127 * 2 ^ shift) hr) (ground arith) in
            (b ∷ front, ap (λ l. b ∷ l) e', omega arith, omega arith, small)
      ]
    ]

  -- The loop does not look past the number.
  pub varint_loop-append :
      (src tail : List ℕ) (shift result v : ℕ) (rest : List ℕ)
      → varint_loop last width src shift result ≡ some (v, rest)
      → varint_loop last width (src ++ tail) shift result ≡ some (v, rest ++ tail)
  unfolding varint_loop
  varint_loop-append [] tail shift result v rest e = cc
  varint_loop-append (b ∷ p) tail shift result v rest e =
      ground (arith, varint_loop-append p tail (shift + 7) (joined b shift result) v rest)

pub get_varint32_ptr-byte :
    (b : ℕ) (p : List ℕ) → IsByte b → get_varint32_ptr (b ∷ p) ≡ get_varint32_ptr_fallback (b ∷ p)
unfolding get_varint32_ptr varint_loop
get_varint32_ptr-byte b p h = ground (arith, zero-bit_or (b * 2 ^ 0 % 2 ^ 32))

-- On bytes, the inlined first test of GetVarint32Ptr changes nothing: it returns what its fallback
-- would.
pub get_varint32_ptr-eq-fallback :
    (p : List ℕ) → All IsByte p → get_varint32_ptr p ≡ get_varint32_ptr_fallback p
unfolding get_varint32_ptr
get_varint32_ptr-eq-fallback [] h = refl
get_varint32_ptr-eq-fallback (b ∷ p) h = get_varint32_ptr-byte b p h.0

-- On an input of bytes, what GetVarint32 stores fits 32 bits, and it takes one to five bytes off the front of the input;
-- where it fails the input stays.
pub get_varint32_took :
    (input : List ℕ)
    → All IsByte input
    → ((v : ℕ) × (front : List ℕ) × (rest : List ℕ) × (get_varint32 input ≡ (some v, rest))
        × (input ≡ front ++ rest)
        × (1 ≤ length front)
        × (length front ≤ 5)
        × (v < 2 ^ 32))
      ⊎ (get_varint32 input ≡ (none, input))
unfolding get_varint32
get_varint32_took input h = elim (Option-cases (get_varint32_ptr input)) [
  | inl e ↦ inr (rw e)
  | inr ((v, rest), e) ↦
      let (front, e', some_bytes, few, small) =
        varint_loop-Took 28 32 (omega arith) input 0 0 0 v rest (omega arith) (omega arith)
          (sym (get_varint32_ptr-eq-fallback input h) ∙ e) in
      inl (v, front, rest, rw e, e', some_bytes, omega arith, small)
]

-- What GetVarint64 stores fits 64 bits, and it takes one to ten bytes off the front of the input;
-- where it fails the input stays.
pub get_varint64_took :
    (input : List ℕ)
    → ((v : ℕ) × (front : List ℕ) × (rest : List ℕ) × (get_varint64 input ≡ (some v, rest))
        × (input ≡ front ++ rest)
        × (1 ≤ length front)
        × (length front ≤ 10)
        × (v < 2 ^ 64))
      ⊎ (get_varint64 input ≡ (none, input))
unfolding get_varint64
get_varint64_took input = elim (Option-cases (get_varint64_ptr input)) [
  | inl e ↦ inr (rw e)
  | inr ((v, rest), e) ↦
      let (front, e', some_bytes, few, small) =
        varint_loop-Took 63 64 (omega arith) input 0 0 0 v rest (omega arith) (omega arith) e in
      inl (v, front, rest, rw e, e', some_bytes, omega arith, small)
]
