-- ===== src/Base64/Decode.antt =====
-- f_b64_pton of fbase64.c on what f_b64_ntop writes.
pub mod Bytes
pub mod Steps
use terp_builder.Base.{
  ℕ, ◌+◌, ◌*◌, ◌%◌, ◌≤◌, ◌<◌, ◌≡◌, refl, sym, ap, ap₂, ◌∙◌, arith, inl, inr, bit_and,
}
use terp_builder.Base.{
  none, some, List, [], ◌∷◌, ◌++◌, All, length, ltb, if◌then◌else◌, ◌>>=◌, Bool-cases, append_assoc,
  length-append, some_inj,
}
use terp_builder.Base.Bits.{bit_and_three, bit_and_fifteen, bit_and_sixty_three}
use terp_builder.Coding.Fixed.RoundTrip.{IsByte}
use terp_builder.Base64.{
  Decoder, step, pton, pton_loop, ntop, digit, pad64, output0, output1, output2, output3,
}
use terp_builder.Base64.Table.{pton_loop-digit}
use terp_builder.Base64.Encode.{encoded, quads, ntop-encoded}
use terp_builder.Base64.Decode.Bytes.{first_byte, second_byte, third_byte}
use terp_builder.Base64.Decode.Steps.{
  get_or-front, decoder, first_step, second_step, third_step, fourth_step,
}

-- One digit read.
read_digit :
    (targsize v : ℕ) (src : List ℕ) (d d' : Decoder)
    → v < 64
    → step targsize v d ≡ some d'
    → pton_loop targsize (digit v ∷ src) d ≡ pton_loop targsize src d'
read_digit targsize v src d d' h e =
    pton_loop-digit targsize v src d h ∙ ap (λ o. o >>= pton_loop targsize src) e

module _ (targsize a b : ℕ) (front : List ℕ) (ha : IsByte a) (hb : IsByte b) where
  -- Two digits read: one byte, and the high half of the next.
  two_digits :
      (src : List ℕ) (x y : ℕ) (l : List ℕ)
      → length front + 1 < targsize
      → pton_loop targsize
          (digit (output0 a) ∷ digit (output1 a b) ∷ src)
          (decoder (front ++ (x ∷ y ∷ l)) (length front) 0)
        ≡ pton_loop targsize src (
            decoder (front ++ (a ∷ bit_and (output1 a b) 0x0f * 16 % 256 ∷ l)) (length front + 1) 2)
  two_digits src x y l room =
      read_digit targsize (output0 a) _ _ _ (omega (arith, ha))
        (first_step targsize (output0 a) front (y ∷ l) x (omega (arith, room)))
      ∙ read_digit targsize (output1 a b) _ _ _ (omega (arith, ha, hb, bit_and_three a))
          (second_step targsize (output1 a b) front l (output0 a * 4 % 256) y room)
      ∙ ap
          (λ v. pton_loop targsize src (
            decoder (front ++ (v ∷ bit_and (output1 a b) 0x0f * 16 % 256 ∷ l)) (length front + 1)
              2))
          (first_byte a b ha hb)

  -- A third: two bytes, and the high quarter of the next.
  three_digits :
      (src : List ℕ) (c x y z : ℕ) (l : List ℕ)
      → IsByte c
      → length front + 2 < targsize
      → pton_loop targsize
          (digit (output0 a) ∷ digit (output1 a b) ∷ digit (output2 b c) ∷ src)
          (decoder (front ++ (x ∷ y ∷ z ∷ l)) (length front) 0)
        ≡ pton_loop targsize src (
            decoder
              (front ++ (a ∷ b ∷ bit_and (output2 b c) 0x03 * 64 % 256 ∷ l))
              (length front + 2)
              3)
  three_digits src c x y z l hc room =
      two_digits (digit (output2 b c) ∷ src) x y (z ∷ l) (omega (arith, room))
      ∙ read_digit targsize (output2 b c) _ _ _ (omega (arith, hb, hc, bit_and_fifteen b)) (
          third_step targsize (output2 b c) front l a (bit_and (output1 a b) 0x0f * 16 % 256) z
            room)
      ∙ ap
          (λ v. pton_loop targsize src (
            decoder (front ++ (a ∷ v ∷ bit_and (output2 b c) 0x03 * 64 % 256 ∷ l))
              (length front + 2) 3))
          (second_byte a b c hb hc)

  -- A fourth: three bytes.
  four_digits :
      (src : List ℕ) (c x y z : ℕ) (l : List ℕ)
      → IsByte c
      → length front + 2 < targsize
      → pton_loop targsize
          (digit (output0 a) ∷ digit (output1 a b) ∷ digit (output2 b c) ∷ digit (output3 c) ∷ src)
          (decoder (front ++ (x ∷ y ∷ z ∷ l)) (length front) 0)
        ≡ pton_loop targsize src (decoder (front ++ (a ∷ b ∷ c ∷ l)) (length front + 3) 0)
  four_digits src c x y z l hc room =
      three_digits (digit (output3 c) ∷ src) c x y z l hc room
      ∙ read_digit targsize (output3 c) _ _ _ (omega (arith, bit_and_sixty_three c)) (
          fourth_step targsize (output3 c) front l a b (bit_and (output2 b c) 0x03 * 64 % 256) room)
      ∙ ap (λ v. pton_loop targsize src (decoder (front ++ (a ∷ b ∷ v ∷ l)) (length front + 3) 0))
          (third_byte b c hc)

-- The padding is accepted where no bits slopped past the last byte.
two_padding :
    (targsize a : ℕ) (front l : List ℕ)
    → pton_loop targsize (pad64 ∷ pad64 ∷ []) (decoder (front ++ (a ∷ 0 ∷ l)) (length front + 1) 2)
      ≡ some (decoder (front ++ (a ∷ 0 ∷ l)) (length front + 1) 2)
unfolding pton_loop
two_padding targsize a front l = rw (get_or-front front (a ∷ 0 ∷ l) (length front + 1) 1 refl) refl

one_padding :
    (targsize a b : ℕ) (front l : List ℕ)
    → pton_loop targsize (pad64 ∷ []) (decoder (front ++ (a ∷ b ∷ 0 ∷ l)) (length front + 2) 3)
      ≡ some (decoder (front ++ (a ∷ b ∷ 0 ∷ l)) (length front + 2) 3)
unfolding pton_loop
one_padding targsize a b front l =
    rw (get_or-front front (a ∷ b ∷ 0 ∷ l) (length front + 2) 2 refl) refl

-- The bytes `src` are read from their text to the place behind `front`.
abbrev AreRead : ℕ → List ℕ → List ℕ → List ℕ → Type 0
AreRead targsize src front rest =
    (behind : List ℕ) × (state : ℕ) × (pton_loop targsize (encoded src)
        (decoder (front ++ rest) (length front) 0)
      ≡ some (decoder (front ++ (src ++ behind)) (length front + length src) state))

one_read :
    (targsize a x y : ℕ) (front l : List ℕ)
    → IsByte a
    → length front + 1 < targsize
    → AreRead targsize (a ∷ []) front (x ∷ y ∷ l)
one_read targsize a x y front l ha room = (
  0 ∷ l,
  2,
  two_digits targsize a 0 front ha (omega arith) (pad64 ∷ pad64 ∷ []) x y l room
      ∙ ap
          (λ v.
            pton_loop targsize (pad64 ∷ pad64 ∷ [])
              (decoder (front ++ (a ∷ v ∷ l)) (length front + 1) 2))
          (omega (arith, bit_and_fifteen (output1 a 0), bit_and_three a))
      ∙ two_padding targsize a front l,
)

two_read :
    (targsize a b x y z : ℕ) (front l : List ℕ)
    → IsByte a
    → IsByte b
    → length front + 2 < targsize
    → AreRead targsize (a ∷ b ∷ []) front (x ∷ y ∷ z ∷ l)
two_read targsize a b x y z front l ha hb room = (
  0 ∷ l,
  3,
  three_digits targsize a b front ha hb (pad64 ∷ []) 0 x y z l (omega arith) room
      ∙ ap
          (λ v.
            pton_loop targsize (pad64 ∷ [])
              (decoder (front ++ (a ∷ b ∷ v ∷ l)) (length front + 2) 3))
          (omega (arith, bit_and_three (output2 b 0), bit_and_fifteen b))
      ∙ one_padding targsize a b front l,
)

all_read :
    (targsize : ℕ) (src front rest : List ℕ)
    → All IsByte src
    → length src < length rest
    → length front + length src < targsize
    → AreRead targsize src front rest
unfolding pton_loop
all_read targsize [] front rest ok long room =
    (rest, 0, ap (λ i. some (decoder (front ++ rest) i 0)) (omega arith))
all_read targsize (a ∷ []) front (x ∷ y ∷ l) ok long room =
    one_read targsize a x y front l ok.0 (omega (arith, room))
all_read targsize (a ∷ b ∷ []) front (x ∷ y ∷ z ∷ l) ok long room =
    two_read targsize a b x y z front l ok.0 ok.1.0 (omega (arith, room))
all_read targsize (a ∷ b ∷ c ∷ src) front (x ∷ y ∷ z ∷ l) ok long room =
    let bytes : List ℕ = a ∷ b ∷ c ∷ [] in
    let (behind, state, run) =
      all_read targsize src (front ++ bytes) l ok.1.1.1 (omega (arith, long))
        (omega (arith, length-append front bytes, room)) in
    (
      behind,
      state,
      four_digits targsize a b front ok.0 ok.1.0 (encoded src) c x y z l ok.1.1.0
            (omega (arith, room))
          ∙ ap₂ (λ t i. pton_loop targsize (encoded src) (decoder t i 0))
              (sym (append_assoc front bytes l)) (omega (arith, length-append front bytes))
          ∙ run
          ∙ ap₂ (λ t i. some (decoder t i state)) (append_assoc front bytes (src ++ behind))
              (omega (arith, length-append front bytes)),
    )
all_read targsize (a ∷ src) front [] ok long room = absurd (omega (arith, long))
all_read targsize (a ∷ src) front (x ∷ []) ok long room = absurd (omega (arith, long))
all_read targsize (a ∷ b ∷ src) front (x ∷ y ∷ []) ok long room = absurd (omega (arith, long))

-- What f_b64_ntop writes for a string of bytes f_b64_pton reads back: into a buffer with room for
-- one byte more than the string it writes its bytes first, and returns their number.
pub pton-ntop :
    (src text buffer : List ℕ) (size targsize : ℕ)
    → All IsByte src
    → ntop src size ≡ some text
    → length src < targsize
    → targsize ≤ length buffer
    → (behind : List ℕ) × (state : ℕ) × (pton text (some buffer) targsize
        ≡ some (record { target = some (src ++ behind); tarindex = length src; state = state }))
unfolding pton
pton-ntop src text buffer size targsize ok written room wide =
    elim (Bool-cases (ltb (4 * quads (length src)) size)) [
      | inl fits ↦
          let (behind, state, run) =
            all_read targsize src [] buffer ok (omega (arith, room, wide)) (omega (arith, room)) in
          (
            behind,
            state,
            ap (λ s. pton_loop targsize s (decoder buffer 0 0))
                  (some_inj (
                    sym written
                    ∙ ntop-encoded src size
                    ∙ ap (λ b. if b then some (encoded src) else none) fits))
                ∙ run
                ∙ ap (λ i. some (decoder (src ++ behind) i state)) (omega arith),
          )
      | inr short ↦ absurd (
          cc (
            written,
            ntop-encoded src size ∙ ap (λ b. if b then some (encoded src) else none) short,
          ))
    ]
