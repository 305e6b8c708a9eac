-- ===== src/Base64/Decode/Steps.antt =====
-- The switch of f_b64_pton, on the bytes behind those that are done.
use terp_builder.Base.{
  ℕ, zero, suc, ◌+◌, ◌*◌, ◌/◌, ◌%◌, ◌<◌, ◌≡◌, refl, ap, ap₂, arith, false, bit_and, bit_or,
}
use terp_builder.Base.{some, List, [], ◌∷◌, ◌++◌, length, get_or, set, leb}
use terp_builder.Base64.{Decoder, step}

set-front :
    (front l : List ℕ) (i k v : ℕ)
    → i ≡ length front + k
    → set (front ++ l) i v ≡ front ++ set l k v
set-front [] l i k v e = ap (λ j. set l j v) {x = i} {y = k} (omega (arith, e))
set-front (x ∷ front) l zero k v e = absurd (omega (arith, e))
set-front (x ∷ front) l (suc i) k v e = ap (λ t. x ∷ t) (set-front front l i k v (omega (arith, e)))

pub get_or-front :
    (front l : List ℕ) (i k : ℕ) → i ≡ length front + k → get_or (front ++ l) i 0 ≡ get_or l k 0
get_or-front [] l i k e = ap (λ j. get_or l j 0) {x = i} {y = k} (omega (arith, e))
get_or-front (x ∷ front) l zero k e = absurd (omega (arith, e))
get_or-front (x ∷ front) l (suc i) k e = get_or-front front l i k (omega (arith, e))

has_room : (targsize i : ℕ) → i < targsize → leb targsize i ≡ false
has_room targsize i h = ground arith

abbrev pub decoder : List ℕ → ℕ → ℕ → Decoder
decoder target tarindex state = record { target = some target; tarindex = tarindex; state = state }

-- The four cases of the switch, on the bytes behind those that are done.
module _ (targsize pos : ℕ) (front l : List ℕ) where
  pub first_step :
      (x : ℕ)
      → length front < targsize
      → step targsize pos (decoder (front ++ (x ∷ l)) (length front) 0)
        ≡ some (decoder (front ++ (pos * 4 % 256 ∷ l)) (length front) 1)
  unfolding step
  first_step x room = rw (has_room targsize (length front) room) (
      ap (λ t. some (decoder t (length front) 1))
        (set-front front (x ∷ l) (length front) 0 (pos * 4 % 256) (omega arith)))

  pub second_step :
      (x y : ℕ)
      → length front + 1 < targsize
      → step targsize pos (decoder (front ++ (x ∷ y ∷ l)) (length front) 1)
        ≡ some (
            decoder
              (front ++ (bit_or x (pos / 16) % 256 ∷ bit_and pos 0x0f * 16 % 256 ∷ l))
              (length front + 1)
              2)
  unfolding step
  second_step x y room =
      rw
        (
          has_room targsize (length front + 1) room,
          get_or-front front (x ∷ y ∷ l) (length front) 0 (omega arith),
          set-front front (x ∷ y ∷ l) (length front) 0 (bit_or x (pos / 16) % 256) (omega arith),
        )
        (ap (λ t. some (decoder t (length front + 1) 2))
          (set-front front (bit_or x (pos / 16) % 256 ∷ y ∷ l) (length front + 1) 1
            (bit_and pos 0x0f * 16 % 256) refl))

  pub third_step :
      (w x y : ℕ)
      → length front + 2 < targsize
      → step targsize pos (decoder (front ++ (w ∷ x ∷ y ∷ l)) (length front + 1) 2)
        ≡ some (
            decoder
              (front ++ (w ∷ bit_or x (pos / 4) % 256 ∷ bit_and pos 0x03 * 64 % 256 ∷ l))
              (length front + 2)
              3)
  unfolding step
  third_step w x y room =
      rw
        (
          has_room targsize (length front + 1 + 1) (omega (arith, room)),
          get_or-front front (w ∷ x ∷ y ∷ l) (length front + 1) 1 refl,
          set-front front (w ∷ x ∷ y ∷ l) (length front + 1) 1 (bit_or x (pos / 4) % 256) refl,
        )
        (ap₂ (λ t i. some (decoder t i 3))
          (set-front front (w ∷ bit_or x (pos / 4) % 256 ∷ y ∷ l) (length front + 1 + 1) 2
            (bit_and pos 0x03 * 64 % 256) (omega arith))
          (omega arith))

  pub fourth_step :
      (v w x : ℕ)
      → length front + 2 < targsize
      → step targsize pos (decoder (front ++ (v ∷ w ∷ x ∷ l)) (length front + 2) 3)
        ≡ some (decoder (front ++ (v ∷ w ∷ bit_or x pos % 256 ∷ l)) (length front + 3) 0)
  unfolding step
  fourth_step v w x room =
      rw
        (
          has_room targsize (length front + 2) room,
          get_or-front front (v ∷ w ∷ x ∷ l) (length front + 2) 2 refl,
        )
        (ap₂ (λ t i. some (decoder t i 0))
          (set-front front (v ∷ w ∷ x ∷ l) (length front + 2) 2 (bit_or x pos % 256) refl)
          (omega arith))
