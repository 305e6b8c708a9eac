-- ===== src/Base64/Encode.antt =====
-- f_b64_ntop of fbase64.c against base64 without a buffer.
use terp_builder.Base.{ℕ, ◌+◌, ◌*◌, ◌/◌, ◌≡◌, refl, ◌∙◌, ap, arith}
use terp_builder.Base.{Option, none, some, List, [], ◌∷◌, ◌++◌, length, ltb, if◌then◌else◌}
use terp_builder.Base.{length-append, append_assoc, append-nil}
use terp_builder.Base.{
  zero, suc, ◌-◌, ◌%◌, ◌^◌, ◌<◌, sym, ap₂, Bool, true, false, ◌&&◌, ◌==◌, ==_iff, All, Bool-cases,
  inl, inr,
}
use terp_builder.Base.Bits.{bit_and_three, bit_and_fifteen, bit_and_sixty_three}
use terp_builder.Coding.Fixed.RoundTrip.{IsByte}
use terp_builder.Base64.{digit, pad64, output0, output1, output2, output3, ntop, ntop_loop}

-- What the rounds of the code append, with no buffer.
abbrev pub encoded : List ℕ → List ℕ
encoded [] = []
encoded (a ∷ []) = digit (output0 a) ∷ digit (output1 a 0) ∷ pad64 ∷ pad64 ∷ []
encoded (a ∷ b ∷ []) = digit (output0 a) ∷ digit (output1 a b) ∷ digit (output2 b 0) ∷ pad64 ∷ []
encoded (a ∷ b ∷ c ∷ src) =
    digit (output0 a) ∷ digit (output1 a b) ∷ digit (output2 b c) ∷ digit (output3 c) ∷ encoded src

abbrev pub quads : ℕ → ℕ
quads n = (n + 2) / 3

pub length-encoded : (src : List ℕ) → length (encoded src) ≡ 4 * quads (length src)
length-encoded [] = refl
length-encoded (a ∷ []) = refl
length-encoded (a ∷ b ∷ []) = refl
length-encoded (a ∷ b ∷ c ∷ src) = omega (arith, length-encoded src)

fitting :
    (l q targsize : ℕ) (r : Option (List ℕ))
    → (if ltb targsize (l + 4) then none else if ltb (l + 4 + 4 * q) targsize then r else none)
      ≡ (if ltb (l + 4 * (1 + q)) targsize then r else none)
fitting l q targsize r = ground arith

-- A full round before the rest, when the rest is the text `rest` of q quads.
full_round :
    (targsize q w x y z : ℕ) (target rest : List ℕ)
    → (if ltb targsize (length target + 4)
        then none
        else if ltb (length (target ++ (w ∷ x ∷ y ∷ z ∷ [])) + 4 * q) targsize
        then some ((target ++ (w ∷ x ∷ y ∷ z ∷ [])) ++ rest)
        else none)
      ≡ (if ltb (length target + 4 * (1 + q)) targsize
          then some (target ++ (w ∷ x ∷ y ∷ z ∷ rest))
          else none)
full_round targsize q w x y z target rest =
    rw (length-append target (w ∷ x ∷ y ∷ z ∷ []), append_assoc target (w ∷ x ∷ y ∷ z ∷ []) rest)
      (fitting (length target) q targsize (some (target ++ (w ∷ x ∷ y ∷ z ∷ rest))))

ntop_loop-encoded :
    (targsize : ℕ) (src target : List ℕ)
    → ntop_loop targsize src target ≡ (
        if ltb (length target + 4 * quads (length src)) targsize
        then some (target ++ encoded src)
        else none)
unfolding ntop_loop
ntop_loop-encoded targsize [] target = ground (arith, append-nil target)
ntop_loop-encoded targsize (a ∷ []) target = ground (arith, length-append target (encoded (a ∷ [])))
ntop_loop-encoded targsize (a ∷ b ∷ []) target =
    ground (arith, length-append target (encoded (a ∷ b ∷ [])))
ntop_loop-encoded targsize (a ∷ b ∷ c ∷ src) target =
    ap (λ r. if ltb targsize (length target + 4) then none else r)
      (ntop_loop-encoded targsize src (
        target
        ++ (digit (output0 a)
            ∷ digit (output1 a b)
            ∷ digit (output2 b c)
            ∷ digit (output3 c)
            ∷ [])))
    ∙ full_round targsize (quads (length src)) _ _ _ _ target (encoded src)
    ∙ ap (λ k. if ltb k targsize then some (target ++ encoded (a ∷ b ∷ c ∷ src)) else none)
        (omega arith)

pub ntop-encoded :
    (src : List ℕ) (targsize : ℕ)
    → ntop src targsize
      ≡ (if ltb (4 * quads (length src)) targsize then some (encoded src) else none)
unfolding ntop
ntop-encoded src targsize =
    ntop_loop-encoded targsize src []
    ∙ ap (λ k. if ltb k targsize then some (encoded src) else none) (omega arith)

-- The alphabet of RFC 1521: the letters, small after capital, the ten digits, and two signs.
abbrev pub character : ℕ → ℕ
character v =
    if ltb v 26
    then b'A' + v
    else if ltb v 52
    then b'a' + (v - 26)
    else if ltb v 62
    then b'0' + (v - 52)
    else if v == 62
    then b'+'
    else b'/'

-- Three bytes as a number of 24 bits.
abbrev pub word24 : ℕ → ℕ → ℕ → ℕ
word24 a b c = a * 256 ^ 2 + b * 256 + c

-- The k-th group of six bits, counted from the low end, as a character.
abbrev pub group : ℕ → ℕ → ℕ
group k bits = character (bits / 64 ^ k % 64)

-- The text of a string of bytes: four characters for every three bytes; zero bits are added to what
-- is left at the end, and `=` stands for each group that has no bit of it.
abbrev pub base64_text : List ℕ → List ℕ
base64_text [] = []
base64_text (a ∷ []) = let bits = word24 a 0 0 in group 3 bits ∷ group 2 bits ∷ b'=' ∷ b'=' ∷ []
base64_text (a ∷ b ∷ []) =
    let bits = word24 a b 0 in group 3 bits ∷ group 2 bits ∷ group 1 bits ∷ b'=' ∷ []
base64_text (a ∷ b ∷ c ∷ src) =
    let bits = word24 a b c in
    group 3 bits ∷ group 2 bits ∷ group 1 bits ∷ group 0 bits ∷ base64_text src

all_characters : ℕ → Bool
all_characters zero = true
all_characters (suc n) = (digit n == character n) && all_characters n

all_characters-digit : (n v : ℕ) → all_characters n ≡ true → v < n → digit v ≡ character v
unfolding all_characters
all_characters-digit zero v h lt = absurd (omega arith)
all_characters-digit (suc n) v h lt = elim (Bool-cases (v == n)) [
  | inl last ↦
      ap digit ((==_iff v n).0 last)
      ∙ (==_iff (digit n) (character n)).0 (and_parts _ _ h).0
      ∙ ap character (sym ((==_iff v n).0 last))
  | inr other ↦ all_characters-digit n v (and_parts _ _ h).1 (ground (arith, other, lt))
]
  where
    and_parts : (a b : Bool) → (a && b) ≡ true → (a ≡ true) × (b ≡ true)
    and_parts true b e = (refl, e)
    and_parts false b e = cc e

sixty_four : all_characters 64 ≡ true
unfolding all_characters digit
sixty_four = refl

-- A digit of the code's table, for its six bits.
written : (v w : ℕ) → v ≡ w % 64 → digit v ≡ character (w % 64)
written v w e = ap digit e ∙ all_characters-digit 64 (w % 64) sixty_four (omega arith)

module _ (a b c : ℕ) (ha : IsByte a) (hb : IsByte b) (hc : IsByte c) where
  group3 : digit (output0 a) ≡ group 3 (word24 a b c)
  group3 = written (output0 a) (word24 a b c / 64 ^ 3) (omega (arith, ha, hb, hc))

  group2 : digit (output1 a b) ≡ group 2 (word24 a b c)
  group2 =
      written (output1 a b) (word24 a b c / 64 ^ 2) (omega (arith, ha, hb, hc, bit_and_three a))

  group1 : digit (output2 b c) ≡ group 1 (word24 a b c)
  group1 =
      written (output2 b c) (word24 a b c / 64 ^ 1) (omega (arith, ha, hb, hc, bit_and_fifteen b))

  group0 : digit (output3 c) ≡ group 0 (word24 a b c)
  group0 = written (output3 c) (word24 a b c / 64 ^ 0) (omega (arith, hc, bit_and_sixty_three c))

encoded-base64_text : (src : List ℕ) → All IsByte src → encoded src ≡ base64_text src
encoded-base64_text [] h = refl
encoded-base64_text (a ∷ []) (ha, h) =
    ap₂ (λ x y. x ∷ y ∷ b'=' ∷ b'=' ∷ []) (group3 a 0 0 ha (omega arith) (omega arith))
      (group2 a 0 0 ha (omega arith) (omega arith))
encoded-base64_text (a ∷ b ∷ []) (ha, (hb, h)) =
    ap₂ (λ x y. x ∷ y ∷ digit (output2 b 0) ∷ b'=' ∷ []) (group3 a b 0 ha hb (omega arith))
      (group2 a b 0 ha hb (omega arith))
    ∙ ap (λ z. group 3 (word24 a b 0) ∷ group 2 (word24 a b 0) ∷ z ∷ b'=' ∷ [])
        (group1 a b 0 ha hb (omega arith))
encoded-base64_text (a ∷ b ∷ c ∷ src) (ha, (hb, (hc, h))) =
    ap₂ (λ x y. x ∷ y ∷ digit (output2 b c) ∷ digit (output3 c) ∷ encoded src)
      (group3 a b c ha hb hc) (group2 a b c ha hb hc)
    ∙ ap₂ (λ x y. group 3 (word24 a b c) ∷ group 2 (word24 a b c) ∷ x ∷ y ∷ encoded src)
        (group1 a b c ha hb hc) (group0 a b c ha hb hc)
    ∙ ap
        (λ l.
          group 3 (word24 a b c)
          ∷ group 2 (word24 a b c)
          ∷ group 1 (word24 a b c)
          ∷ group 0 (word24 a b c)
          ∷ l)
        (encoded-base64_text src h)

-- f_b64_ntop returns the base64 text of a string of bytes, as RFC 1521 has it: the groups of six
-- bits of each three bytes as characters of its alphabet, with `=` at the end; it is four characters
-- for every three bytes begun. It does so if this many characters and the '\0' fit targsize; else it
-- returns -1.
pub ntop_lem :
    (src : List ℕ) (targsize : ℕ)
    → All IsByte src
    → (ntop src targsize
        ≡ (if ltb (4 * quads (length src)) targsize then some (base64_text src) else none))
      × (length (base64_text src) ≡ 4 * quads (length src))
ntop_lem src targsize h =
    let e = encoded-base64_text src h in
    (
      ntop-encoded src targsize
          ∙ ap (λ t. if ltb (4 * quads (length src)) targsize then some t else none) e,
      ap length (sym e) ∙ length-encoded src,
    )
