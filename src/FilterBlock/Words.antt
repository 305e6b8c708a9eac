-- ===== src/FilterBlock/Words.antt =====
-- The words of the offset array, read where they were put.
use terp_builder.Base.{ℕ, ◌+◌, ◌*◌, ◌^◌, ◌<◌, ◌≡◌, refl, sym, ap, ◌∙◌, arith, Bool}
use terp_builder.Base.{
  List, [], ◌∷◌, or_zero, ◌++◌, length, drop, length-append, drop_exact, append_assoc, append-nil,
}
use terp_builder.Coding.Fixed.{put_fixed32, encode_fixed32, decode_fixed32}
use terp_builder.Coding.Fixed.Portable.{encode_fixed32_le}
use terp_builder.Coding.Fixed.RoundTrip.{decode_fixed32-encode_fixed32}
use terp_builder.FilterBlock.{put_offsets, word_at}

module _ (little : Bool) where
  abbrev pub words : List ℕ → List ℕ
  words [] = []
  words (n ∷ ns) = encode_fixed32 little n ++ words ns

  pub length-fixed32 : (n : ℕ) → length (encode_fixed32 little n) ≡ 4
  length-fixed32 n = ap length (encode_fixed32_le little n)

  pub put_offsets-words : (ns : List ℕ) (dst : List ℕ) → put_offsets little ns dst ≡ dst ++ words ns
  unfolding put_fixed32
  put_offsets-words [] dst = sym (append-nil dst)
  put_offsets-words (n ∷ ns) dst =
      put_offsets-words ns (dst ++ encode_fixed32 little n)
      ∙ append_assoc dst (encode_fixed32 little n) (words ns)

  pub length-words : (ns : List ℕ) → length (words ns) ≡ length ns * 4
  length-words [] = omega arith
  length-words (n ∷ ns) =
      omega (
        arith,
        length-append (encode_fixed32 little n) (words ns),
        length-fixed32 n,
        length-words ns,
      )

  pub words-append : (ns ms : List ℕ) → words (ns ++ ms) ≡ words ns ++ words ms
  words-append [] ms = refl
  words-append (n ∷ ns) ms =
      ap (λ l. encode_fixed32 little n ++ l) (words-append ns ms)
      ∙ sym (append_assoc (encode_fixed32 little n) (words ns) (words ms))

  -- The word that stands behind so many bytes.
  pub word_at-words :
      (front : List ℕ) (ns : List ℕ) (n : ℕ) (rest : List ℕ) (at : ℕ)
      → at ≡ length front + length ns * 4
      → n < 2 ^ 32
      → word_at little (front ++ (words ns ++ (encode_fixed32 little n ++ rest))) at ≡ n
  word_at-words front ns n rest at e small =
      ap (λ l. or_zero (decode_fixed32 little l))
        (ap (drop at) (sym (append_assoc front (words ns) (encode_fixed32 little n ++ rest)))
          ∙ drop_exact at (front ++ words ns) (encode_fixed32 little n ++ rest)
              (omega (arith, e, length-append front (words ns), length-words ns)))
      ∙ ap or_zero (decode_fixed32-encode_fixed32 little n rest small)

  -- The word before which so many others stand.
  pub word_at-index :
      (front ns : List ℕ) (n : ℕ) (ms rest : List ℕ) (at : ℕ)
      → at ≡ length front + length ns * 4
      → n < 2 ^ 32
      → word_at little (front ++ (words (ns ++ (n ∷ ms)) ++ rest)) at ≡ n
  word_at-index front ns n ms rest at e small =
      ap (λ l. word_at little (front ++ (l ++ rest)) at) (words-append ns (n ∷ ms))
      ∙ ap (λ l. word_at little (front ++ l) at)
          (append_assoc (words ns) (encode_fixed32 little n ++ words ms) rest
            ∙ ap (λ l. words ns ++ l) (append_assoc (encode_fixed32 little n) (words ms) rest))
      ∙ word_at-words front ns n (words ms ++ rest) at e small
