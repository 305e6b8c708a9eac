-- ===== src/FilterBlock/Reader/Opened.antt =====
-- The block that Finish writes of groups of keys, and the reader that opens on it.
use terp_builder.Base.{
  ℕ, ◌+◌, ◌-◌, ◌*◌, ◌/◌, ◌^◌, ◌<◌, ◌≡◌, refl, sym, ap, ap₂, ◌∙◌, arith, Bool, false,
}
use terp_builder.Base.{List, [], ◌∷◌, ◌++◌, length, get_or, length-append, append_assoc, append-nil}
use terp_builder.Base.{ltb, le→ltb}
use terp_builder.Slice.{Slice}
use terp_builder.Coding.Fixed.{put_fixed32, encode_fixed32}
use terp_builder.FilterBlock.{FilterPolicy, filter_block_reader, finished, word_at, stored}
use terp_builder.FilterBlock.{filter_base_lg}
use terp_builder.FilterBlock.Builder.{
  filter_of, filters, offsets, state, filters-append, offsets-append, length-offsets,
}
use terp_builder.FilterBlock.Words.{
  words, put_offsets-words, length-words, words-append, word_at-index,
}

module _ (little : Bool) (policy : FilterPolicy) where
  -- The offsets of the filters, and that of their array.
  abbrev pub all_offsets : List (List Slice) → List ℕ
  all_offsets gs = offsets policy 0 gs ++ (stored (length (filters policy gs)) ∷ [])

  pub finished-words :
      (gs : List (List Slice))
      → finished little (state policy gs [])
        ≡ filters policy gs ++ (words little (all_offsets gs) ++ (filter_base_lg ∷ []))
  unfolding finished put_fixed32
  finished-words gs =
      ap (λ l. (l ++ last) ++ (11 ∷ []))
        (put_offsets-words little (offsets policy 0 gs) (filters policy gs))
      ∙ ap (λ l. l ++ (11 ∷ []))
          (append_assoc (filters policy gs) (words little (offsets policy 0 gs)) last)
      ∙ append_assoc (filters policy gs) (words little (offsets policy 0 gs) ++ last) (11 ∷ [])
      ∙ ap (λ l. filters policy gs ++ (l ++ (11 ∷ [])))
          (ap (λ l. words little (offsets policy 0 gs) ++ l) (sym (append-nil last))
            ∙ sym (
                words-append little (offsets policy 0 gs)
                  (stored (length (filters policy gs)) ∷ [])))
    where
      last : List ℕ
      last = encode_fixed32 little (stored (length (filters policy gs)))

  first_offset :
      (n : ℕ) (gs : List (List Slice))
      → (t : List ℕ) × (offsets policy n gs ++ (stored (n + length (filters policy gs)) ∷ [])
          ≡ stored n ∷ t)
  first_offset n [] = ([], ap (λ m. stored m ∷ []) (omega arith))
  first_offset n (g ∷ gs) = (_, refl)

  pub offsets-split :
      (front : List (List Slice)) (g : List Slice) (behind : List (List Slice))
      → (t : List ℕ) × (all_offsets (front ++ (g ∷ behind))
          ≡ offsets policy 0 front
            ++ (stored (length (filters policy front))
                ∷ stored (length (filters policy front) + length (filter_of policy g))
                ∷ t))
  offsets-split front g behind = (
    next.0,
    ap₂ (λ l m. l ++ (stored m ∷ []))
          (offsets-append policy 0 front (g ∷ behind)
            ∙ ap (λ m. offsets policy 0 front ++ offsets policy m (g ∷ behind)) (omega arith))
          (ap length (filters-append policy front (g ∷ behind))
            ∙ omega (
              arith,
              length-append (filters policy front) (filters policy (g ∷ behind)),
              length-append (filter_of policy g) (filters policy behind),
            ))
        ∙ append_assoc (offsets policy 0 front)
            (stored a ∷ offsets policy (a + length (filter_of policy g)) behind) _
        ∙ ap (λ l. offsets policy 0 front ++ (stored a ∷ l)) next.1,
  )
    where
      a : ℕ
      a = length (filters policy front)

      next :
          (t : List ℕ) × (offsets policy (a + length (filter_of policy g)) behind
              ++ (stored (a + length (filter_of policy g) + length (filters policy behind)) ∷ [])
            ≡ stored (a + length (filter_of policy g)) ∷ t)
      next = first_offset (a + length (filter_of policy g)) behind

  get_or-last : (xs : List ℕ) (k : ℕ) → get_or (xs ++ (k ∷ [])) (length xs) 0 ≡ k
  get_or-last [] k = refl
  get_or-last (x ∷ xs) k = get_or-last xs k

  unfoldable pub contents : List (List Slice) → List ℕ
  contents gs = filters policy gs ++ (words little (all_offsets gs) ++ (filter_base_lg ∷ []))

  pub length-contents :
      (gs : List (List Slice))
      → length (contents gs) ≡ length (filters policy gs) + length gs * 4 + 5
  unfolding contents
  length-contents gs = omega (
    arith,
    length-append (filters policy gs) (words little (all_offsets gs) ++ (filter_base_lg ∷ [])),
    length-append (words little (all_offsets gs)) (filter_base_lg ∷ []),
    length-words little (all_offsets gs),
    length-append (offsets policy 0 gs) (stored (length (filters policy gs)) ∷ []),
    length-offsets policy 0 gs,
  )

  pub opened :
      (gs : List (List Slice))
      → length (filters policy gs) < 2 ^ 32
      → filter_block_reader little (contents gs) ≡ record {
        contents = contents gs;
        offset = length (filters policy gs);
        num = length gs;
        base_lg = filter_base_lg;
      }
  unfolding filter_block_reader contents
  opened gs small = rw (long, last_word, inside, all, last_byte) (refl)
    where
      n : ℕ
      n = length (contents gs)

      l : ℕ
      l = length (filters policy gs)

      long : ltb n 5 ≡ false
      long = le→ltb n 5 (omega (arith, length-contents gs))

      last_word : word_at little (contents gs) (n - 5) ≡ l
      last_word =
          word_at-index little (filters policy gs) (offsets policy 0 gs) (stored l) []
            (filter_base_lg ∷ []) (n - 5)
            (omega (arith, length-contents gs, length-offsets policy 0 gs)) (omega arith)
          ∙ omega (arith, small)

      inside : ltb (n - 5) l ≡ false
      inside = le→ltb (n - 5) l (omega (arith, length-contents gs))

      all : (n - 5 - l) / 4 ≡ length gs
      all = omega (arith, length-contents gs)

      shorter : n ≡ length (filters policy gs ++ words little (all_offsets gs)) + 1
      shorter =
          ap length (
            sym (
              append_assoc (filters policy gs) (words little (all_offsets gs))
                (filter_base_lg ∷ [])))
          ∙ length-append (filters policy gs ++ words little (all_offsets gs)) (filter_base_lg ∷ [])

      last_byte : get_or (contents gs) (n - 1) 0 ≡ filter_base_lg
      last_byte =
          ap₂ (λ x i. get_or x i 0)
            (sym (
              append_assoc (filters policy gs) (words little (all_offsets gs))
                (filter_base_lg ∷ [])))
            (omega (arith, length-contents gs, shorter))
          ∙ get_or-last (filters policy gs ++ words little (all_offsets gs)) filter_base_lg
