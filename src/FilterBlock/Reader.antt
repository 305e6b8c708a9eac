-- ===== src/FilterBlock/Reader.antt =====
-- The reader on the block that Finish writes of groups of keys.
pub mod Opened
use terp_builder.Base.{ℕ, ◌+◌, ◌-◌, ◌*◌, ◌/◌, ◌^◌, ◌<◌, ◌≡◌, refl, sym, ap, ◌∙◌, arith, Bool, true}
use terp_builder.Base.{
  List, [], ◌∷◌, ◌++◌, length, take, drop, length-append, drop_exact, take_exact, append_assoc,
}
use terp_builder.Base.{ltb, leb, lt→ltb, le→leb}
use terp_builder.Slice.{Slice}
use terp_builder.FilterBlock.{
  FilterPolicy, filter_block_reader, may_match, finished, word_at, stored,
}
use terp_builder.FilterBlock.{filter_base, filter_base_lg}
use terp_builder.FilterBlock.Builder.{
  filter_of, filters, offsets, state, filters-append, length-offsets,
}
use terp_builder.FilterBlock.Words.{words, word_at-index}
use terp_builder.FilterBlock.Reader.Opened.{
  finished-words, all_offsets, contents, opened, offsets-split, length-contents,
}

module _ (little : Bool) (policy : FilterPolicy) where
  -- A block with a group of keys in it: where the group's filter begins and ends.
  module _ (front : List (List Slice)) (g : List Slice) (behind : List (List Slice)) where
    abbrev groups : List (List Slice)
    groups = front ++ (g ∷ behind)

    abbrev begin_at : ℕ
    begin_at = length (filters policy front)

    abbrev end_at : ℕ
    end_at = begin_at + length (filter_of policy g)

    abbrev array_at : ℕ
    array_at = length (filters policy groups)

    abbrev rest : List ℕ
    rest = (offsets-split little policy front g behind).0

    sizes : array_at ≡ end_at + length (filters policy behind)
    sizes =
        ap length (filters-append policy front (g ∷ behind))
        ∙ omega (
          arith,
          length-append (filters policy front) (filters policy (g ∷ behind)),
          length-append (filter_of policy g) (filters policy behind),
        )

    words_at :
        (at : ℕ)
        → word_at little (contents little policy groups) at
          ≡ word_at little
              (filters policy groups
                ++ (words little
                      (offsets policy 0 front ++ (stored begin_at ∷ stored end_at ∷ rest))
                    ++ (filter_base_lg ∷ [])))
              at
    unfolding contents
    words_at at =
        ap
          (λ l.
            word_at little (filters policy groups ++ (words little l ++ (filter_base_lg ∷ []))) at)
          (offsets-split little policy front g behind).1

    start_word :
        array_at < 2 ^ 32
        → word_at little (contents little policy groups) (array_at + length front * 4) ≡ begin_at
    start_word small =
        words_at (array_at + length front * 4)
        ∙ word_at-index little (filters policy groups) (offsets policy 0 front) (stored begin_at)
            (stored end_at ∷ rest) (filter_base_lg ∷ []) (array_at + length front * 4)
            (omega (arith, length-offsets policy 0 front)) (omega arith)
        ∙ omega (arith, small, sizes)

    limit_word :
        array_at < 2 ^ 32
        → word_at little (contents little policy groups) (array_at + length front * 4 + 4) ≡ end_at
    limit_word small =
        words_at (array_at + length front * 4 + 4)
        ∙ ap
            (λ l.
              word_at little (filters policy groups ++ (words little l ++ (filter_base_lg ∷ [])))
                (array_at + length front * 4 + 4))
            (sym
              (append_assoc (offsets policy 0 front) (stored begin_at ∷ []) (stored end_at ∷ rest)))
        ∙ word_at-index little (filters policy groups)
            (offsets policy 0 front ++ (stored begin_at ∷ [])) (stored end_at) rest
            (filter_base_lg ∷ []) (array_at + length front * 4 + 4)
            (omega (
              arith,
              length-offsets policy 0 front,
              length-append (offsets policy 0 front) (stored begin_at ∷ []),
            ))
            (omega arith)
        ∙ omega (arith, small, sizes)

    cut_filter :
        take (end_at - begin_at) (drop begin_at (contents little policy groups))
        ≡ filter_of policy g
    unfolding contents
    cut_filter =
        ap (λ l. take (end_at - begin_at) (drop begin_at l))
          (ap (λ l. l ++ tail) (filters-append policy front (g ∷ behind))
            ∙ append_assoc (filters policy front) (filters policy (g ∷ behind)) tail
            ∙ ap (λ l. filters policy front ++ l)
                (append_assoc (filter_of policy g) (filters policy behind) tail))
        ∙ ap (take (end_at - begin_at)) (
            drop_exact begin_at (filters policy front)
              (filter_of policy g ++ (filters policy behind ++ tail)) refl)
        ∙ take_exact (end_at - begin_at) (filter_of policy g) (filters policy behind ++ tail)
            (omega arith)
      where
        tail : List ℕ
        tail = words little (all_offsets little policy groups) ++ (filter_base_lg ∷ [])

    -- KeyMayMatch asks the policy about the filter of the group of the block's offset.
    pub may_match-finished :
        (block_offset : ℕ) (key : Slice)
        → array_at < 2 ^ 32
        → block_offset / filter_base ≡ length front
        → may_match little policy
            (filter_block_reader little (finished little (state policy groups [])))
            block_offset
            key
          ≡ policy.key_may_match key (filter_of policy g)
    unfolding may_match contents
    may_match-finished block_offset key small e =
        ap (λ c. may_match little policy (filter_block_reader little c) block_offset key)
          (finished-words little policy groups)
        ∙ ap (λ r. may_match little policy r block_offset key) (opened little policy groups small)
        ∙ rw (e, inside, start_word small, limit_word small, whole, ordered)
            (ap (policy.key_may_match key) cut_filter)
      where
        inside : ltb (length front) (length groups) ≡ true
        inside = lt→ltb _ _ (omega (arith, length-append front (g ∷ behind)))

        whole : leb begin_at end_at ≡ true
        whole = le→leb begin_at end_at (omega arith)

        ordered : leb end_at array_at ≡ true
        ordered = le→leb end_at array_at (omega (arith, sizes))

  pub length-finished :
      (gs : List (List Slice))
      → length (finished little (state policy gs []))
        ≡ length (filters policy gs) + length gs * 4 + 5
  unfolding contents
  length-finished gs =
      ap length (finished-words little policy gs) ∙ length-contents little policy gs
