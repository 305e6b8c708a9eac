-- ===== src/Version/Picked.antt =====
-- The level that PickLevelForMemTableOutput gives a new table file.
use mathlib.Core.Path.{subst}
use terp_builder.Base.{
  ℕ, zero, suc, ◌+◌, ◌^◌, ◌≤◌, ◌<◌, ◌≡◌, refl, sym, ap, ◌∙◌, arith, Bool, true, false, not, Option,
  some, inl, inr,
}
use terp_builder.Base.{
  List, [], ◌∷◌, length, get_elem?, All, ltb, if◌then◌else◌, ◌>>=◌, Bool-cases, ltb→lt,
}
use terp_builder.Slice.{Slice}
use terp_builder.Comparator.{Comparator, IsLawful}
use terp_builder.DbFormat.{
  ParsedInternalKey, append_internal_key, extract_user_key, max_sequence_number,
  value_type_for_seek, deletion,
}
use terp_builder.DbFormat.Keys.{append_internal_key-keyed, extract_user_key-keyed}
use terp_builder.VersionEdit.{FileMetaData, num_levels}
use terp_builder.Version.{
  max_mem_compact_level, any_overlap, overlap_in_level, some_file_overlaps_range, pick_from,
  pick_level_for_mem_table_output, grandparents_allow,
}
use terp_builder.Version.{total_file_size, above_signed, max_grand_parent_overlap_bytes}
use terp_builder.Version.Levels.{IsFile, IsLevel, extract-key}
use terp_builder.Version.Overlap.{some_file_overlaps_range_lem, any_known}
use terp_builder.Version.Inputs.{IsKeyed, or_empty}
use terp_builder.Version.Ranges.{get_overlapping_inputs-IsClosed}

module _ (little : Bool) (user : Comparator) where
  -- The levels of a Version: below level 0 the files of each follow one another.
  pub record IsTree (levels : List (List FileMetaData)) : Type 0 where
    pub files : ℕ → List FileMetaData
    pub at : (level : ℕ) → level < num_levels → get_elem? levels level ≡ some (files level)
    pub valid : (level : ℕ) → level < num_levels → All (IsFile little user) (files level)
    pub sorted : (level : ℕ) → 0 < level → level < num_levels → IsLevel little user (files level)
    pub few : (level : ℕ) → length (files level) < 2 ^ 31

  all-IsKeyed : (files : List FileMetaData) → All (IsFile little user) files → All IsKeyed files
  all-IsKeyed [] valid = tt
  all-IsKeyed (f ∷ files) valid = (
    (
      extract-key little user valid.0.low
          ∙ ap (λ o. some (or_empty o)) (sym (extract-key little user valid.0.low)),
      extract-key little user valid.0.high
          ∙ ap (λ o. some (or_empty o)) (sym (extract-key little user valid.0.high)),
    ),
    all-IsKeyed files valid.1,
  )

  module _ (law : IsLawful user) (levels : List (List FileMetaData)) (tree : IsTree levels)
      (smallest largest : Slice) where
    -- No file of the level overlaps the range.
    abbrev pub IsClear : ℕ → Type 0
    IsClear level =
        any_overlap little user (tree.files level) (some smallest) (some largest) ≡ some false

    -- Levels that are clear, from level 0 on; nothing, where level 0 is the level picked.
    abbrev pub AreClear : ℕ → Type 0
    AreClear zero = IsClear 0
    AreClear (suc level) = IsClear (suc level) × AreClear level

    abbrev pub IsUncovered : ℕ → Type 0
    IsUncovered zero = Unit
    IsUncovered (suc level) = AreClear (suc level)

    all_clear : (level : ℕ) → ((l : ℕ) → l ≤ level → IsClear l) → AreClear level
    all_clear zero each = each 0 (omega arith)
    all_clear (suc level) each =
        (each (suc level) (omega arith), all_clear level (λ l le. each l (omega (arith, le))))

    uncovered : (level : ℕ) → ((l : ℕ) → l ≤ level → IsClear l) → IsUncovered level
    uncovered zero each = tt
    uncovered (suc level) each = all_clear (suc level) each

    overlap_known :
        (level : ℕ)
        → level < num_levels
        → (b : Bool) × (overlap_in_level little user levels level smallest largest ≡ some b)
          × (any_overlap little user (tree.files level) (some smallest) (some largest) ≡ some b)
    unfolding some_file_overlaps_range
    overlap_known level inside =
        let (b, known) =
          any_known little user law (some smallest) (some largest) (tree.files level)
            (tree.valid level inside) in
        (
          b,
          rw (tree.at level inside) (elim (Bool-cases (ltb 0 level)) [
            | inl deep ↦ rw deep (
                some_file_overlaps_range_lem little user law (some smallest) (some largest)
                  (tree.files level) (tree.sorted level (ltb→lt _ _ deep) inside) (tree.few level)
                ∙ known)
            | inr top ↦ rw top known
          ]),
          known,
        )

    allowed_known :
        (level : ℕ) (start limit : ParsedInternalKey)
        → start.sequence ≤ max_sequence_number
        → limit.sequence ≤ max_sequence_number
        → (max_file_size : ℕ)
        → (b : Bool) × (grandparents_allow little user max_file_size levels level
              (append_internal_key little [] start)
              (append_internal_key little [] limit)
            ≡ some b)
    allowed_known level start limit hs hl max_file_size =
        elim (Bool-cases (ltb (level + 2) num_levels)) [
          | inr deep ↦ (true, rw deep refl)
          | inl inside ↦
              let (inputs, run, closed) =
                get_overlapping_inputs-IsClosed user law levels (level + 2) (tree.files (level + 2))
                  (some (append_internal_key little [] start))
                  (some (append_internal_key little [] limit)) (some start.user_key)
                  (some limit.user_key) (tree.at (level + 2) (ltb→lt _ _ inside))
                  (all-IsKeyed _ (tree.valid (level + 2) (ltb→lt _ _ inside)))
                  (ap (λ o. o >>= λ key. some (some key)) (extract-append start hs))
                  (ap (λ o. o >>= λ key. some (some key)) (extract-append limit hl)) in
              (
                not (
                    above_signed (total_file_size inputs)
                      (max_grand_parent_overlap_bytes max_file_size)),
                rw (inside, run) refl,
              )
        ]
      where
        extract-append :
            (key : ParsedInternalKey)
            → key.sequence ≤ max_sequence_number
            → extract_user_key (append_internal_key little [] key) ≡ some key.user_key
        extract-append key h =
            ap extract_user_key (append_internal_key-keyed little key (omega (arith, h)))
            ∙ extract_user_key-keyed key.user_key _

    -- The level that the loop gives: all levels on the way to it are clear.
    record IsPicked (level : ℕ) (o : Option ℕ) : Type 0 where
      picked : ℕ
      is : o ≡ some picked
      deeper : level ≤ picked
      bounded : picked ≤ 2
      clear : (l : ℕ) → level < l → l ≤ picked → IsClear l

    stays : (level : ℕ) (o : Option ℕ) → level ≤ 2 → o ≡ some level → IsPicked level o
    stays level o le e = record {
      picked = level;
      is = e;
      deeper = omega arith;
      bounded = le;
      clear = λ l less le'. absurd (omega (arith, less, le'));
    }

    pick_from-IsPicked :
        (max_file_size n level : ℕ) (start limit : ParsedInternalKey)
        → start.sequence ≤ max_sequence_number
        → limit.sequence ≤ max_sequence_number
        → level ≤ 2
        → 2 < level + n
        → IsPicked level (
            pick_from little user max_file_size levels n level smallest largest
              (append_internal_key little [] start)
              (append_internal_key little [] limit))
    unfolding pick_from
    pick_from-IsPicked max_file_size zero level start limit hs hl le enough =
        absurd (omega (arith, le, enough))
    pick_from-IsPicked max_file_size (suc n) level start limit hs hl le enough =
        elim (Bool-cases (ltb level 2)) [
          | inr bottom ↦ rw bottom (stays level (some level) le refl)
          | inl above ↦
              let (overlaps, known, scan) =
                overlap_known (level + 1) (omega (arith, ltb→lt _ _ above)) in
              let (allowed, known') = allowed_known level start limit hs hl max_file_size in
              let deep =
                pick_from-IsPicked max_file_size n (level + 1) start limit hs hl
                  (omega (arith, ltb→lt _ _ above)) (omega (arith, enough)) in
              rw (above, known) (next level overlaps allowed _ _ le known' scan deep)
        ]
      where
        next :
            (level : ℕ) (overlaps allowed : Bool) (a : Option Bool) (later : Option ℕ)
            → level ≤ 2
            → a ≡ some allowed
            → any_overlap little user (tree.files (level + 1)) (some smallest) (some largest)
              ≡ some overlaps
            → IsPicked (level + 1) later
            → IsPicked level
                (if overlaps then some level else (a >>= λ b. if b then later else some level))
        next level true allowed a later le e scan deep = stays level _ le refl
        next level false true a later le e scan deep = record {
          picked = deep.picked;
          is = ap (λ o. o >>= λ b. if b then later else some level) e ∙ deep.is;
          deeper = omega (arith, deep.deeper);
          bounded = deep.bounded;
          clear = λ l less le'. clear_below l less le';
        }
          where
            clear_below : (l : ℕ) → level < l → l ≤ deep.picked → IsClear l
            clear_below l less le' = elim (Bool-cases (ltb (level + 1) l)) [
              | inl farther ↦ deep.clear l (ltb→lt _ _ farther) le'
              | inr next_one ↦
                  subst IsClear {x = level + 1} {y = l} (ground (arith, less, next_one)) scan
            ]
        next level false false a later le e scan deep =
            stays level _ le (ap (λ o. o >>= λ b. if b then later else some level) e)

    -- For a lawful user comparator and levels of valid files, which below level 0 follow one another,
    -- PickLevelForMemTableOutput returns a level, 2 at most. Unless it is level 0, no file of that
    -- level or of one above it overlaps the keys of the new file, so that the file hides no newer entry.
    pub pick_level_for_mem_table_output_lem :
        (max_file_size : ℕ)
        → (picked : ℕ) × (pick_level_for_mem_table_output little user max_file_size levels smallest
              largest
            ≡ some picked)
          × (picked ≤ max_mem_compact_level)
          × IsUncovered picked
    unfolding pick_level_for_mem_table_output
    pick_level_for_mem_table_output_lem max_file_size =
        let (overlaps, known, scan) = overlap_known 0 (omega arith) in
        let p =
          pick_from-IsPicked max_file_size 3 0 start limit (omega arith) (omega arith) (omega arith)
            (omega arith) in
        rw known (by_top overlaps scan p)
      where
        start : ParsedInternalKey
        start = record {
          user_key = smallest;
          sequence = max_sequence_number;
          type = value_type_for_seek;
        }

        limit : ParsedInternalKey
        limit = record { user_key = largest; sequence = 0; type = deletion }

        by_top :
            {o : Option ℕ} (overlaps : Bool)
            → any_overlap little user (tree.files 0) (some smallest) (some largest) ≡ some overlaps
            → IsPicked 0 o
            → (picked : ℕ) × ((if overlaps then some 0 else o) ≡ some picked)
              × (picked ≤ max_mem_compact_level)
              × IsUncovered picked
        by_top true scan p = (0, refl, omega arith, tt)
        by_top false scan p = (
          p.picked,
          p.is,
          p.bounded,
          uncovered p.picked (λ l le. elim (Bool-cases (ltb 0 l)) [
            | inl below ↦ p.clear l (ltb→lt _ _ below) le
            | inr top ↦ subst IsClear {x = 0} {y = l} (ground (arith, top)) scan
          ]),
        )
