-- ===== src/FilterBlock/Builder.antt =====
-- The builder's state as the groups of keys whose filters are made, and the keys that wait for
-- theirs.
use terp_builder.Base.{
  ℕ, zero, suc, ◌+◌, ◌-◌, ◌/◌, ◌≡◌, refl, sym, ap, ap₂, ◌∙◌, arith, true, false, Option, none, some,
}
use terp_builder.Base.{
  List, [], ◌∷◌, ◌++◌, length, take, drop, length-append, drop_exact, take_exact, append_assoc,
  append-nil,
}
use mathlib.Core.Option.{map}
use terp_builder.Base.{Bool-cases, inl, inr, ltb, ◌==◌, if◌then◌else◌, lt→ltb}
use terp_builder.Slice.{Slice}
use terp_builder.FilterBlock.{FilterPolicy, IsPolicy, FilterBlockBuilder, add_key, make_keys}
use terp_builder.FilterBlock.{stored, generate_filter, generate_below, start_block, filter_base}

-- The keys one after the other, where each begins, and where each ends.
abbrev pub flat : List Slice → List ℕ
flat [] = []
flat (k ∷ ks) = k ++ flat ks

abbrev pub starts : ℕ → List Slice → List ℕ
starts n [] = []
starts n (k ∷ ks) = n ∷ starts (n + length k) ks

abbrev ends : ℕ → List Slice → List ℕ
ends n [] = []
ends n (k ∷ ks) = (n + length k) ∷ ends (n + length k) ks

flat-append : (ks : List Slice) (k : Slice) → flat (ks ++ (k ∷ [])) ≡ flat ks ++ k
flat-append [] k = append-nil k
flat-append (x ∷ ks) k = ap (λ l. x ++ l) (flat-append ks k) ∙ sym (append_assoc x (flat ks) k)

starts-append :
    (n : ℕ) (ks : List Slice) (k : Slice)
    → starts n (ks ++ (k ∷ [])) ≡ starts n ks ++ ((n + length (flat ks)) ∷ [])
starts-append n [] k = ap (λ m. m ∷ []) (omega arith)
starts-append n (x ∷ ks) k =
    ap (λ l. n ∷ l) (starts-append (n + length x) ks k)
    ∙ ap (λ m. n ∷ (starts (n + length x) ks ++ (m ∷ [])))
        (omega (arith, length-append x (flat ks)))

starts-ends :
    (n : ℕ) (ks : List Slice) → starts n ks ++ ((n + length (flat ks)) ∷ []) ≡ n ∷ ends n ks
starts-ends n [] = ap (λ m. m ∷ []) (omega arith)
starts-ends n (x ∷ ks) =
    ap (λ m. n ∷ (starts (n + length x) ks ++ (m ∷ []))) (omega (arith, length-append x (flat ks)))
    ∙ ap (λ l. n ∷ l) (starts-ends (n + length x) ks)

-- The keys are cut where they were joined.
make_keys-ends :
    (before : List ℕ) (ks : List Slice)
    → make_keys (before ++ flat ks) (length before ∷ ends (length before) ks) ≡ ks
unfolding make_keys
make_keys-ends before [] = refl
make_keys-ends before (k ∷ ks) =
    ap₂ (λ x y. x ∷ y) cut
      (ap₂ (λ l m. make_keys l (m ∷ ends m ks)) (sym (append_assoc before k (flat ks)))
          (sym (length-append before k))
        ∙ make_keys-ends (before ++ k) ks)
  where
    cut :
        take
          (length before + length k - length before)
          (drop (length before) (before ++ (k ++ flat ks)))
        ≡ k
    cut =
        ap (take (length before + length k - length before))
          (drop_exact (length before) before (k ++ flat ks) refl)
        ∙ take_exact (length before + length k - length before) k (flat ks) (omega arith)

make_keys-lem :
    (ks : List Slice) → make_keys (flat ks) (starts 0 ks ++ (length (flat ks) ∷ [])) ≡ ks
make_keys-lem ks =
    ap (λ m. make_keys (flat ks) (starts 0 ks ++ (m ∷ []))) (omega arith)
    ∙ ap (make_keys (flat ks)) (starts-ends 0 ks)
    ∙ make_keys-ends [] ks

-- What n calls of GenerateFilter make of the groups and the keys that wait.
abbrev pub moved : ℕ → List (List Slice) → List Slice → List (List Slice) × List Slice
moved zero gs waiting = (gs, waiting)
moved (suc n) gs waiting = moved n (gs ++ (waiting ∷ [])) []

-- StartBlock moves on to the group of the block's offset, and refuses one that is behind.
abbrev pub started : ℕ → List (List Slice) × List Slice → Option (List (List Slice) × List Slice)
started block_offset (gs, waiting) =
    if ltb (block_offset / filter_base) (length gs)
    then none
    else some (moved (block_offset / filter_base - length gs) gs waiting)

module _ (policy : FilterPolicy) where
  -- The filter of a group, which has none where the group is empty.
  abbrev pub filter_of : List Slice → List ℕ
  filter_of [] = []
  filter_of (k ∷ ks) = policy.create_filter (k ∷ ks) []

  abbrev pub filters : List (List Slice) → List ℕ
  filters [] = []
  filters (g ∷ gs) = filter_of g ++ filters gs

  abbrev pub offsets : ℕ → List (List Slice) → List ℕ
  offsets n [] = []
  offsets n (g ∷ gs) = stored n ∷ offsets (n + length (filter_of g)) gs

  pub filters-append : (gs hs : List (List Slice)) → filters (gs ++ hs) ≡ filters gs ++ filters hs
  filters-append [] hs = refl
  filters-append (g ∷ gs) hs =
      ap (λ l. filter_of g ++ l) (filters-append gs hs)
      ∙ sym (append_assoc (filter_of g) (filters gs) (filters hs))

  pub offsets-append :
      (n : ℕ) (gs hs : List (List Slice))
      → offsets n (gs ++ hs) ≡ offsets n gs ++ offsets (n + length (filters gs)) hs
  offsets-append n [] hs = ap (λ m. offsets m hs) (omega arith)
  offsets-append n (g ∷ gs) hs =
      ap (λ l. stored n ∷ l) (offsets-append (n + length (filter_of g)) gs hs)
      ∙ ap (λ m. stored n ∷ (offsets (n + length (filter_of g)) gs ++ offsets m hs))
          (omega (arith, length-append (filter_of g) (filters gs)))

  pub length-offsets : (n : ℕ) (gs : List (List Slice)) → length (offsets n gs) ≡ length gs
  length-offsets n [] = refl
  length-offsets n (g ∷ gs) = omega (arith, length-offsets (n + length (filter_of g)) gs)

  -- The builder with the filters of these groups made, and these keys added since.
  abbrev pub state : List (List Slice) → List Slice → FilterBlockBuilder
  state gs waiting = record {
    keys = flat waiting;
    start = starts 0 waiting;
    result = filters gs;
    filter_offsets = offsets 0 gs;
  }

  abbrev pub state_of : List (List Slice) × List Slice → FilterBlockBuilder
  state_of (gs, waiting) = state gs waiting

  pub add_key-state :
      (key : Slice) (gs : List (List Slice)) (waiting : List Slice)
      → add_key key (state gs waiting) ≡ state gs (waiting ++ (key ∷ []))
  unfolding add_key
  add_key-state key gs waiting =
      ap₂
        (λ l m. record { keys = l; start = m; result = filters gs; filter_offsets = offsets 0 gs })
        (sym (flat-append waiting key))
        (sym (starts-append 0 waiting key ∙ ap (λ m. starts 0 waiting ++ (m ∷ [])) (omega arith)))

  one_more-offsets :
      (gs : List (List Slice)) (g : List Slice)
      → offsets 0 (gs ++ (g ∷ [])) ≡ offsets 0 gs ++ (stored (length (filters gs)) ∷ [])
  one_more-offsets gs g =
      offsets-append 0 gs (g ∷ []) ∙ ap (λ m. offsets 0 gs ++ (stored m ∷ [])) (omega arith)

  abbrev made : List ℕ → List ℕ → FilterBlockBuilder
  made r o = record { keys = []; start = []; result = r; filter_offsets = o }

  module _ (limit : ℕ) (lawful : IsPolicy policy limit) where
    pub generate_filter-state :
        (gs : List (List Slice)) (waiting : List Slice)
        → generate_filter policy (state gs waiting) ≡ state (gs ++ (waiting ∷ [])) []
    unfolding generate_filter
    generate_filter-state gs [] =
        ap₂ made (sym (filters-append gs ([] ∷ []) ∙ append-nil (filters gs)))
          (sym (one_more-offsets gs []))
    generate_filter-state gs (k ∷ ks) = rw (some_start) (
        ap₂ made
          (ap (λ l. policy.create_filter l (filters gs)) (make_keys-lem (k ∷ ks))
            ∙ lawful.appends (k ∷ ks) (filters gs)
            ∙ ap (λ l. filters gs ++ l) (sym (append-nil (policy.create_filter (k ∷ ks) [])))
            ∙ sym (filters-append gs ((k ∷ ks) ∷ [])))
          (sym (one_more-offsets gs (k ∷ ks))))
      where
        some_start : (suc (length (starts (0 + length k) ks)) == 0) ≡ false
        some_start = ground arith

    generate_below-state :
        (n filter_index : ℕ) (gs : List (List Slice)) (waiting : List Slice)
        → filter_index ≡ length gs + n
        → generate_below policy n filter_index (state gs waiting) ≡ state_of (moved n gs waiting)
    unfolding generate_below
    generate_below-state zero filter_index gs waiting e = refl
    generate_below-state (suc n) filter_index gs waiting e =
        rw (more, generate_filter-state gs waiting)
          (generate_below-state n filter_index (gs ++ (waiting ∷ [])) []
            (omega (arith, length-append gs (waiting ∷ []))))
      where
        more : ltb (length (offsets 0 gs)) filter_index ≡ true
        more = lt→ltb (length (offsets 0 gs)) filter_index (omega (arith, length-offsets 0 gs))

    pub start_block-state :
        (block_offset : ℕ) (gs : List (List Slice)) (waiting : List Slice)
        → start_block policy block_offset (state gs waiting)
          ≡ map state_of (started block_offset (gs, waiting))
    unfolding start_block
    start_block-state block_offset gs waiting =
        rw (length-offsets 0 gs) (elim (Bool-cases (ltb (block_offset / filter_base) (length gs))) [
          | inl behind ↦ rw behind (refl)
          | inr on ↦ rw on (
              ap some (
                generate_below-state (block_offset / filter_base - length gs)
                  (block_offset / filter_base) gs waiting (ground (arith, on))))
        ])
