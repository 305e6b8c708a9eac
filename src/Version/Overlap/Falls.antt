-- ===== src/Version/Overlap/Falls.antt =====
-- What holds of the files of a level up to some file, and of none behind it.
use terp_builder.Base.{
  ◌≡◌, refl, sym, ap, ◌∙◌, Bool, true, false, not, Option, none, some, inl, inr,
}
use terp_builder.Base.{List, [], ◌∷◌, All, Bool-cases, some_inj}
use terp_builder.Slice.{Slice}
use terp_builder.Comparator.{Comparator, IsLawful}
use terp_builder.DbFormat.{
  internal_compare, is_lt, append_internal_key, max_sequence_number, value_type_for_seek,
}
use terp_builder.VersionEdit.{FileMetaData}
use terp_builder.Version.{after_file, before_file, is_gt}
use terp_builder.Version.Search.{IsFalling, IsCompared}
use terp_builder.Version.Levels.{
  IsInternalKey, IsFile, IsLevel, IsLess, compare_known, extract-key, largest-IsLess, smallest_user,
  seek_less, less-user,
}
use terp_builder.Version.Bounds.{is_known_lt, is_known_lt-lt, lt-gt, gt-is_gt, below_on, above_back}

module _ (little : Bool) (user : Comparator) (law : IsLawful user) where
  -- What holds of a file when it holds of a later one falls along a level.
  pub level-IsFalling :
      (below : FileMetaData → Bool)
      → ((f g : FileMetaData)
          → IsFile little user f
          → IsFile little user g
          → IsLess little user f.largest g.smallest
          → below g ≡ true
          → below f ≡ true)
      → (files : List FileMetaData) → IsLevel little user files
      → IsFalling below files
  level-IsFalling below back [] level = tt
  level-IsFalling below back (f ∷ files) level =
      (λ high. later files level.1 level.2 high, level-IsFalling below back files level.2)
    where
      later :
          (more : List FileMetaData)
          → All (λ g. IsLess little user f.largest g.smallest) more
          → IsLevel little user more
          → below f ≡ false
          → All (λ g. below g ≡ false) more
      later [] less ok high = tt
      later (g ∷ more) less ok high = (
        elim (Bool-cases (below g)) [
          | inl low ↦ cc (back f g level.0 ok.0 less.0 low, high)
          | inr no_more ↦ no_more
        ],
        later more less.1 ok.2 high,
      )

  pub level-IsCompared :
      (key : Slice)
      → IsInternalKey key
      → (files : List FileMetaData) → IsLevel little user files
      → All
          (IsCompared little user key
            (λ f. is_known_lt (internal_compare little user f.largest key)))
          files
  level-IsCompared key known [] level = tt
  level-IsCompared key known (f ∷ files) level =
      let e = compare_known little user level.0.high known in
      ((_, e, ap is_known_lt (sym e)), level-IsCompared key known files level.2)

  abbrev is_true : Option Bool → Bool
  is_true none = false
  is_true (some b) = b

  abbrev pub is_after : Option Slice → FileMetaData → Bool
  is_after s f = is_true (after_file user s f)

  abbrev pub is_before : Option Slice → FileMetaData → Bool
  is_before s f = is_true (before_file user s f)

  pub after_known :
      (s : Option Slice) (f : FileMetaData)
      → IsFile little user f
      → after_file user s f ≡ some (is_after s f)
  after_known none f hf = refl
  after_known (some s) f hf = rw (extract-key little user hf.high) refl

  pub before_known :
      (s : Option Slice) (f : FileMetaData)
      → IsFile little user f
      → before_file user s f ≡ some (is_before s f)
  before_known none f hf = refl
  before_known (some s) f hf = rw (extract-key little user hf.low) refl

  after-compare :
      (s : Slice) (f : FileMetaData) (hf : IsFile little user f)
      → is_after (some s) f ≡ is_gt (user.compare s hf.high.user_key)
  after-compare s f hf = rw (extract-key little user hf.high) refl

  before-compare :
      (s : Slice) (f : FileMetaData) (hf : IsFile little user f)
      → is_before (some s) f ≡ is_lt (user.compare s hf.low.user_key)
  before-compare s f hf = rw (extract-key little user hf.low) refl

  pub after-IsFalling :
      (s : Option Slice) (files : List FileMetaData)
      → IsLevel little user files
      → IsFalling (is_after s) files
  after-IsFalling none = level-IsFalling (is_after none) (λ f g hf hg less h. h)
  after-IsFalling (some s) = level-IsFalling (is_after (some s)) (λ f g hf hg less h.
      after-compare s f hf
      ∙ ap is_gt (
          above_back user law s hf.high.user_key hg.high.user_key
            (gt-is_gt _ (sym (after-compare s g hg) ∙ h))
            (less-user little user law hf.high hg.high
              (largest-IsLess little user law f g hf hg less))))

  not_before : (a b : Bool) → (a ≡ true → b ≡ true) → not b ≡ true → not a ≡ true
  not_before true b h e = cc (h refl, e)
  not_before false b h e = refl

  pub before-IsFalling :
      (s : Option Slice) (files : List FileMetaData)
      → IsLevel little user files
      → IsFalling (λ f. not (is_before s f)) files
  before-IsFalling none = level-IsFalling (λ f. not (is_before none f)) (λ f g hf hg less h. h)
  before-IsFalling (some l) =
      level-IsFalling (λ f. not (is_before (some l) f))
        (λ f g hf hg less. not_before (is_before (some l) f) (is_before (some l) g) (λ h.
          before-compare l g hg
          ∙ ap is_lt (
              below_on user law l hf.low.user_key hg.low.user_key
                (some_inj (
                  is_known_lt-lt (some (user.compare l hf.low.user_key))
                    (sym (before-compare l f hf) ∙ h)))
                (smallest_user little user law f g hf hg less))))

  unfoldable pub seek_key : Slice → Slice
  seek_key s =
      append_internal_key little []
        (record { user_key = s; sequence = max_sequence_number; type = value_type_for_seek })

  pub seek-IsCompared :
      (s : Slice) (files : List FileMetaData)
      → IsLevel little user files
      → All (IsCompared little user (seek_key s) (is_after (some s))) files
  unfolding seek_key
  seek-IsCompared s [] level = tt
  seek-IsCompared s (f ∷ files) level =
      let hf = level.0 in
      let (o, e, less) = seek_less little user law hf.high s in
      (
        (
          o,
          e,
          less
              ∙ lt-gt (user.compare hf.high.user_key s)
              ∙ ap is_gt (sym (law.opposed hf.high.user_key s))
              ∙ sym (after-compare s f hf),
        ),
        seek-IsCompared s files level.2,
      )
