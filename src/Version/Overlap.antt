-- ===== src/Version/Overlap.antt =====
-- The two ways of SomeFileOverlapsRange to search a level.
pub mod Falls
use terp_builder.Base.{
  ◌^◌, ◌<◌, ◌≡◌, refl, sym, ap, ◌∙◌, Bool, true, false, not, Option, none, some, inl, inr,
}
use terp_builder.Base.{List, [], ◌∷◌, length, get_elem?, All, if◌then◌else◌, ◌>>=◌, Bool-cases}
use terp_builder.Slice.{Slice}
use terp_builder.Comparator.{Comparator, IsLawful}
use terp_builder.DbFormat.{internal_compare}
use terp_builder.VersionEdit.{FileMetaData}
use terp_builder.Version.{
  find_file, some_file_overlaps_range, any_overlap, first_candidate, reaches, beside,
}
use terp_builder.Version.Search.{first_not, IsFalling, find_file-first_not}
use terp_builder.Version.Levels.{IsInternalKey, IsFile, IsLevel, largest-IsLess, lt_trans}
use terp_builder.Version.Bounds.{is_known_lt, is_known_lt-lt}
use terp_builder.Version.Overlap.Falls.{
  level-IsFalling, level-IsCompared, before-IsFalling, seek_key, before_known, is_after, is_before,
  after_known, after-IsFalling, seek-IsCompared,
}

module _ (little : Bool) (user : Comparator) (law : IsLawful user) where
  -- For a lawful user comparator, a level of less than 2^31 files that follow one another, and an
  -- internal key: FindFile gives the index of the first file whose largest key is not below the key,
  -- or the number of files, as a search from the first file on does.
  pub find_file_lem :
      (files : List FileMetaData) (key : Slice)
      → IsLevel little user files
      → IsInternalKey key
      → length files < 2 ^ 31
      → find_file little user files key
        ≡ some (first_not (λ f. is_known_lt (internal_compare little user f.largest key)) files)
  find_file_lem files key level known small =
      find_file-first_not little user key _ files
        (level-IsFalling little user law _
          (λ f g hf hg less low. ap is_known_lt (
            lt_trans little user law hf.high hg.high known
              (largest-IsLess little user law f g hf hg less) (is_known_lt-lt _ low)))
          files level)
        (level-IsCompared little user law key known files level) small

  off-first :
      (a b : Bool) (rest : Option Bool)
      → not b ≡ false
      → rest ≡ some false
      → ((if a then some true else some b) >>= λ off. if off then rest else some true) ≡ some false
  off-first true true rest h e = e
  off-first true false rest h e = e
  off-first false true rest h e = e
  off-first false false rest h e = cc h

  near-first :
      (b : Bool) (rest : Option Bool)
      → (b ≡ true → rest ≡ some false)
      → some (not b) ≡ (if b then rest else some true)
  near-first true rest h = sym (h refl)
  near-first false rest h = refl

  first_known :
      (smallest : Option Slice) (files : List FileMetaData)
      → IsLevel little user files
      → length files < 2 ^ 31
      → first_candidate little user files smallest
        ≡ some (first_not (is_after little user law smallest) files)
  unfolding seek_key
  first_known none [] level small = refl
  first_known none (f ∷ files) level small = refl
  first_known (some s) files level small =
      find_file-first_not little user (seek_key little user law s)
        (is_after little user law (some s)) files
        (after-IsFalling little user law (some s) files level)
        (seek-IsCompared little user law s files level) small

  if-some : (a b : Bool) → (if a then some b else some true) ≡ some (if a then b else true)
  if-some true b = refl
  if-some false b = refl

  two-some : (a b : Bool) → (if a then some true else some b) ≡ some (if a then true else b)
  two-some true b = refl
  two-some false b = refl

  beside_known :
      (smallest largest : Option Slice) (f : FileMetaData)
      → IsFile little user f
      → (b : Bool) × (beside little user smallest largest f ≡ some b)
  beside_known smallest largest f hf = (
    if is_after little user law smallest f then true else is_before little user law largest f,
    rw (after_known little user law smallest f hf, before_known little user law largest f hf)
        (two-some (is_after little user law smallest f) (is_before little user law largest f)),
  )

  module _ (smallest largest : Option Slice) where
    -- Where every file is after the range, none overlaps it.
    none_overlaps :
        (files : List FileMetaData)
        → IsLevel little user files
        → All (λ g. not (is_before little user law largest g) ≡ false) files
        → any_overlap little user files smallest largest ≡ some false
    unfolding any_overlap
    none_overlaps [] level off = refl
    none_overlaps (f ∷ files) level off =
        rw
          (
            after_known little user law smallest f level.0,
            before_known little user law largest f level.0,
          )
          (off-first (is_after little user law smallest f) (is_before little user law largest f) _
            off.0 (none_overlaps files level.2 off.1))

    candidate_decides :
        (files : List FileMetaData)
        → IsLevel little user files
        → IsFalling (is_after little user law smallest) files
        → IsFalling (λ f. not (is_before little user law largest f)) files
        → reaches little user largest
            (get_elem? files (first_not (is_after little user law smallest) files))
          ≡ any_overlap little user files smallest largest
    unfolding any_overlap
    candidate_decides [] level falls rises = refl
    candidate_decides (f ∷ files) level falls rises =
        elim (Bool-cases (is_after little user law smallest f)) [
          | inl after ↦
              rw (after, after_known little user law smallest f level.0, after)
                (candidate_decides files level.2 falls.1 rises.1)
          | inr near ↦
              rw
                (
                  near,
                  after_known little user law smallest f level.0,
                  near,
                  before_known little user law largest f level.0,
                )
                (near-first (is_before little user law largest f) _
                  (λ h. none_overlaps files level.2 (rises.0 (ap not h))))
        ]

    -- For a lawful user comparator and a level of less than 2^31 files that follow one another, the
    -- binary search of SomeFileOverlapsRange answers as its scan of all files does.
    pub some_file_overlaps_range_lem :
        (files : List FileMetaData)
        → IsLevel little user files
        → length files < 2 ^ 31
        → some_file_overlaps_range little user true files smallest largest
          ≡ some_file_overlaps_range little user false files smallest largest
    unfolding some_file_overlaps_range
    some_file_overlaps_range_lem files level small =
        ap (λ o. o >>= λ index. reaches little user largest (get_elem? files index))
          (first_known smallest files level small)
        ∙ candidate_decides files level (after-IsFalling little user law smallest files level)
            (before-IsFalling little user law largest files level)

  -- The scan of all files has an answer.
  pub any_known :
      (smallest largest : Option Slice) (files : List FileMetaData)
      → All (IsFile little user) files
      → (b : Bool) × (any_overlap little user files smallest largest ≡ some b)
  unfolding any_overlap
  any_known smallest largest [] valid = (false, refl)
  any_known smallest largest (f ∷ files) valid =
      let (b, rest) = any_known smallest largest files valid.1 in
      let (off, here) = beside_known smallest largest f valid.0 in
      (if off then b else true, rw (here, rest) (if-some off b))
