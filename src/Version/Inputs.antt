-- ===== src/Version/Inputs.antt =====
-- What a search of GetOverlappingInputs can end with.
pub mod Scan
use Prim.Native.Nat.{Ordering}
use terp_builder.Base.{ℕ, ◌<◌, ◌≡◌, Bool, true, false, Option, none, some}
use terp_builder.Base.{List, [], ◌∷◌, ◌++◌, All, ◌==◌, if◌then◌else◌}
use terp_builder.Slice.{Slice}
use terp_builder.Comparator.{Comparator}
use terp_builder.DbFormat.{extract_user_key, is_lt}
use terp_builder.VersionEdit.{FileMetaData}
use terp_builder.Version.{Visit, kept, widened, is_against, is_gt}
use terp_builder.Version.Counts.{count}

abbrev pub or_empty : Option Slice → Slice
or_empty none = []
or_empty (some key) = key

-- The user keys at the ends of a file.
abbrev pub start_of : FileMetaData → Slice
start_of f = or_empty (extract_user_key f.smallest)

abbrev pub limit_of : FileMetaData → Slice
limit_of f = or_empty (extract_user_key f.largest)

-- Its keys are long enough to be internal.
abbrev pub IsKeyed : FileMetaData → Type 0
IsKeyed f =
    (extract_user_key f.smallest ≡ some (start_of f))
    × (extract_user_key f.largest ≡ some (limit_of f))

module _ (user : Comparator) where
  abbrev pub is_early : Option Slice → FileMetaData → Bool
  is_early begin f = is_against is_lt user begin (start_of f)

  abbrev pub is_late : Option Slice → FileMetaData → Bool
  is_late end f = is_against is_gt user end (limit_of f)

  -- The files that have a key in the range, or around it.
  abbrev pub overlapping : Option Slice → Option Slice → List FileMetaData → List FileMetaData
  overlapping begin end [] = []
  overlapping begin end (f ∷ files) =
      let rest = overlapping begin end files in
      if is_against is_lt user begin (limit_of f)
      then rest
      else if is_against is_gt user end (start_of f)
      then rest
      else f ∷ rest

  -- No file goes beyond the range.
  abbrev pub IsInside : Option Slice → Option Slice → List FileMetaData → Type 0
  IsInside begin end = All (λ f. (is_early begin f ≡ false) × (is_late end f ≡ false))

  -- How a scan of these files ends.
  pub data Scanned (level : ℕ) (begin end : Option Slice) (inputs files : List FileMetaData)
      (o : Option Visit) : Type 0 where
    settled :
        o ≡ some (kept (inputs ++ overlapping begin end files))
        → ((level == 0) ≡ true → IsInside begin end (overlapping begin end files))
        → Scanned level begin end inputs files o
    earlier :
        (s k : Slice)
        → (level == 0) ≡ true
        → begin ≡ some k
        → user.compare s k ≡ Ordering.lt
        → count (is_early (some s)) files < count (is_early begin) files
        → o ≡ some (widened (some s) end)
        → Scanned level begin end inputs files o
    later :
        (s k : Slice)
        → (level == 0) ≡ true
        → end ≡ some k
        → user.compare s k ≡ Ordering.gt
        → count (is_late (some s)) files < count (is_late end) files
        → o ≡ some (widened begin (some s))
        → Scanned level begin end inputs files o
