-- ===== src/Version/Search.antt =====
-- FindFile against a search from the first file on.
use Prim.Native.Nat.{Ordering}
use terp_builder.Base.{
  ℕ, zero, suc, ◌+◌, ◌-◌, ◌/◌, ◌%◌, ◌^◌, ◌≤◌, ◌<◌, ◌≡◌, refl, sym, ap, ◌∙◌, arith, Bool, false,
  some, inl, inr,
}
use terp_builder.Base.{
  List, [], ◌∷◌, length, get_elem?, All, ltb, if◌then◌else◌, Bool-cases, ltb→lt,
}
use terp_builder.Slice.{Slice}
use terp_builder.Comparator.{Comparator}
use terp_builder.DbFormat.{internal_compare, is_lt}
use terp_builder.VersionEdit.{FileMetaData}
use terp_builder.Version.{find_from, find_file}

ltb-le : (a b : ℕ) → ltb a b ≡ false → b ≤ a
ltb-le a b h = ground arith

-- The number of files before the first that is not below.
abbrev pub first_not : (FileMetaData → Bool) → List FileMetaData → ℕ
first_not below [] = 0
first_not below (f ∷ files) = let rest = first_not below files in if below f then suc rest else 0

-- After a file that is not below there is none that is.
abbrev pub IsFalling : (FileMetaData → Bool) → List FileMetaData → Type 0
IsFalling below [] = Unit
IsFalling below (f ∷ files) =
    (below f ≡ false → All (λ g. below g ≡ false) files) × IsFalling below files

pub first_not-le :
    (below : FileMetaData → Bool) (files : List FileMetaData) → first_not below files ≤ length files
first_not-le below [] = omega arith
first_not-le below (f ∷ files) = ground (arith, first_not-le below files)

-- The file at a place, what all files have, and whether it is below.
file_at :
    (below : FileMetaData → Bool) (P : FileMetaData → Type 0) (files : List FileMetaData) (i : ℕ)
    → IsFalling below files
    → All P files
    → i < length files
    → (f : FileMetaData) × (get_elem? files i ≡ some f)
      × P f
      × (below f ≡ ltb i (first_not below files))
file_at below P [] i falls all h = absurd (omega arith)
file_at below P (f ∷ files) zero falls all h = (f, refl, all.0, ground arith)
file_at below P (f ∷ files) (suc i) falls all h = elim (Bool-cases (below f)) [
  | inl low ↦
      let (g, e, p, b) = file_at below P files i falls.1 all.1 (omega (arith, h)) in
      (g, e, p, b ∙ ground (arith, low))
  | inr high ↦
      let (g, e, (p, n), b) =
        file_at below (λ g. P g × (below g ≡ false)) files i falls.1
          (All-both P _ files all.1 (falls.0 high)) (omega (arith, h)) in
      (g, e, p, n ∙ ground (arith, high))
]
  where
    All-both :
        (P Q : FileMetaData → Type 0) (files : List FileMetaData)
        → All P files
        → All Q files
        → All (λ g. P g × Q g) files
    All-both P Q [] ps qs = tt
    All-both P Q (f ∷ files) ps qs = ((ps.0, qs.0), All-both P Q files ps.1 qs.1)

module _ (little : Bool) (user : Comparator) (key : Slice) (below : FileMetaData → Bool) where
  -- The comparison with the key has a result, which says whether the file is below.
  abbrev pub IsCompared : FileMetaData → Type 0
  IsCompared f =
      (o : Ordering) × (internal_compare little user f.largest key ≡ some o) × (is_lt o ≡ below f)

  find_from-first_not :
      (n : ℕ) (files : List FileMetaData) (left right : ℕ)
      → IsFalling below files
      → All IsCompared files
      → length files < 2 ^ 31
      → left ≤ first_not below files
      → first_not below files ≤ right
      → right ≤ length files
      → right - left < n
      → find_from little user n files key (left, right) ≡ some (first_not below files)
  unfolding find_from
  find_from-first_not zero files left right falls all small lo hi inside fuel = absurd (omega arith)
  find_from-first_not (suc n) files left right falls all small lo hi inside fuel =
      elim (Bool-cases (ltb left right)) [
        | inr done ↦ rw done (ap some (ground (arith, lo, hi, done)))
        | inl open_range ↦
            let mid = (left + right) % 2 ^ 32 / 2 in
            let (f, here, (o, compared, says), at) =
              file_at below IsCompared files mid falls all
                (omega (arith, first_not-le below files, ltb→lt _ _ open_range)) in
            rw (open_range, here, compared)
              (elim (Bool-cases (is_lt o)) [
                | inl low ↦
                    let before : mid < first_not below files =
                      ltb→lt _ _ (sym at ∙ sym says ∙ low) in
                    let run = ltb→lt _ _ open_range in
                    rw low (
                      find_from-first_not n files ((mid + 1) % 2 ^ 32) right falls all small
                        (omega (arith, before, small, inside, hi)) hi inside
                        (omega (arith, fuel, before, small, inside, hi, run)))
                | inr high ↦
                    let after : first_not below files ≤ mid =
                      ltb-le _ _ (sym at ∙ sym says ∙ high) in
                    let run = ltb→lt _ _ open_range in
                    rw high (
                      find_from-first_not n files left mid falls all small lo after
                        (omega (arith, inside, run)) (omega (arith, fuel, run, small, inside)))
              ])
      ]

  -- FindFile gives the index of the first file that is not below the key.
  pub find_file-first_not :
      (files : List FileMetaData)
      → IsFalling below files
      → All IsCompared files
      → length files < 2 ^ 31
      → find_file little user files key ≡ some (first_not below files)
  unfolding find_file
  find_file-first_not files falls all small =
      ap (λ n. find_from little user (length files + 1) files key (0, n))
        {x = length files % 2 ^ 32} {y = length files} (omega (arith, small))
      ∙ find_from-first_not (length files + 1) files 0 (length files) falls all small (omega arith)
          (first_not-le below files) (omega arith) (omega arith)
