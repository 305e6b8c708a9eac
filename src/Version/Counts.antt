-- ===== src/Version/Counts.antt =====
-- How many files pass a test.
use terp_builder.Base.{ℕ, suc, ◌≤◌, ◌<◌, ◌≡◌, arith, Bool, true, false, inl, inr}
use terp_builder.Base.{List, [], ◌∷◌, length, if◌then◌else◌, Bool-cases}
use terp_builder.VersionEdit.{FileMetaData}

abbrev pub count : (FileMetaData → Bool) → List FileMetaData → ℕ
count test [] = 0
count test (f ∷ files) = let rest = count test files in if test f then suc rest else rest

pub count-le :
    (p q : FileMetaData → Bool) (files : List FileMetaData)
    → ((f : FileMetaData) → p f ≡ true → q f ≡ true)
    → count p files ≤ count q files
count-le p q [] h = omega arith
count-le p q (f ∷ files) h =
    let rest = count-le p q files h in
    elim (Bool-cases (p f)) [
      | inl yes_p ↦ rw (yes_p, h f yes_p) (omega (arith, rest))
      | inr no_p ↦ rw no_p (ground (arith, rest))
    ]

pub count-length :
    (p : FileMetaData → Bool) (files : List FileMetaData) → count p files ≤ length files
count-length p [] = omega arith
count-length p (f ∷ files) = ground (arith, count-length p files)

-- One file that is no longer counted.
pub count-first :
    (p q : FileMetaData → Bool) (f : FileMetaData) (files : List FileMetaData)
    → ((g : FileMetaData) → p g ≡ true → q g ≡ true)
    → p f ≡ false
    → q f ≡ true
    → count p (f ∷ files) < count q (f ∷ files)
count-first p q f files h no_p yes_q = rw (no_p, yes_q) (omega (arith, count-le p q files h))

pub count-more :
    (p q : FileMetaData → Bool) (f : FileMetaData) (files : List FileMetaData)
    → ((g : FileMetaData) → p g ≡ true → q g ≡ true)
    → count p files < count q files
    → count p (f ∷ files) < count q (f ∷ files)
count-more p q f files h less = elim (Bool-cases (p f)) [
  | inl yes_p ↦ rw (yes_p, h f yes_p) (omega (arith, less))
  | inr no_p ↦ rw no_p (ground (arith, less))
]
