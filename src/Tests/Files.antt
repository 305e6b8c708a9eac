-- ===== src/Tests/Files.antt =====
-- Runs of the searches of a Version, and of SetCurrentFile.
use Prim.Native.Nat.{Ordering}
use terp_builder.Base.{
  ℕ, zero, suc, ◌^◌, ◌≤◌, ◌<◌, ◌≡◌, ◌≢◌, refl, sym, ap, ◌∙◌, arith, true, false, Option, none, some,
  inl, inr, some_inj,
}
use terp_builder.Base.{List, [], ◌∷◌, ◌++◌, length, get_elem?, All, Bool-cases, if◌then◌else◌}
use terp_builder.Slice.{Slice, compare, memcmp, equals}
use terp_builder.Slice.Lexical.{equals_iff}
use terp_builder.Base.Text.{bytes}
use terp_builder.Status.{Status, ok, io_error}
use terp_builder.Env.System.{Env, IsFileSystem}
use terp_builder.FileName.{current_file_name, make_file_name, llu_06}
use terp_builder.FileName.Current.{IsOutcome, set_current_file, set_current_file_lem}
use terp_builder.Comparator.{Comparator, bytewise_comparator}
use terp_builder.Comparator.Bytewise.{bytewise_comparator-IsLawful}
use terp_builder.DbFormat.{internal_compare, extract_user_key}
use terp_builder.DbFormat.Keys.{keyed}
use terp_builder.DbFormat.Order.{both, descending}
use terp_builder.VersionEdit.{FileMetaData, file_meta_data}
use terp_builder.Version.{
  find_file, some_file_overlaps_range, get_overlapping_inputs, pick_level_for_mem_table_output,
}
use terp_builder.Version.Search.{first_not}
use terp_builder.Version.Levels.{IsInternalKey, IsFile, IsLevel, IsLess, compare_known}
use terp_builder.Version.Bounds.{is_known_lt}
use terp_builder.Version.Overlap.{find_file_lem, some_file_overlaps_range_lem}
use terp_builder.Version.Inputs.{IsKeyed}
use terp_builder.Version.Ranges.{get_overlapping_inputs-IsClosed, IsClosed}
use terp_builder.Version.Picked.{IsTree, IsUncovered, pick_level_for_mem_table_output_lem}

-- The keys of one letter at the number 256.
abbrev at_letter : ℕ → Slice
at_letter c = keyed (c ∷ []) 256

key_known : (c : ℕ) → IsInternalKey (at_letter c)
key_known c = record { user_key = c ∷ []; number = 256; stored = refl; small = omega arith }

abbrev letters : ℕ → ℕ → ℕ → FileMetaData
letters number a b = file_meta_data number 1000 (at_letter a) (at_letter b)

abbrev bytewise : Comparator
bytewise = bytewise_comparator

letter-IsLess :
    (a b : ℕ)
    → both (bytewise.compare (a ∷ []) (b ∷ [])) (descending 256 256) ≡ Ordering.lt
    → IsLess true bytewise (at_letter a) (at_letter b)
unfolding key_known
letter-IsLess a b less = compare_known true bytewise (key_known a) (key_known b) ∙ ap some less

letter_ordered :
    (a b : ℕ)
    → both (bytewise.compare (b ∷ []) (a ∷ [])) (descending 256 256) ≢ Ordering.lt
    → internal_compare true bytewise (at_letter b) (at_letter a) ≢ some Ordering.lt
unfolding key_known
letter_ordered a b least e =
    least (some_inj (sym (compare_known true bytewise (key_known b) (key_known a)) ∙ e))

letters-IsFile :
    (number a b : ℕ)
    → both (bytewise.compare (b ∷ []) (a ∷ [])) (descending 256 256) ≢ Ordering.lt
    → IsFile true bytewise (letters number a b)
letters-IsFile number a b least = record {
  low = key_known a;
  high = key_known b;
  ordered = letter_ordered a b least;
}

-- "a" to "b", and "d" to "f".
abbrev two_files : List FileMetaData
two_files = letters 1 97 98 ∷ letters 2 100 102 ∷ []

two_files-IsLevel : IsLevel true bytewise two_files
unfolding compare memcmp
two_files-IsLevel = (
  letters-IsFile 1 97 98 (λ e. cc e),
  (letter-IsLess 98 100 refl, tt),
  (letters-IsFile 2 100 102 (λ e. cc e), tt, tt),
)

find_file_lem_example :
    find_file true bytewise two_files (at_letter 99)
    ≡ some (
        first_not
          (λ f. is_known_lt (internal_compare true bytewise f.largest (at_letter 99)))
          two_files)
find_file_lem_example =
    find_file_lem true bytewise bytewise_comparator-IsLawful two_files (at_letter 99)
      two_files-IsLevel (key_known 99) (omega arith)

some_file_overlaps_range_lem_example :
    some_file_overlaps_range true bytewise true two_files (some (99 ∷ [])) (some (101 ∷ []))
    ≡ some_file_overlaps_range true bytewise false two_files (some (99 ∷ [])) (some (101 ∷ []))
some_file_overlaps_range_lem_example =
    some_file_overlaps_range_lem true bytewise bytewise_comparator-IsLawful (some (99 ∷ []))
      (some (101 ∷ [])) two_files two_files-IsLevel (omega arith)

abbrev tree_files : ℕ → List FileMetaData
tree_files zero = letters 3 97 97 ∷ letters 4 97 101 ∷ []
tree_files (suc zero) = two_files
tree_files (suc (suc level)) = []

abbrev seven_levels : List (List FileMetaData)
seven_levels = tree_files 0 ∷ two_files ∷ [] ∷ [] ∷ [] ∷ [] ∷ [] ∷ []

top-valid : All (IsFile true bytewise) (tree_files 0)
unfolding compare memcmp
top-valid = (letters-IsFile 3 97 97 (λ e. cc e), (letters-IsFile 4 97 101 (λ e. cc e), tt))

two-valid : All (IsFile true bytewise) two_files
unfolding compare memcmp
two-valid = (letters-IsFile 1 97 98 (λ e. cc e), (letters-IsFile 2 100 102 (λ e. cc e), tt))

tree_at : (level : ℕ) → level < 7 → get_elem? seven_levels level ≡ some (tree_files level)
tree_at zero h = refl
tree_at (suc zero) h = refl
tree_at (suc (suc zero)) h = refl
tree_at (suc (suc (suc zero))) h = refl
tree_at (suc (suc (suc (suc zero)))) h = refl
tree_at (suc (suc (suc (suc (suc zero))))) h = refl
tree_at (suc (suc (suc (suc (suc (suc zero)))))) h = refl
tree_at (suc (suc (suc (suc (suc (suc (suc level))))))) h = absurd (omega (arith, h))

tree_valid : (level : ℕ) → level < 7 → All (IsFile true bytewise) (tree_files level)
tree_valid zero h = top-valid
tree_valid (suc zero) h = two-valid
tree_valid (suc (suc level)) h = tt

tree_sorted : (level : ℕ) → 0 < level → level < 7 → IsLevel true bytewise (tree_files level)
tree_sorted zero h k = absurd (omega (arith, h))
tree_sorted (suc zero) h k = two_files-IsLevel
tree_sorted (suc (suc level)) h k = tt

tree_few : (level : ℕ) → length (tree_files level) < 2 ^ 31
tree_few zero = omega arith
tree_few (suc zero) = omega arith
tree_few (suc (suc level)) = omega arith

seven-IsTree : IsTree true bytewise seven_levels
seven-IsTree = record {
  files = tree_files;
  at = tree_at;
  valid = tree_valid;
  sorted = tree_sorted;
  few = tree_few;
}

-- "x" to "z" overlaps nothing.
pick_level_for_mem_table_output_lem_example :
    (picked : ℕ) × (pick_level_for_mem_table_output true bytewise 2000000 seven_levels
        (120 ∷ [])
        (122 ∷ [])
      ≡ some picked)
    × (picked ≤ 2)
    × IsUncovered true bytewise bytewise_comparator-IsLawful seven_levels seven-IsTree
        (120 ∷ [])
        (122 ∷ [])
        picked
pick_level_for_mem_table_output_lem_example =
    pick_level_for_mem_table_output_lem true bytewise bytewise_comparator-IsLawful seven_levels
      seven-IsTree (120 ∷ []) (122 ∷ []) 2000000

top-IsKeyed : All IsKeyed (tree_files 0)
unfolding keyed extract_user_key
top-IsKeyed = ((refl, refl), ((refl, refl), tt))

-- On level 0 the file from "a" to "e" brings in the one that is "a" alone.
get_overlapping_inputs-IsClosed_example :
    (inputs : List FileMetaData) × (get_overlapping_inputs bytewise seven_levels 0
        (some (at_letter 99))
        (some (at_letter 100))
      ≡ some inputs)
    × IsClosed bytewise 0 (tree_files 0) (some (99 ∷ [])) (some (100 ∷ [])) inputs
unfolding keyed extract_user_key
get_overlapping_inputs-IsClosed_example =
    get_overlapping_inputs-IsClosed bytewise bytewise_comparator-IsLawful seven_levels 0
      (tree_files 0) (some (at_letter 99)) (some (at_letter 100)) (some (99 ∷ [])) (some (100 ∷ []))
      refl top-IsKeyed refl refl

-- A file system that is a function from names.
abbrev Disk : Type 0
Disk = List ℕ → Option (List ℕ)

abbrev written_at : List ℕ → Option (List ℕ) → Disk → Disk
written_at name held disk = λ other. if equals other name then held else disk other

abbrev extended : Slice → Option (List ℕ) → Option (List ℕ)
extended text none = none
extended text (some held) = some (held ++ text)

-- A rename that fails where the target exists, and loses it.
abbrev rename_to : Option (List ℕ) → List ℕ → List ℕ → Disk → Status × Disk
rename_to none src target s = (ok, written_at target (s src) (written_at src none s))
rename_to (some held) src target s = (Status.error io_error [], written_at target none s)

abbrev disk_env : Env Disk (List ℕ)
disk_env = record {
  new_writable_file = λ name s. (ok, name, written_at name (some []) s);
  append = λ h text s. (ok, written_at h (extended text (s h)) s);
  sync = λ h s. (ok, s);
  close = λ h s. (ok, s);
  discard = λ h s. s;
  delete_file = λ name s. (ok, written_at name none s);
  rename_file = λ src target s. rename_to (s target) src target s;
}

at_name : (name : List ℕ) (held : Option (List ℕ)) (s : Disk) → written_at name held s name ≡ held
at_name name held s = ap (λ b. if b then held else s name) ((equals_iff name name).1 refl)

beside_name :
    (name other : List ℕ) (held : Option (List ℕ)) (s : Disk)
    → other ≢ name
    → written_at name held s other ≡ s other
beside_name name other held s apart = elim (Bool-cases (equals other name)) [
  | inl same ↦ absurd (apart ((equals_iff other name).0 same))
  | inr differs ↦ ap (λ b. if b then held else s other) differs
]

rename_to-good :
    (there : Option (List ℕ)) (src target : List ℕ) (s : Disk)
    → (rename_to there src target s).0 ≡ ok
    → (rename_to there src target s).1 target ≡ s src
rename_to-good none src target s good = at_name target (s src) (written_at src none s)
rename_to-good (some held) src target s good = cc good

disk_env-IsFileSystem : IsFileSystem disk_env (λ s. s) (λ h. h)
disk_env-IsFileSystem = record {
  created_name = λ name s good. refl;
  created = λ name s good. at_name name (some []) s;
  created_beside = λ name other s apart. beside_name name other (some []) s apart;
  appended =
      λ h text held s good there. at_name h (extended text (s h)) s ∙ ap (extended text) there;
  appended_beside = λ h text other s apart. beside_name h other (extended text (s h)) s apart;
  synced = λ h s good. refl;
  synced_beside = λ h other s apart. refl;
  closed = λ h s good. refl;
  closed_beside = λ h other s apart. refl;
  discarded = λ h name s. refl;
  deleted_beside = λ name other s apart. beside_name name other none s apart;
  renamed = λ src target s good. rename_to-good (s target) src target s good;
}

-- A disk that has a CURRENT, so that the rename fails.
abbrev old_disk : Disk
old_disk =
    written_at (current_file_name (bytes "db")) (some (bytes "MANIFEST-000004")) (λ name. none)

set_current_file_lem_example :
    (status : Status) × (s' : Disk) × (set_current_file disk_env (bytes "db") 5 old_disk
      ≡ some (status, s'))
    × IsOutcome disk_env
        (λ s. s)
        (make_file_name (bytes "db") 5 (bytes "dbtmp"))
        (current_file_name (bytes "db"))
        (bytes "MANIFEST-" ++ (llu_06 5 ++ (10 ∷ [])))
        old_disk
        status
        s'
set_current_file_lem_example =
    set_current_file_lem disk_env (λ s. s) (λ h. h) disk_env-IsFileSystem (bytes "db") 5
      (omega arith) (omega arith) old_disk
