-- ===== src/Version.antt =====
-- Terp_Builder/Pods/leveldb-library/db/version_set.cc: the searches of a Version in its levels of table files. A read of a key
-- that is too short to be internal is `none`.
pub mod Search
pub mod Levels
pub mod Overlap
pub mod Bounds
pub mod Counts
pub mod Inputs
pub mod Ranges
pub mod Picked
use Prim.Native.Nat.{Ordering}
use terp_builder.Base.{
  ℕ, zero, suc, ◌+◌, ◌*◌, ◌/◌, ◌%◌, ◌^◌, Bool, true, false, not, ◌&&◌, Option, none, some,
}
use terp_builder.Base.{List, [], ◌∷◌, ◌++◌, length, get_elem?, ltb, ◌==◌, if◌then◌else◌, ◌>>=◌}
use terp_builder.Slice.{Slice}
use terp_builder.Comparator.{Comparator}
use terp_builder.DbFormat.{append_internal_key, extract_user_key, internal_compare, is_lt}
use terp_builder.DbFormat.{deletion, max_sequence_number, value_type_for_seek}
use terp_builder.VersionEdit.{FileMetaData, num_levels}

-- config::kMaxMemCompactLevel
abbrev pub max_mem_compact_level : ℕ
max_mem_compact_level = 2

abbrev pub is_gt : Ordering → Bool
is_gt Ordering.lt = false
is_gt Ordering.eq = false
is_gt Ordering.gt = true

-- `a > b` of two int64_t, as their 64 bits.
abbrev pub above_signed : ℕ → ℕ → Bool
above_signed a b = ltb ((b + 2 ^ 63) % 2 ^ 64) ((a + 2 ^ 63) % 2 ^ 64)

-- The argument is options->max_file_size.
abbrev pub max_grand_parent_overlap_bytes : ℕ → ℕ
max_grand_parent_overlap_bytes max_file_size = 10 * max_file_size % 2 ^ 64

unfoldable pub sum_from : ℕ → List FileMetaData → ℕ
sum_from sum [] = sum
sum_from sum (f ∷ files) = sum_from ((sum + f.file_size) % 2 ^ 64) files

abbrev pub total_file_size : List FileMetaData → ℕ
total_file_size files = sum_from 0 files

abbrev pub narrowed : ℕ × ℕ → ℕ → Ordering → ℕ × ℕ
narrowed (left, right) mid o = if is_lt o then ((mid + 1) % 2 ^ 32, right) else (left, mid)

-- A test of user keys, of which one may be missing.
abbrev pub is_past : (Ordering → Bool) → Comparator → Option Slice → Option Slice → Option Bool
is_past test user none bound = some false
is_past test user (some key) none = none
is_past test user (some key) (some bound) = some (test (user.compare key bound))

abbrev pub after_file : Comparator → Option Slice → FileMetaData → Option Bool
after_file user user_key f = is_past is_gt user user_key (extract_user_key f.largest)

abbrev pub before_file : Comparator → Option Slice → FileMetaData → Option Bool
before_file user user_key f = is_past is_lt user user_key (extract_user_key f.smallest)

module _ (little : Bool) (user : Comparator) where
  -- One round of the loop of FindFile, on left and right.
  abbrev pub find_round : List FileMetaData → Slice → ℕ × ℕ → Option (ℕ × ℕ)
  find_round files key (left, right) =
      let mid = (left + right) % 2 ^ 32 / 2 in
      get_elem? files mid
      >>= (λ f. internal_compare little user f.largest key)
      >>= (λ o. some (narrowed (left, right) mid o))

  -- The loop; `none` is also that the fuel ran out.
  unfoldable pub find_from : ℕ → List FileMetaData → Slice → ℕ × ℕ → Option ℕ
  find_from zero files key bounds = none
  find_from (suc n) files key (left, right) =
      let more = find_round files key (left, right) >>= find_from n files key in
      if ltb left right then more else some right

  -- A round makes the range shorter.
  unfoldable pub find_file : List FileMetaData → Slice → Option ℕ
  find_file files key = find_from (length files + 1) files key (0, length files % 2 ^ 32)

  abbrev pub beside : Option Slice → Option Slice → FileMetaData → Option Bool
  beside smallest largest f = after_file user smallest f >>= λ after.
      if after then some true else before_file user largest f

  -- The scan of all files of SomeFileOverlapsRange.
  unfoldable pub any_overlap : List FileMetaData → Option Slice → Option Slice → Option Bool
  any_overlap [] smallest largest = some false
  any_overlap (f ∷ files) smallest largest =
      let rest = any_overlap files smallest largest in
      beside smallest largest f >>= λ off. if off then rest else some true

  abbrev pub first_candidate : List FileMetaData → Option Slice → Option ℕ
  first_candidate files none = some 0
  first_candidate files (some smallest) = find_file files (
      append_internal_key little [] (record {
        user_key = smallest;
        sequence = max_sequence_number;
        type = value_type_for_seek;
      }))

  abbrev pub reaches : Option Slice → Option FileMetaData → Option Bool
  reaches largest none = some false
  reaches largest (some f) = before_file user largest f >>= λ before. some (not before)

  unfoldable pub some_file_overlaps_range :
      Bool → List FileMetaData → Option Slice → Option Slice → Option Bool
  some_file_overlaps_range disjoint_sorted_files files smallest largest =
      if disjoint_sorted_files
      then (first_candidate files smallest >>= λ index. reaches largest (get_elem? files index))
      else any_overlap files smallest largest

  -- The levels of a Version are `files_`.
  abbrev pub overlap_in_level : List (List FileMetaData) → ℕ → Slice → Slice → Option Bool
  overlap_in_level levels level smallest largest = get_elem? levels level >>= λ files.
      some_file_overlaps_range (ltb 0 level) files (some smallest) (some largest)

-- What the loop of GetOverlappingInputs does at one file: it goes on with these inputs, or searches
-- again in a wider range.
pub data Visit : Type 0 where
  kept : List FileMetaData → Visit
  widened : Option Slice → Option Slice → Visit

-- `key != nullptr && test(Compare(bound, key))`
abbrev pub is_against : (Ordering → Bool) → Comparator → Option Slice → Slice → Bool
is_against test user none bound = false
is_against test user (some key) bound = test (user.compare bound key)

abbrev pub scanned : (List FileMetaData → Option Visit) → Visit → Option Visit
scanned later (kept inputs) = later inputs
scanned later (widened begin end) = some (widened begin end)

abbrev pub found :
    (Option Slice → Option Slice → Option (List FileMetaData)) → Visit → Option (List FileMetaData)
found again (kept inputs) = some inputs
found again (widened begin end) = again begin end

abbrev pub user_part : Option Slice → Option (Option Slice)
user_part none = some none
user_part (some key) = extract_user_key key >>= λ user_key. some (some user_key)

module _ (user : Comparator) where
  -- The keys are those of the range, `none` for a null pointer, and of the file.
  abbrev pub visit :
      ℕ → Option Slice → Option Slice → List FileMetaData → FileMetaData → Slice → Slice → Visit
  visit level begin end inputs f start limit =
      if is_against is_lt user begin limit
      then kept inputs
      else if is_against is_gt user end start
      then kept inputs
      else if (level == 0) && is_against is_lt user begin start
      then widened (some start) end
      else if (level == 0) && is_against is_gt user end limit
      then widened begin (some limit)
      else kept (inputs ++ (f ∷ []))

  unfoldable pub scan :
      ℕ → Option Slice → Option Slice → List FileMetaData → List FileMetaData → Option Visit
  scan level begin end inputs [] = some (kept inputs)
  scan level begin end inputs (f ∷ files) = extract_user_key f.smallest >>= λ start.
      extract_user_key f.largest >>= λ limit.
      scanned (λ more. scan level begin end more files) (visit level begin end inputs f start limit)

  -- The searches, each from the first file; `none` is also that the fuel ran out.
  unfoldable pub inputs_from :
      ℕ → ℕ → List FileMetaData → Option Slice → Option Slice → Option (List FileMetaData)
  inputs_from zero level files begin end = none
  inputs_from (suc n) level files begin end =
      scan level begin end [] files >>= found (inputs_from n level files)

  -- A search that starts again has a wider range, by one end of a file or more.
  unfoldable pub get_overlapping_inputs :
      List (List FileMetaData) → ℕ → Option Slice → Option Slice → Option (List FileMetaData)
  get_overlapping_inputs levels level begin end = user_part begin >>= λ user_begin.
      user_part end >>= λ user_end. get_elem? levels level >>= λ files.
      inputs_from (2 * length files + 1) level files user_begin user_end

module _ (little : Bool) (user : Comparator) (max_file_size : ℕ)
    (levels : List (List FileMetaData)) where
  abbrev pub grandparents_allow : ℕ → Slice → Slice → Option Bool
  grandparents_allow level start limit =
      let overlaps = get_overlapping_inputs user levels (level + 2) (some start) (some limit) in
      if ltb (level + 2) num_levels
      then (overlaps >>= λ files. some (
          not
            (above_signed (total_file_size files) (max_grand_parent_overlap_bytes max_file_size))))
      else some true

  -- The loop; start and limit are the internal keys.
  unfoldable pub pick_from : ℕ → ℕ → Slice → Slice → Slice → Slice → Option ℕ
  pick_from zero level smallest largest start limit = none
  pick_from (suc n) level smallest largest start limit =
      let deeper = pick_from n (level + 1) smallest largest start limit in
      let below = overlap_in_level little user levels (level + 1) smallest largest >>= λ overlaps.
      (if overlaps
        then some level
        else (grandparents_allow level start limit >>= λ allowed.
            if allowed then deeper else some level)) in
      if ltb level max_mem_compact_level then below else some level

  unfoldable pub pick_level_for_mem_table_output : Slice → Slice → Option ℕ
  pick_level_for_mem_table_output smallest largest =
      let start = append_internal_key little [] (record {
        user_key = smallest;
        sequence = max_sequence_number;
        type = value_type_for_seek;
      }) in
      let limit =
        append_internal_key little []
          (record { user_key = largest; sequence = 0; type = deletion }) in
      let picked = pick_from (max_mem_compact_level + 1) 0 smallest largest start limit in
      overlap_in_level little user levels 0 smallest largest >>= λ overlaps.
      if overlaps then some 0 else picked
