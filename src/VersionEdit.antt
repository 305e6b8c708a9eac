-- ===== src/VersionEdit.antt =====
-- Terp_Builder/Pods/leveldb-library/db/version_edit.h and version_edit.cc: a change of the set of table files, and its record in
-- the manifest. An InternalKey is its rep_; the std::set deleted_files_ is its elements in order.
pub mod Total
pub mod Entries
pub mod NewFiles
pub mod Debug
pub mod Header
pub mod RoundTrip
use Prim.Native.String.{String}
use terp_builder.Base.{
  ℕ, ◌+◌, ◌^◌, Bool, true, false, ◌&&◌, ◌||◌, Option, none, some, List, [], ◌∷◌, ◌++◌,
}
use terp_builder.Base.{ltb, ◌==◌, if◌then◌else◌, ◌>>=◌}
use terp_builder.Base.Text.{bytes}
use terp_builder.Base.Consume.{Round, done, again, run}
use terp_builder.Slice.{Slice}
use terp_builder.Status.{Status, ok, status, corruption}
use terp_builder.Coding.Varint.{put_varint32, put_varint64, get_varint32, get_varint64}
use terp_builder.Coding.Prefixed.{put_length_prefixed_slice, get_length_prefixed_slice}

pub record FileMetaData : Type 0 where
  pub refs : ℕ
  pub allowed_seeks : ℕ
  pub number : ℕ
  pub file_size : ℕ
  pub smallest : Slice
  pub largest : Slice

pub record VersionEdit : Type 0 where
  pub comparator : List ℕ
  pub log_number : ℕ
  pub prev_log_number : ℕ
  pub next_file_number : ℕ
  pub last_sequence : ℕ
  pub has_comparator : Bool
  pub has_log_number : Bool
  pub has_prev_log_number : Bool
  pub has_next_file_number : Bool
  pub has_last_sequence : Bool
  pub compact_pointers : List (ℕ × Slice)
  pub deleted_files : List (ℕ × ℕ)
  pub new_files : List (ℕ × FileMetaData)

-- config::kNumLevels
abbrev pub num_levels : ℕ
num_levels = 7

-- `Clear`; compact_pointers_ is not among what it clears.
unfoldable pub clear : VersionEdit → VersionEdit
clear e = record e {
  comparator = [];
  log_number = 0;
  prev_log_number = 0;
  last_sequence = 0;
  next_file_number = 0;
  has_comparator = false;
  has_log_number = false;
  has_prev_log_number = false;
  has_next_file_number = false;
  has_last_sequence = false;
  deleted_files = [];
  new_files = [];
}

abbrev pub set_comparator_name : Slice → VersionEdit → VersionEdit
set_comparator_name name e = record e { has_comparator = true; comparator = name }

abbrev pub set_log_number : ℕ → VersionEdit → VersionEdit
set_log_number num e = record e { has_log_number = true; log_number = num }

abbrev pub set_prev_log_number : ℕ → VersionEdit → VersionEdit
set_prev_log_number num e = record e { has_prev_log_number = true; prev_log_number = num }

abbrev pub set_next_file : ℕ → VersionEdit → VersionEdit
set_next_file num e = record e { has_next_file_number = true; next_file_number = num }

abbrev pub set_last_sequence : ℕ → VersionEdit → VersionEdit
set_last_sequence seq e = record e { has_last_sequence = true; last_sequence = seq }

abbrev pub set_compact_pointer : ℕ → Slice → VersionEdit → VersionEdit
set_compact_pointer level key e = record e {
  compact_pointers = e.compact_pointers ++ ((level, key) ∷ []);
}

-- FileMetaData's constructor, with the four fields that are set after it.
abbrev pub file_meta_data : ℕ → ℕ → Slice → Slice → FileMetaData
file_meta_data number file_size smallest largest = record {
  refs = 0;
  allowed_seeks = 2 ^ 30;
  number = number;
  file_size = file_size;
  smallest = smallest;
  largest = largest;
}

abbrev pub add_file : ℕ → ℕ → ℕ → Slice → Slice → VersionEdit → VersionEdit
add_file level file file_size smallest largest e = record e {
  new_files = e.new_files ++ ((level, file_meta_data file file_size smallest largest) ∷ []);
}

-- `<` of std::pair
abbrev pub pair_lt : ℕ × ℕ → ℕ × ℕ → Bool
pair_lt (a, b) (c, d) = ltb a c || (a == c) && ltb b d

-- `insert` of std::set
unfoldable pub insert : ℕ × ℕ → List (ℕ × ℕ) → List (ℕ × ℕ)
insert x [] = x ∷ []
insert x (y ∷ ys) =
    let rest = insert x ys in
    if pair_lt x y then x ∷ y ∷ ys else if pair_lt y x then y ∷ rest else y ∷ ys

abbrev pub delete_file : ℕ → ℕ → VersionEdit → VersionEdit
delete_file level file e = record e { deleted_files = insert (level, file) e.deleted_files }

-- `Encode` of an InternalKey, with its assertion that the key is not empty.
abbrev pub encoded_key : Slice → Option Slice
encoded_key [] = none
encoded_key (b ∷ key) = some (b ∷ key)

-- The parts of EncodeTo.
unfoldable pub put_comparator : Bool → Slice → List ℕ → List ℕ
put_comparator has name dst =
    if has then put_length_prefixed_slice (put_varint32 dst 1) name else dst

unfoldable pub put_number : Bool → ℕ → ℕ → List ℕ → List ℕ
put_number has tag num dst = if has then put_varint64 (put_varint32 dst tag) num else dst

unfoldable pub put_pointers : List (ℕ × Slice) → List ℕ → Option (List ℕ)
put_pointers [] dst = some dst
put_pointers ((level, key) ∷ ps) dst = do
  rep ← encoded_key key
  put_pointers ps (put_length_prefixed_slice (put_varint32 (put_varint32 dst 5) level) rep)

unfoldable pub put_deleted : List (ℕ × ℕ) → List ℕ → List ℕ
put_deleted [] dst = dst
put_deleted ((level, number) ∷ fs) dst =
    put_deleted fs (put_varint64 (put_varint32 (put_varint32 dst 6) level) number)

unfoldable pub put_new : List (ℕ × FileMetaData) → List ℕ → Option (List ℕ)
put_new [] dst = some dst
put_new ((level, f) ∷ fs) dst = do
  smallest ← encoded_key f.smallest
  largest ← encoded_key f.largest
  put_new fs (
      put_length_prefixed_slice
        (put_length_prefixed_slice
          (put_varint64 (put_varint64 (put_varint32 (put_varint32 dst 7) level) f.number)
            f.file_size)
          smallest)
        largest)

-- `none` where the assertion on a key fails.
unfoldable pub encode_to : VersionEdit → List ℕ → Option (List ℕ)
encode_to e dst = do
  pointed ← put_pointers e.compact_pointers (
      put_number e.has_last_sequence 4 e.last_sequence (
        put_number e.has_next_file_number 3 e.next_file_number (
          put_number e.has_prev_log_number 9 e.prev_log_number (
            put_number e.has_log_number 2 e.log_number
              (put_comparator e.has_comparator e.comparator dst)))))
  put_new e.new_files (put_deleted e.deleted_files pointed)

abbrev within : Option ℕ × Slice → Option ℕ × Slice
within (none, input) = (none, input)
within (some v, input) = if ltb v num_levels then (some v, input) else (none, input)

unfoldable pub get_level : Slice → Option ℕ × Slice
get_level input = within (get_varint32 input)

abbrev pub Parsed : Type 0
Parsed = Round VersionEdit (VersionEdit × Status)

-- The loop ends once msg is set.
unfoldable pub failed : VersionEdit → String → Parsed
failed e msg = done (e, status corruption (bytes "VersionEdit") (bytes msg))

-- `if (get) { … } else { msg = … }`
abbrev pub got :
    {A : Type 0} → VersionEdit → String → (A → Slice → Parsed) → Option A × Slice → Parsed
got e msg next (none, input) = failed e msg
got e msg next (some a, input) = next a input

unfoldable pub decode_new_file : VersionEdit → Slice → Parsed
decode_new_file e input =
    got e "new-file entry"
      (λ level r1.
        got e "new-file entry"
          (λ number r2.
            got e "new-file entry"
              (λ file_size r3.
                got e "new-file entry"
                  (λ smallest r4.
                    got e "new-file entry"
                      (λ largest. again (add_file level number file_size smallest largest e))
                      (get_length_prefixed_slice r4))
                  (get_length_prefixed_slice r3))
              (get_varint64 r2))
          (get_varint64 r1))
      (get_level input)

unfoldable pub decode_pointer : VersionEdit → Slice → Parsed
decode_pointer e input =
    got e "compaction pointer"
      (λ level rest.
        got e "compaction pointer" (λ key. again (set_compact_pointer level key e))
          (get_length_prefixed_slice rest))
      (get_level input)

unfoldable pub decode_deleted : VersionEdit → Slice → Parsed
decode_deleted e input =
    got e "deleted file"
      (λ level rest.
        got e "deleted file" (λ number. again (delete_file level number e)) (get_varint64 rest))
      (get_level input)

-- The switch of DecodeFrom.
unfoldable pub decode_field : VersionEdit → ℕ → Slice → Parsed
decode_field e tag input =
    if tag == 1
    then got e "comparator name" (λ str. again (set_comparator_name str e))
        (get_length_prefixed_slice input)
    else if tag == 2
    then got e "log number" (λ num. again (set_log_number num e)) (get_varint64 input)
    else if tag == 9
    then got e "previous log number" (λ num. again (set_prev_log_number num e)) (get_varint64 input)
    else if tag == 3
    then got e "next file number" (λ num. again (set_next_file num e)) (get_varint64 input)
    else if tag == 4
    then got e "last sequence number" (λ num. again (set_last_sequence num e)) (get_varint64 input)
    else if tag == 5
    then decode_pointer e input
    else if tag == 6
    then decode_deleted e input
    else if tag == 7
    then decode_new_file e input
    else failed e "unknown tag"

abbrev pub tagged : VersionEdit → Option ℕ × Slice → Parsed
tagged e (none, []) = done (e, ok)
tagged e (none, b ∷ input) = failed e "invalid tag"
tagged e (some tag, input) = decode_field e tag input

-- One round of the loop of DecodeFrom.
unfoldable pub decode_step : VersionEdit → Slice → Parsed
decode_step e input = tagged e (get_varint32 input)

-- `DecodeFrom`: the edit afterwards, and the returned status.
unfoldable pub decode_from : Slice → VersionEdit → Option (VersionEdit × Status)
decode_from src e = run decode_step (clear e) src
