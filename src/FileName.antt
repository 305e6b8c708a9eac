-- ===== src/FileName.antt =====
-- Terp_Builder/Pods/leveldb-library/db/filename.cc and filename.h: the names of a database's files, made and read back. The
-- assertion that a number is positive is `none`. What snprintf writes for "%06llu" is written out;
-- the buffers have place for it. SetCurrentFile is in the child Current.
pub mod Owned
pub mod Parse
pub mod Made
pub mod Current
use terp_builder.Base.{◌>>=◌}
use terp_builder.Base.{
  ℕ, zero, suc, ◌-◌, Bool, true, false, ◌||◌, Option, none, some, List, [], ◌∷◌, ◌++◌,
}
use terp_builder.Base.{length, ◌==◌, if◌then◌else◌}
use terp_builder.Base.Text.{bytes}
use terp_builder.Slice.{Slice, equals, starts_with, remove_prefix}
use terp_builder.Logging.{llu, consume_decimal_number}

pub data FileType : Type 0 where
  log_file : FileType
  db_lock_file : FileType
  table_file : FileType
  descriptor_file : FileType
  current_file : FileType
  temp_file : FileType
  info_log_file : FileType

abbrev pub zero_digits : ℕ → List ℕ
zero_digits zero = []
zero_digits (suc n) = 48 ∷ zero_digits n

-- snprintf of "%06llu".
abbrev pub llu_06 : ℕ → List ℕ
llu_06 num = zero_digits (6 - length (llu num)) ++ llu num

abbrev pub checked : ℕ → List ℕ → Option (List ℕ)
checked number name = if number == 0 then none else some name

abbrev pub make_file_name : List ℕ → ℕ → List ℕ → List ℕ
make_file_name dbname number suffix = dbname ++ ((47 ∷ llu_06 number) ++ (46 ∷ suffix))

unfoldable pub log_file_name : List ℕ → ℕ → Option (List ℕ)
log_file_name dbname number = checked number (make_file_name dbname number (bytes "log"))

unfoldable pub table_file_name : List ℕ → ℕ → Option (List ℕ)
table_file_name dbname number = checked number (make_file_name dbname number (bytes "ldb"))

unfoldable pub sst_table_file_name : List ℕ → ℕ → Option (List ℕ)
sst_table_file_name dbname number = checked number (make_file_name dbname number (bytes "sst"))

unfoldable pub descriptor_file_name : List ℕ → ℕ → Option (List ℕ)
descriptor_file_name dbname number =
    checked number (dbname ++ (bytes "/MANIFEST-" ++ llu_06 number))

unfoldable pub current_file_name : List ℕ → List ℕ
current_file_name dbname = dbname ++ bytes "/CURRENT"

unfoldable pub lock_file_name : List ℕ → List ℕ
lock_file_name dbname = dbname ++ bytes "/LOCK"

unfoldable pub temp_file_name : List ℕ → ℕ → Option (List ℕ)
temp_file_name dbname number = checked number (make_file_name dbname number (bytes "dbtmp"))

unfoldable pub info_log_file_name : List ℕ → List ℕ
info_log_file_name dbname = dbname ++ bytes "/LOG"

unfoldable pub old_info_log_file_name : List ℕ → List ℕ
old_info_log_file_name dbname = dbname ++ bytes "/LOG.old"

-- A descriptor's name after "MANIFEST-".
abbrev pub parse_descriptor : Bool × ℕ × Slice → Option (ℕ × FileType)
parse_descriptor (true, num, []) = some (num, descriptor_file)
parse_descriptor (true, num, ch ∷ rest) = none
parse_descriptor (false, num, rest) = none

-- The type that a suffix stands for.
abbrev pub parse_suffix : Bool × ℕ × Slice → Option (ℕ × FileType)
parse_suffix (false, num, suffix) = none
parse_suffix (true, num, suffix) =
    if equals suffix (bytes ".log")
    then some (num, log_file)
    else if equals suffix (bytes ".sst") || equals suffix (bytes ".ldb")
    then some (num, table_file)
    else if equals suffix (bytes ".dbtmp")
    then some (num, temp_file)
    else none

-- `*number` and `*type`, which a false return, `some none`, leaves as they were; `none` is a failed
-- assertion. The local num is not set before it is read.
unfoldable pub parse_file_name : List ℕ → Option (Option (ℕ × FileType))
parse_file_name rest =
    if equals rest (bytes "CURRENT")
    then some (some (0, current_file))
    else if equals rest (bytes "LOCK")
    then some (some (0, db_lock_file))
    else if equals rest (bytes "LOG") || equals rest (bytes "LOG.old")
    then some (some (0, info_log_file))
    else if starts_with rest (bytes "MANIFEST-")
    then (remove_prefix (length (bytes "MANIFEST-")) rest >>= λ stripped.
        consume_decimal_number stripped 0 >>= λ res. some (parse_descriptor res))
    else consume_decimal_number rest 0 >>= λ res. some (parse_suffix res)
