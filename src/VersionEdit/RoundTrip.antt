-- ===== src/VersionEdit/RoundTrip.antt =====
-- DecodeFrom on what EncodeTo writes.
use terp_builder.Base.{ℕ}
use terp_builder.Base.{List, [], ◌++◌}
use terp_builder.VersionEdit.{VersionEdit}
use terp_builder.VersionEdit.Entries.{number_part, comparator_part}
use terp_builder.VersionEdit.Entries.{pointers_part}
use terp_builder.VersionEdit.Entries.{deleted_part}
use terp_builder.VersionEdit.NewFiles.{new_part}

-- The entries before those of the compaction pointers.
abbrev front : VersionEdit → List ℕ
front e =
    comparator_part e.has_comparator e.comparator
    ++ (number_part e.has_log_number 2 e.log_number
        ++ (number_part e.has_prev_log_number 9 e.prev_log_number
            ++ (number_part e.has_next_file_number 3 e.next_file_number
                ++ number_part e.has_last_sequence 4 e.last_sequence)))

-- The entries of the compaction pointers and the files.
abbrev lists : VersionEdit → List ℕ
lists e =
    pointers_part e.compact_pointers
    ++ (deleted_part e.deleted_files ++ (new_part e.new_files ++ []))
