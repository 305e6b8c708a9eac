-- ===== src/VersionEdit/Debug.antt =====
-- DebugString of db/version_edit.cc.
use Prim.Native.String.{String}
use terp_builder.Base.{ℕ, Bool, List, [], ◌∷◌, ◌++◌, if◌then◌else◌}
use terp_builder.Base.Text.{bytes}
use terp_builder.Slice.{Slice}
use terp_builder.Logging.{append_number_to}
use terp_builder.DbFormat.Debug.{debug_string}
use terp_builder.VersionEdit.{VersionEdit, FileMetaData}

-- A number behind a text.
abbrev pub labelled : String → ℕ → List ℕ → List ℕ
labelled label n r = append_number_to (r ++ bytes label) n

abbrev pub labelled_if : Bool → String → ℕ → List ℕ → List ℕ
labelled_if set label n r = if set then labelled label n r else r

abbrev pub debug_comparator : Bool → List ℕ → List ℕ → List ℕ
debug_comparator set name r = if set then (r ++ bytes "\n  Comparator: ") ++ name else r

unfoldable pub debug_deleted : List (ℕ × ℕ) → List ℕ → List ℕ
debug_deleted [] r = r
debug_deleted ((level, number) ∷ files) r =
    debug_deleted files (labelled " " number (labelled "\n  DeleteFile: " level r))

module _ (little : Bool) where
  unfoldable pub debug_pointers : List (ℕ × Slice) → List ℕ → List ℕ
  debug_pointers [] r = r
  debug_pointers ((level, key) ∷ pointers) r =
      debug_pointers pointers
        ((labelled "\n  CompactPointer: " level r ++ bytes " ") ++ debug_string little key)

  abbrev pub debug_file : FileMetaData → List ℕ → List ℕ
  debug_file f r =
      (((labelled " " f.file_size (labelled " " f.number r) ++ bytes " ")
          ++ debug_string little f.smallest)
        ++ bytes " .. ")
      ++ debug_string little f.largest

  unfoldable pub debug_new : List (ℕ × FileMetaData) → List ℕ → List ℕ
  debug_new [] r = r
  debug_new ((level, f) ∷ files) r =
      debug_new files (debug_file f (labelled "\n  AddFile: " level r))

  unfoldable pub edit_debug_string : VersionEdit → List ℕ
  edit_debug_string e =
      let r0 = debug_comparator e.has_comparator e.comparator (bytes "VersionEdit {") in
      let r1 = labelled_if e.has_log_number "\n  LogNumber: " e.log_number r0 in
      let r2 = labelled_if e.has_prev_log_number "\n  PrevLogNumber: " e.prev_log_number r1 in
      let r3 = labelled_if e.has_next_file_number "\n  NextFile: " e.next_file_number r2 in
      let r4 = labelled_if e.has_last_sequence "\n  LastSeq: " e.last_sequence r3 in
      debug_new e.new_files (debug_deleted e.deleted_files (debug_pointers e.compact_pointers r4))
      ++ bytes "\n}\n"
