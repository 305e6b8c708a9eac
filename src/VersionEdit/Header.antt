-- ===== src/VersionEdit/Header.antt =====
-- The entries of an edit's name and numbers, and the edit that reading them makes.
use terp_builder.Base.{map, ◌^◌, ◌<◌, ◌≡◌, refl, ◌∙◌, ap, arith, Bool, true, false}
use terp_builder.Base.{[], ◌++◌, length, All}
use terp_builder.Base.{if◌then◌else◌}
use terp_builder.Base.Consume.{run}
use terp_builder.Slice.{Slice}
use terp_builder.VersionEdit.{VersionEdit, clear, decode_step, decode_field}
use terp_builder.VersionEdit.{got, set_comparator_name, set_log_number}
use terp_builder.VersionEdit.{set_prev_log_number, set_next_file, set_last_sequence}
use terp_builder.VersionEdit.{clear}
use terp_builder.VersionEdit.Entries.{read_number}
use terp_builder.VersionEdit.Entries.{number_part, number_entry, comparator_part, comparator_entry}
use terp_builder.VersionEdit.Entries.{IsPointer}
use terp_builder.VersionEdit.Entries.{IsDeleted, Ascending}
use terp_builder.VersionEdit.NewFiles.{unused, IsNewFile}

-- What EncodeTo keeps of an edit: the numbers and the name that are set, and of a file what a
-- manifest holds.
abbrev pub written : VersionEdit → VersionEdit
written e = record e {
  comparator = if e.has_comparator then e.comparator else [];
  log_number = if e.has_log_number then e.log_number else 0;
  prev_log_number = if e.has_prev_log_number then e.prev_log_number else 0;
  next_file_number = if e.has_next_file_number then e.next_file_number else 0;
  last_sequence = if e.has_last_sequence then e.last_sequence else 0;
  new_files = map unused e.new_files;
}

-- What the C++ types and the set give, keys that are not empty, lengths that fit 32 bits, and levels
-- of the store.
pub record IsEncodable (e : VersionEdit) : Type 0 where
  pub name : length e.comparator < 2 ^ 32
  pub log : e.log_number < 2 ^ 64
  pub prev_log : e.prev_log_number < 2 ^ 64
  pub next_file : e.next_file_number < 2 ^ 64
  pub last : e.last_sequence < 2 ^ 64
  pub pointers : All IsPointer e.compact_pointers
  pub deleted : All IsDeleted e.deleted_files
  pub ascending : Ascending e.deleted_files
  pub added : All IsNewFile e.new_files

-- The edit after the entries of the name and the numbers, one after the other.
abbrev named : VersionEdit → VersionEdit → VersionEdit
named e d = if e.has_comparator then set_comparator_name e.comparator d else d

abbrev logged : VersionEdit → VersionEdit → VersionEdit
logged e d = if e.has_log_number then set_log_number e.log_number d else d

abbrev prev_logged : VersionEdit → VersionEdit → VersionEdit
prev_logged e d = if e.has_prev_log_number then set_prev_log_number e.prev_log_number d else d

abbrev filed : VersionEdit → VersionEdit → VersionEdit
filed e d = if e.has_next_file_number then set_next_file e.next_file_number d else d

abbrev sequenced : VersionEdit → VersionEdit → VersionEdit
sequenced e d = if e.has_last_sequence then set_last_sequence e.last_sequence d else d

abbrev pub header : VersionEdit → VersionEdit → VersionEdit
header e d = sequenced e (filed e (prev_logged e (logged e (named e d))))

pub read_header :
    (e d : VersionEdit) (rest : Slice)
    → IsEncodable e
    → run decode_step d (
        comparator_part e.has_comparator e.comparator
        ++ (number_part e.has_log_number 2 e.log_number
            ++ (number_part e.has_prev_log_number 9 e.prev_log_number
                ++ (number_part e.has_next_file_number 3 e.next_file_number
                    ++ (number_part e.has_last_sequence 4 e.last_sequence ++ rest)))))
      ≡ run decode_step (header e d) rest
unfolding decode_field
read_header e d rest ok_e =
    comparator_entry e.has_comparator d e.comparator _ ok_e.name
    ∙ number_entry e.has_log_number (named e d) (set_log_number e.log_number (named e d)) 2
        e.log_number _ (omega arith)
        (ap (got (named e d) "log number" _) (read_number e.log_number _ ok_e.log))
    ∙ number_entry e.has_prev_log_number (logged e (named e d))
        (set_prev_log_number e.prev_log_number (logged e (named e d))) 9 e.prev_log_number _
        (omega arith)
        (ap (got (logged e (named e d)) "previous log number" _)
          (read_number e.prev_log_number _ ok_e.prev_log))
    ∙ number_entry e.has_next_file_number (prev_logged e (logged e (named e d)))
        (set_next_file e.next_file_number (prev_logged e (logged e (named e d)))) 3
        e.next_file_number _ (omega arith)
        (ap (got (prev_logged e (logged e (named e d))) "next file number" _)
          (read_number e.next_file_number _ ok_e.next_file))
    ∙ number_entry e.has_last_sequence (filed e (prev_logged e (logged e (named e d))))
        (set_last_sequence e.last_sequence (filed e (prev_logged e (logged e (named e d))))) 4
        e.last_sequence rest (omega arith)
        (ap (got (filed e (prev_logged e (logged e (named e d)))) "last sequence number" _)
          (read_number e.last_sequence rest ok_e.last))

flag : (b : Bool) → (if b then true else false) ≡ b
flag true = refl
flag false = refl

named-if :
    (e d : VersionEdit)
    → named e d ≡ record d {
      comparator = if e.has_comparator then e.comparator else d.comparator;
      has_comparator = if e.has_comparator then true else d.has_comparator;
    }
named-if e d = ground arith

logged-if :
    (e d : VersionEdit)
    → logged e d ≡ record d {
      log_number = if e.has_log_number then e.log_number else d.log_number;
      has_log_number = if e.has_log_number then true else d.has_log_number;
    }
logged-if e d = ground arith

prev_logged-if :
    (e d : VersionEdit)
    → prev_logged e d ≡ record d {
      prev_log_number = if e.has_prev_log_number then e.prev_log_number else d.prev_log_number;
      has_prev_log_number = if e.has_prev_log_number then true else d.has_prev_log_number;
    }
prev_logged-if e d = ground arith

filed-if :
    (e d : VersionEdit)
    → filed e d ≡ record d {
      next_file_number = if e.has_next_file_number then e.next_file_number else d.next_file_number;
      has_next_file_number = if e.has_next_file_number then true else d.has_next_file_number;
    }
filed-if e d = ground arith

sequenced-if :
    (e d : VersionEdit)
    → sequenced e d ≡ record d {
      last_sequence = if e.has_last_sequence then e.last_sequence else d.last_sequence;
      has_last_sequence = if e.has_last_sequence then true else d.has_last_sequence;
    }
sequenced-if e d = ground arith

pub header-clear :
    (e d : VersionEdit)
    → header e (clear d) ≡ record (written e) {
      compact_pointers = d.compact_pointers;
      deleted_files = [];
      new_files = [];
    }
unfolding clear
header-clear e d =
    sequenced-if e (filed e (prev_logged e (logged e (named e (clear d)))))
    ∙ rw (
      filed-if e (prev_logged e (logged e (named e (clear d)))),
      prev_logged-if e (logged e (named e (clear d))),
      logged-if e (named e (clear d)),
      named-if e (clear d),
      flag e.has_comparator,
      flag e.has_log_number,
      flag e.has_prev_log_number,
      flag e.has_next_file_number,
      flag e.has_last_sequence,
    )
