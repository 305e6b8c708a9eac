-- ===== src/Tests/Formats.antt =====
-- A write batch, a version edit and a footer.
use terp_builder.Base.{ℕ, ◌%◌, ◌^◌, ◌≡◌, ◌≢◌, ◌↔◌, arith, true, false, some, none}
use terp_builder.Base.{List, [], ◌∷◌, ◌++◌, length, get_elem?}
use terp_builder.Status.{Status, ok}
use terp_builder.WriteBatch.{
  Op, put, delete, put_op, delete_op, append, cleared, iterate, insert_into, count, Addition,
}
use terp_builder.WriteBatch.Layout.{batch, updates_lem}
use terp_builder.WriteBatch.Iterate.{addition_at, iterate-batch, iterate_total, iterate-ok}
use terp_builder.VersionEdit.{VersionEdit, file_meta_data, decode_from}
use terp_builder.VersionEdit.Total.{decode_from_total}
use terp_builder.Format.{Footer, encode_footer, decode_footer, block_handle}
use terp_builder.Format.Handles.{IsAssigned}
use terp_builder.Format.RoundTrip.{decode_footer-encode_footer, encode_footer_iff}

-- "a" is "b", and "c" is not.
abbrev ops : List Op
ops = put (97 ∷ []) (98 ∷ []) ∷ delete (99 ∷ []) ∷ []

updates_lem_example :
    (put_op true (100 ∷ []) [] (batch true 5 ops)
      ≡ some (batch true 5 (ops ++ (put (100 ∷ []) [] ∷ []))))
    × (delete_op true (100 ∷ []) (batch true 5 ops)
        ≡ some (batch true 5 (ops ++ (delete (100 ∷ []) ∷ []))))
    × (append true (batch true 5 ops) (batch true 7 ops) ≡ some (batch true 5 (ops ++ ops)))
    × (cleared ≡ batch true 0 [])
updates_lem_example = updates_lem true 5 7 ops ops (100 ∷ []) []

iterate-batch_example :
    (iterate true (batch true 5 ops) ≡ some (ops, ok))
    × ((additions : List Addition) × (insert_into true (batch true 5 ops) ≡ some (additions, ok))
        × ((i : ℕ) → get_elem? additions i ≡ addition_at 5 i (get_elem? ops i)))
iterate-batch_example =
    iterate-batch true 5 ops (omega arith) (omega arith)
      ((omega arith, omega arith), (omega arith, tt))

-- A batch whose record is cut off.
iterate_total_example :
    (r : List Op × Status) × (iterate true (cleared ++ (1 ∷ 5 ∷ 97 ∷ [])) ≡ some r)
iterate_total_example = iterate_total true (cleared ++ (1 ∷ 5 ∷ 97 ∷ []))

iterate-ok_example : count true (batch true 5 ops) ≡ some (length ops % 2 ^ 32)
iterate-ok_example = iterate-ok true (batch true 5 ops) ops (iterate-batch_calls)
  where
    iterate-batch_calls : iterate true (batch true 5 ops) ≡ some (ops, ok)
    iterate-batch_calls =
        (iterate-batch true 5 ops (omega arith) (omega arith)
          ((omega arith, omega arith), (omega arith, tt))).0

abbrev edit : VersionEdit
edit = record {
  comparator = 98 ∷ [];
  log_number = 9;
  prev_log_number = 0;
  next_file_number = 12;
  last_sequence = 300;
  has_comparator = true;
  has_log_number = true;
  has_prev_log_number = false;
  has_next_file_number = true;
  has_last_sequence = true;
  compact_pointers = (1, 97 ∷ []) ∷ [];
  deleted_files = (0, 3) ∷ (1, 2) ∷ [];
  new_files = (2, file_meta_data 11 4096 (97 ∷ []) (122 ∷ [])) ∷ [];
}

decode_from_total_example : (r : VersionEdit × Status) × (decode_from (2 ∷ 200 ∷ []) edit ≡ some r)
decode_from_total_example = decode_from_total (2 ∷ 200 ∷ []) edit

abbrev footer : Footer
footer = record {
  metaindex_handle = record { offset = 300; size = 20 };
  index_handle = record { offset = 320; size = 70 };
}

metaindex-IsAssigned : IsAssigned footer.metaindex_handle
metaindex-IsAssigned = record { offset_set = omega arith; size_set = omega arith }

index-IsAssigned : IsAssigned footer.index_handle
index-IsAssigned = record { offset_set = omega arith; size_set = omega arith }

abbrev unset_footer : Footer
unset_footer = record { metaindex_handle = block_handle; index_handle = block_handle }

decode_footer-encode_footer_example :
    (t : List ℕ) × (encode_footer true footer [] ≡ some t)
    × (length t ≡ 48)
    × (decode_footer true unset_footer (t ++ (9 ∷ [])) ≡ some (footer, ok, 9 ∷ []))
decode_footer-encode_footer_example =
    decode_footer-encode_footer true footer unset_footer (9 ∷ []) metaindex-IsAssigned
      index-IsAssigned

abbrev held : List ℕ
held = 9 ∷ []

encode_footer_iff_example : (encode_footer true footer held ≢ none) ↔ (held ≡ [])
encode_footer_iff_example = encode_footer_iff true footer held metaindex-IsAssigned index-IsAssigned
