-- ===== src/VersionEdit/NewFiles.antt =====
-- The entries of new files, the longest of a version edit's record.
use terp_builder.Base.{map, ℕ, ◌^◌, ◌<◌, ◌≡◌, sym, ◌∙◌, ap, arith, some}
use terp_builder.Base.{List, [], ◌∷◌, ◌++◌, length, All, append_assoc, append-nil}
use terp_builder.Base.Consume.{run}
use terp_builder.Slice.{Slice}
use terp_builder.Coding.Varint.{put_varint32, put_varint64}
use terp_builder.VersionEdit.{VersionEdit, FileMetaData, decode_step, decode_field}
use terp_builder.VersionEdit.{put_new}
use terp_builder.VersionEdit.{got}
use terp_builder.VersionEdit.{add_file, num_levels, decode_new_file}
use terp_builder.VersionEdit.{file_meta_data}
use terp_builder.VersionEdit.Entries.{encoded_key-some}
use terp_builder.VersionEdit.Entries.{
  tag_of, number, text, text-onto, read_number, read_text, read_level, entry,
}

abbrev pub new_part : List (ℕ × FileMetaData) → List ℕ
new_part [] = []
new_part ((l, f) ∷ fs) =
    tag_of 7
    ++ (tag_of l
        ++ (number f.number
            ++ (number f.file_size ++ (text f.smallest ++ (text f.largest ++ new_part fs)))))

seven :
    (dst a b c d e f g : List ℕ)
    → ((((((dst ++ a) ++ b) ++ c) ++ d) ++ e) ++ f) ++ g
      ≡ dst ++ (a ++ (b ++ (c ++ (d ++ (e ++ (f ++ g))))))
seven dst a b c d e f g = simp append_assoc

seven_before :
    (a b c d e f g rest : List ℕ)
    → (a ++ (b ++ (c ++ (d ++ (e ++ (f ++ g)))))) ++ rest
      ≡ a ++ (b ++ (c ++ (d ++ (e ++ (f ++ (g ++ rest))))))
seven_before a b c d e f g rest = simp append_assoc

abbrev pub IsNewFile : ℕ × FileMetaData → Type 0
IsNewFile (l, f) =
    (l < num_levels)
    × (f.number < 2 ^ 64)
    × (f.file_size < 2 ^ 64)
    × (0 < length f.smallest)
    × (length f.smallest < 2 ^ 32)
    × (0 < length f.largest)
    × (length f.largest < 2 ^ 32)

pub put_new-onto :
    (fs : List (ℕ × FileMetaData)) (dst : List ℕ)
    → All IsNewFile fs
    → put_new fs dst ≡ some (dst ++ new_part fs)
unfolding put_new put_varint32 put_varint64
put_new-onto [] dst h = ap some (sym (append-nil dst))
put_new-onto ((l, f) ∷ fs) dst ((hl, hn, hs, has_smallest, ha, has_largest, hb), h) =
    rw (encoded_key-some f.smallest has_smallest, encoded_key-some f.largest has_largest)
      (put_new-onto fs _ h
        ∙ ap some (
            ap (λ d. d ++ new_part fs)
              (text-onto _ f.largest ∙ ap (λ d. d ++ text f.largest) (text-onto _ f.smallest))
            ∙ seven dst (tag_of 7) (tag_of l) (number f.number) (number f.file_size)
                (text f.smallest) (text f.largest) (new_part fs)))

-- A file's data as the edit's reader makes it.
abbrev pub unused : ℕ × FileMetaData → ℕ × FileMetaData
unused (l, f) = (l, file_meta_data f.number f.file_size f.smallest f.largest)

abbrev with_new : List (ℕ × FileMetaData) → VersionEdit → VersionEdit
with_new fs e = record e { new_files = e.new_files ++ map unused fs }

pub new_entries :
    (fs : List (ℕ × FileMetaData)) (e : VersionEdit) (rest : Slice)
    → All IsNewFile fs
    → run decode_step e (new_part fs ++ rest) ≡ run decode_step (with_new fs e) rest
unfolding decode_field decode_new_file
new_entries [] e rest h =
    ap (λ l. run decode_step (record e { new_files = l }) rest) (sym (append-nil e.new_files))
new_entries ((l, f) ∷ fs) e rest ((hl, hn, hs, has_smallest, ha, has_largest, hb), h) =
    ap (run decode_step e) (
      seven_before (tag_of 7) (tag_of l) (number f.number) (number f.file_size) (text f.smallest)
        (text f.largest) (new_part fs) rest)
    ∙ entry e (add_file l f.number f.file_size f.smallest f.largest e) 7 (tag_of l ++ after_level)
        left (omega arith)
        (ap (got e "new-file entry" _) (read_level l after_level hl)
          ∙ ap (got e "new-file entry" _) (read_number f.number after_number hn)
          ∙ ap (got e "new-file entry" _) (read_number f.file_size after_size hs)
          ∙ ap (got e "new-file entry" _) (read_text f.smallest (text f.largest ++ left) ha)
          ∙ ap (got e "new-file entry" _) (read_text f.largest left hb))
    ∙ new_entries fs (with_new ((l, f) ∷ []) e) rest h
    ∙ ap (λ n. run decode_step (record e { new_files = n }) rest)
        (append_assoc e.new_files (unused (l, f) ∷ []) (map unused fs))
  where
    left : Slice
    left = new_part fs ++ rest

    after_size : Slice
    after_size = text f.smallest ++ (text f.largest ++ left)

    after_number : Slice
    after_number = number f.file_size ++ after_size

    after_level : Slice
    after_level = number f.number ++ after_number
