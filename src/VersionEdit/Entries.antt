-- ===== src/VersionEdit/Entries.antt =====
-- The entries of a version edit's record: what EncodeTo appends, and what a round of DecodeFrom
-- makes of it.
use terp_builder.Base.{ℕ, ◌^◌, ◌<◌, ◌≡◌, refl, sym, ◌∙◌, ap, arith, Bool, true, false, none, some}
use terp_builder.Base.{List, [], ◌∷◌, ◌++◌, length, All, All-middle, append_assoc, append-nil}
use terp_builder.Base.{if◌then◌else◌, lt→ltb}
use terp_builder.Base.Consume.{again, run, run-again}
use terp_builder.Slice.{Slice}
use terp_builder.Coding.Varint.{put_varint32, put_varint64, get_varint64}
use terp_builder.Coding.Varint.RoundTrip.{get_varint32-put_varint32, get_varint64-put_varint64}
use terp_builder.Coding.Prefixed.{put_length_prefixed_slice, get_length_prefixed_slice}
use terp_builder.Coding.Prefixed.RoundTrip.{get_length_prefixed_slice-put}
use terp_builder.VersionEdit.{VersionEdit, decode_step, decode_field, encoded_key}
use terp_builder.VersionEdit.{
  put_comparator, put_number, put_pointers, put_deleted, insert, pair_lt,
}
use terp_builder.VersionEdit.{got, get_level, tagged, within, set_comparator_name}
use terp_builder.VersionEdit.{set_compact_pointer}
use terp_builder.VersionEdit.{delete_file, num_levels, decode_pointer, decode_deleted}
use terp_builder.VersionEdit.Total.{decode_step-Shrinks}

-- The entries that EncodeTo appends.
abbrev pub tag_of : ℕ → List ℕ
tag_of tag = put_varint32 [] tag

abbrev pub number : ℕ → List ℕ
number n = put_varint64 [] n

abbrev pub text : Slice → List ℕ
text s = put_length_prefixed_slice [] s

pub text-onto : (dst s : Slice) → put_length_prefixed_slice dst s ≡ dst ++ text s
unfolding put_length_prefixed_slice put_varint32
text-onto dst s = append_assoc dst _ s

pub read_number :
    (n : ℕ) (rest : Slice) → n < 2 ^ 64 → get_varint64 (number n ++ rest) ≡ (some n, rest)
read_number n rest h = get_varint64-put_varint64 n rest h

pub read_text :
    (s rest : Slice)
    → length s < 2 ^ 32
    → get_length_prefixed_slice (text s ++ rest) ≡ (some s, rest)
read_text s rest h = (get_length_prefixed_slice-put s rest h).0

pub read_level :
    (l : ℕ) (rest : Slice) → l < num_levels → get_level (tag_of l ++ rest) ≡ (some l, rest)
unfolding get_level
read_level l rest h =
    ap within (get_varint32-put_varint32 l rest (omega arith))
    ∙ ap (λ b. if b then (some l, rest) else (none, rest)) (lt→ltb l num_levels h)

-- One entry: its tag, and what the switch makes of the rest.
pub entry :
    (e e' : VersionEdit) (tag : ℕ) (body rest : Slice)
    → tag < 2 ^ 32
    → decode_field e tag body ≡ again e' rest
    → run decode_step e (tag_of tag ++ body) ≡ run decode_step e' rest
unfolding decode_step
entry e e' tag body rest h field =
    run-again decode_step decode_step-Shrinks e e' (tag_of tag ++ body) rest
      (ap (tagged e) (get_varint32-put_varint32 tag body h) ∙ field)

abbrev pub number_part : Bool → ℕ → ℕ → List ℕ
number_part has tag n = if has then tag_of tag ++ number n else []

pub put_number-onto :
    (has : Bool) (tag n : ℕ) (dst : List ℕ)
    → put_number has tag n dst ≡ dst ++ number_part has tag n
unfolding put_number put_varint32 put_varint64
put_number-onto true tag n dst = append_assoc dst _ _
put_number-onto false tag n dst = sym (append-nil dst)

pub number_entry :
    (has : Bool) (e e' : VersionEdit) (tag n : ℕ) (rest : Slice)
    → tag < 2 ^ 32
    → decode_field e tag (number n ++ rest) ≡ again e' rest
    → run decode_step e (number_part has tag n ++ rest)
      ≡ run decode_step (if has then e' else e) rest
number_entry true e e' tag n rest small field =
    ap (run decode_step e) (append_assoc (tag_of tag) (number n) rest)
    ∙ entry e e' tag (number n ++ rest) rest small field
number_entry false e e' tag n rest small field = refl

abbrev pub comparator_part : Bool → Slice → List ℕ
comparator_part has name = if has then tag_of 1 ++ text name else []

pub put_comparator-onto :
    (has : Bool) (name : Slice) (dst : List ℕ)
    → put_comparator has name dst ≡ dst ++ comparator_part has name
unfolding put_comparator put_varint32
put_comparator-onto true name dst =
    text-onto (put_varint32 dst 1) name ∙ append_assoc dst (tag_of 1) (text name)
put_comparator-onto false name dst = sym (append-nil dst)

pub comparator_entry :
    (has : Bool) (e : VersionEdit) (name rest : Slice)
    → length name < 2 ^ 32
    → run decode_step e (comparator_part has name ++ rest)
      ≡ run decode_step (if has then set_comparator_name name e else e) rest
unfolding decode_field
comparator_entry true e name rest h =
    ap (run decode_step e) (append_assoc (tag_of 1) (text name) rest)
    ∙ entry e _ 1 (text name ++ rest) rest (omega arith)
        (ap (got e "comparator name" _) (read_text name rest h))
comparator_entry false e name rest h = refl

abbrev pub pointers_part : List (ℕ × Slice) → List ℕ
pointers_part [] = []
pointers_part ((l, k) ∷ ps) = tag_of 5 ++ (tag_of l ++ (text k ++ pointers_part ps))

-- Four pieces in a row, the way the appends nest.
pieces : (dst a b c d : List ℕ) → (((dst ++ a) ++ b) ++ c) ++ d ≡ dst ++ (a ++ (b ++ (c ++ d)))
pieces dst a b c d = simp append_assoc

abbrev pub IsPointer : ℕ × Slice → Type 0
IsPointer (l, k) = (l < num_levels) × (0 < length k) × (length k < 2 ^ 32)

pub encoded_key-some : (k : Slice) → 0 < length k → encoded_key k ≡ some k
encoded_key-some [] h = ground arith
encoded_key-some (b ∷ k) h = refl

pub put_pointers-onto :
    (ps : List (ℕ × Slice)) (dst : List ℕ)
    → All IsPointer ps
    → put_pointers ps dst ≡ some (dst ++ pointers_part ps)
unfolding put_pointers put_varint32
put_pointers-onto [] dst h = ap some (sym (append-nil dst))
put_pointers-onto ((l, k) ∷ ps) dst ((hl, filled, hk), h) = rw (encoded_key-some k filled) (
    put_pointers-onto ps _ h
    ∙ ap some (
        ap (λ d. d ++ pointers_part ps) (text-onto (put_varint32 (put_varint32 dst 5) l) k)
        ∙ pieces dst (tag_of 5) (tag_of l) (text k) (pointers_part ps)))

in_a_row : (a b c d rest : List ℕ) → (a ++ (b ++ (c ++ d))) ++ rest ≡ a ++ (b ++ (c ++ (d ++ rest)))
in_a_row a b c d rest = simp append_assoc

abbrev pub with_pointers : List (ℕ × Slice) → VersionEdit → VersionEdit
with_pointers ps e = record e { compact_pointers = e.compact_pointers ++ ps }

pub pointer_entries :
    (ps : List (ℕ × Slice)) (e : VersionEdit) (rest : Slice)
    → All IsPointer ps
    → run decode_step e (pointers_part ps ++ rest) ≡ run decode_step (with_pointers ps e) rest
unfolding decode_field decode_pointer
pointer_entries [] e rest h =
    ap (λ l. run decode_step (record e { compact_pointers = l }) rest)
      (sym (append-nil e.compact_pointers))
pointer_entries ((l, k) ∷ ps) e rest ((hl, filled, hk), h) =
    ap (run decode_step e) (in_a_row (tag_of 5) (tag_of l) (text k) (pointers_part ps) rest)
    ∙ entry e (set_compact_pointer l k e) 5 (tag_of l ++ (text k ++ (pointers_part ps ++ rest)))
        (pointers_part ps ++ rest) (omega arith)
        (ap (got e "compaction pointer" _) (read_level l (text k ++ (pointers_part ps ++ rest)) hl)
          ∙ ap (got e "compaction pointer" _) (read_text k (pointers_part ps ++ rest) hk))
    ∙ pointer_entries ps (set_compact_pointer l k e) rest h
    ∙ ap (λ c. run decode_step (record e { compact_pointers = c }) rest)
        (append_assoc e.compact_pointers ((l, k) ∷ []) ps)

abbrev pub deleted_part : List (ℕ × ℕ) → List ℕ
deleted_part [] = []
deleted_part ((l, n) ∷ fs) = tag_of 6 ++ (tag_of l ++ (number n ++ deleted_part fs))

pub put_deleted-onto :
    (fs : List (ℕ × ℕ)) (dst : List ℕ) → put_deleted fs dst ≡ dst ++ deleted_part fs
unfolding put_deleted put_varint32 put_varint64
put_deleted-onto [] dst = sym (append-nil dst)
put_deleted-onto ((l, n) ∷ fs) dst =
    put_deleted-onto fs _ ∙ pieces dst (tag_of 6) (tag_of l) (number n) (deleted_part fs)

abbrev pub IsDeleted : ℕ × ℕ → Type 0
IsDeleted (l, n) = (l < num_levels) × (n < 2 ^ 64)

-- In the order of the set, and with no element twice.
abbrev pub Ascending : List (ℕ × ℕ) → Type 0
Ascending [] = Unit
Ascending (x ∷ xs) = All (λ y. pair_lt x y ≡ true) xs × Ascending xs

pair_lt-opposite : (x y : ℕ × ℕ) → pair_lt x y ≡ true → pair_lt y x ≡ false
pair_lt-opposite (a, b) (c, d) h = ground arith

insert-last :
    (x : ℕ × ℕ) (ys fs : List (ℕ × ℕ)) → Ascending (ys ++ (x ∷ fs)) → insert x ys ≡ ys ++ (x ∷ [])
unfolding insert
insert-last x [] fs h = refl
insert-last x (y ∷ ys) fs (h, hs) =
    let below = All-middle (λ z. pair_lt y z ≡ true) ys x fs h in
    rw (pair_lt-opposite y x below, below) (ap (λ l. y ∷ l) (insert-last x ys fs hs))

abbrev pub with_deleted : List (ℕ × ℕ) → VersionEdit → VersionEdit
with_deleted fs e = record e { deleted_files = e.deleted_files ++ fs }

pub deleted_entries :
    (fs : List (ℕ × ℕ)) (e : VersionEdit) (rest : Slice)
    → All IsDeleted fs
    → Ascending (e.deleted_files ++ fs)
    → run decode_step e (deleted_part fs ++ rest) ≡ run decode_step (with_deleted fs e) rest
unfolding decode_field decode_deleted
deleted_entries [] e rest h a =
    ap (λ l. run decode_step (record e { deleted_files = l }) rest)
      (sym (append-nil e.deleted_files))
deleted_entries ((l, n) ∷ fs) e rest ((hl, hn), h) a =
    ap (run decode_step e) (in_a_row (tag_of 6) (tag_of l) (number n) (deleted_part fs) rest)
    ∙ entry e (delete_file l n e) 6 (tag_of l ++ (number n ++ (deleted_part fs ++ rest)))
        (deleted_part fs ++ rest) (omega arith)
        (ap (got e "deleted file" _) (read_level l (number n ++ (deleted_part fs ++ rest)) hl)
          ∙ ap (got e "deleted file" _) (read_number n (deleted_part fs ++ rest) hn))
    ∙ ap (λ d. run decode_step (record e { deleted_files = d }) (deleted_part fs ++ rest))
        (insert-last (l, n) e.deleted_files fs a)
    ∙ deleted_entries fs (with_deleted ((l, n) ∷ []) e) rest h
        (rw (append_assoc e.deleted_files ((l, n) ∷ []) fs) a)
    ∙ ap (λ d. run decode_step (record e { deleted_files = d }) rest)
        (append_assoc e.deleted_files ((l, n) ∷ []) fs)
