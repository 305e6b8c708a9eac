-- ===== src/DbFormat/Debug.antt =====
-- The debug strings of db/dbformat.cc.
use terp_builder.Base.{ℕ, ◌≡◌, arith, Bool, true, Option, some, none, inl, inr}
use terp_builder.Base.{List, [], ◌∷◌, ◌++◌, All, All-append, Option-cases}
use terp_builder.Base.Text.{bytes}
use terp_builder.Slice.{Slice}
use terp_builder.DbFormat.{ParsedInternalKey, parse_internal_key, type_code}
use terp_builder.Logging.{llu, escape_string}
use terp_builder.Logging.Numbers.{IsDigit, is_digit, decimal-IsDigit}
use terp_builder.Logging.Escapes.{IsPrintable, IsByte, escape_string-IsPrintable}
use terp_builder.DbFormat.{append_internal_key, pack_sequence_and_type}
use terp_builder.Coding.Fixed.{encode_fixed64, put_fixed64}
use mathlib.Core.Path.{subst, sym}
use terp_builder.DbFormat.Keys.{append_internal_key-parse}

unfoldable pub parsed_debug_string : ParsedInternalKey → List ℕ
parsed_debug_string key =
    (bytes "'" ++ escape_string key.user_key)
    ++ (bytes "' @ " ++ (llu key.sequence ++ (bytes " : " ++ llu (type_code key.type))))

abbrev pub debug_or_bad : Slice → Option ParsedInternalKey → List ℕ
debug_or_bad rep (some parsed) = parsed_debug_string parsed
debug_or_bad rep none = bytes "(bad)" ++ escape_string rep

-- `InternalKey::DebugString`
unfoldable pub debug_string : Bool → Slice → List ℕ
debug_string little rep = debug_or_bad rep (parse_internal_key little rep)

All-front : (xs ys : List ℕ) → All IsByte (xs ++ ys) → All IsByte xs
All-front [] ys h = tt
All-front (x ∷ xs) ys h = (h.0, All-front xs ys h.1)

All-digits : (xs : List ℕ) → All IsDigit xs → All IsPrintable xs
All-digits [] h = tt
All-digits (x ∷ xs) h =
    let d : is_digit x ≡ true = h.0 in ((ground arith, ground arith), All-digits xs h.1)

escaped-text : (value : Slice) → All IsByte value → All IsPrintable (escape_string value)
escaped-text value h = (escape_string-IsPrintable value h).0

number-text : (n : ℕ) → All IsPrintable (llu n)
number-text n = All-digits (llu n) (decimal-IsDigit 20 n)

parsed-text :
    (key : ParsedInternalKey) → All IsByte key.user_key → All IsPrintable (parsed_debug_string key)
unfolding parsed_debug_string
parsed-text key h =
    let p = IsPrintable in
    All-append p (bytes "'" ++ escape_string key.user_key) _
      ((omega arith, omega arith), escaped-text key.user_key h)
      (All-append p (bytes "' @ ") _
        (
          (omega arith, omega arith),
          (
            (omega arith, omega arith),
            ((omega arith, omega arith), ((omega arith, omega arith), tt)),
          ),
        )
        (All-append p (llu key.sequence) (bytes " : " ++ llu (type_code key.type))
          (number-text key.sequence)
          (All-append p (bytes " : ") (llu (type_code key.type))
            (
              (omega arith, omega arith),
              ((omega arith, omega arith), ((omega arith, omega arith), tt)),
            )
            (number-text (type_code key.type)))))

-- The debug string of any internal key, parsable or not, consists of printable characters.
pub debug_string-IsPrintable :
    (little : Bool) (rep : Slice) → All IsByte rep → All IsPrintable (debug_string little rep)
unfolding debug_string append_internal_key put_fixed64
debug_string-IsPrintable little rep h = elim (Option-cases (parse_internal_key little rep)) [
  | inl e ↦ rw e (
      All-append IsPrintable (bytes "(bad)") (escape_string rep)
        (
          (omega arith, omega arith),
          (
            (omega arith, omega arith),
            (
              (omega arith, omega arith),
              ((omega arith, omega arith), ((omega arith, omega arith), tt)),
            ),
          ),
        )
        (escaped-text rep h))
  | inr (key, e) ↦ rw e (
      parsed-text key (
        All-front key.user_key
          (encode_fixed64 little (pack_sequence_and_type key.sequence key.type))
          (subst (All IsByte) (sym ((append_internal_key-parse little rep key h e).0)) h)))
]
