-- ===== src/Logging.antt =====
-- Terp_Builder/Pods/leveldb-library/util/logging.cc: numbers and slices as text, and numbers read back. What snprintf writes
-- for "%llu" and "%02x" is written out here.
pub mod Numbers
pub mod Escapes
use terp_builder.Base.{◌>>=◌}
use terp_builder.Base.{ℕ, zero, suc, ◌+◌, ◌-◌, ◌*◌, ◌/◌, ◌%◌, ◌^◌, Bool, false, not, ◌&&◌, ◌||◌}
use terp_builder.Base.{
  Option, none, some, List, [], ◌∷◌, ◌++◌, length, bit_and, ltb, leb, ◌==◌, if◌then◌else◌,
}
use terp_builder.Slice.{Slice, remove_prefix}

-- The decimal digits of a number, k of them at most.
abbrev pub decimal : ℕ → ℕ → List ℕ
decimal zero n = []
decimal (suc k) n =
    let high = decimal k (n / 10) in (if n / 10 == 0 then [] else high) ++ ((48 + n % 10) ∷ [])

-- snprintf of "%llu": a uint64 has at most 20 digits, and the buffers have place for them.
abbrev pub llu : ℕ → List ℕ
llu num = decimal 20 num

unfoldable pub append_number_to : List ℕ → ℕ → List ℕ
append_number_to str num = str ++ llu num

abbrev pub number_to_string : ℕ → List ℕ
number_to_string num = append_number_to [] num

abbrev pub hex_digit : ℕ → ℕ
hex_digit d = if ltb d 10 then 48 + d else 87 + d

-- snprintf of "\\x%02x".
abbrev pub hex_escape : ℕ → List ℕ
hex_escape c = 92 ∷ 120 ∷ hex_digit (c / 16) ∷ hex_digit (c % 16) ∷ []

-- A byte past 127 is not printable, whether char is signed or not.
unfoldable pub append_escaped_string_to : List ℕ → Slice → List ℕ
append_escaped_string_to str [] = str
append_escaped_string_to str (c ∷ value) =
    append_escaped_string_to
      (if leb 32 c && leb c 126 then str ++ (c ∷ []) else str ++ hex_escape (bit_and c 0xff)) value

abbrev pub escape_string : Slice → List ℕ
escape_string value = append_escaped_string_to [] value

abbrev pub max_uint64 : ℕ
max_uint64 = 2 ^ 64 - 1

abbrev pub last_digit_of_max_uint64 : ℕ
last_digit_of_max_uint64 = 48 + max_uint64 % 10

abbrev pub overflows : ℕ → ℕ → Bool
overflows value ch =
    ltb (max_uint64 / 10) value || ((value == max_uint64 / 10) && ltb last_digit_of_max_uint64 ch)

-- The loop: `none` is its return, else the value and what is left at its end.
unfoldable pub scan_digits : ℕ → Slice → Option (ℕ × Slice)
scan_digits value [] = some (value, [])
scan_digits value (ch ∷ current) =
    let more = scan_digits ((value * 10 + (ch - 48)) % 2 ^ 64) current in
    if ltb ch 48 || ltb 57 ch
    then some (value, ch ∷ current)
    else if overflows value ch
    then none
    else more

abbrev pub consumed : Slice → ℕ → Option (ℕ × Slice) → Option (Bool × ℕ × Slice)
consumed input val none = some (false, val, input)
consumed input val (some (value, current)) =
    let digits_consumed = length input - length current in
    remove_prefix digits_consumed input >>= λ rest. some (not (digits_consumed == 0), value, rest)

-- What is returned, `*val` and `*in`; `none` is a failed assertion.
unfoldable pub consume_decimal_number : Slice → ℕ → Option (Bool × ℕ × Slice)
consume_decimal_number input val = consumed input val (scan_digits 0 input)
