-- ===== src/Logging/Numbers.antt =====
-- Reading decimal numbers, against the number that a text of digits denotes.
use native.Mathlib.Nat.{pow-suc}
use terp_builder.Base.{◌≤◌, some}
use terp_builder.Base.{
  ℕ, zero, suc, ◌+◌, ◌-◌, ◌*◌, ◌/◌, ◌%◌, ◌^◌, ◌≤◌, ◌<◌, ◌≡◌, refl, sym, ◌∙◌, ap, arith,
}
use terp_builder.Base.{Bool, true, false, not, ◌||◌, none, some, inl, inr}
use terp_builder.Base.{
  List, [], ◌∷◌, ◌++◌, length, drop, length-append, drop_exact, ltb, ◌==◌, if◌then◌else◌, All,
  All-append,
}
use terp_builder.Base.{Bool-cases, if-both, ==_iff, lt→ltb}
use terp_builder.Slice.{Slice, remove_prefix-drop}
use terp_builder.Logging.{
  decimal, llu, overflows, scan_digits, consumed, append_number_to, consume_decimal_number,
}

abbrev pub is_digit : ℕ → Bool
is_digit ch = not (ltb ch 48 || ltb 57 ch)

-- The digits at the front of a text, and what follows them.
abbrev pub leading : Slice → List ℕ
leading [] = []
leading (ch ∷ s) = let more = leading s in if is_digit ch then ch ∷ more else []

abbrev pub trailing : Slice → Slice
trailing [] = []
trailing (ch ∷ s) = let more = trailing s in if is_digit ch then more else ch ∷ s

-- The number that digits denote, after those of `value`.
abbrev pub number_from : ℕ → List ℕ → ℕ
number_from value [] = value
number_from value (ch ∷ s) = number_from (value * 10 + (ch - 48)) s

number_from-le : (value : ℕ) (s : List ℕ) → value ≤ number_from value s
number_from-le value [] = omega arith
number_from-le value (ch ∷ s) = omega (arith, number_from-le (value * 10 + (ch - 48)) s)

pub leading-trailing : (s : Slice) → leading s ++ trailing s ≡ s
leading-trailing [] = refl
leading-trailing (ch ∷ s) = elim (Bool-cases (is_digit ch)) [
  | inl e ↦ rw e (ap (λ l. ch ∷ l) (leading-trailing s))
  | inr e ↦ rw e (refl)
]

-- The check is exact.
overflows-lem :
    (value ch : ℕ)
    → value < 2 ^ 64
    → is_digit ch ≡ true
    → overflows value ch ≡ not (ltb (value * 10 + (ch - 48)) (2 ^ 64))
overflows-lem value ch h d = ground arith

scan_digits-lem :
    (value : ℕ) (s : Slice)
    → value < 2 ^ 64
    → scan_digits value s ≡ (
        if ltb (number_from value (leading s)) (2 ^ 64)
        then some (number_from value (leading s), trailing s)
        else none)
unfolding scan_digits
scan_digits-lem value [] h = rw (lt→ltb value (2 ^ 64) h) (refl)
scan_digits-lem value (ch ∷ s) h = elim (Bool-cases (ltb ch 48 || ltb 57 ch)) [
  | inl e ↦ rw (e, lt→ltb value (2 ^ 64) h) (refl)
  | inr e ↦
      rw (e, overflows-lem value ch h (ap not e))
        (elim (Bool-cases (ltb (value * 10 + (ch - 48)) (2 ^ 64))) [
          | inl fits ↦
              let small : value * 10 + (ch - 48) < 2 ^ 64 = ground arith in
              let same : (value * 10 + (ch - 48)) % 2 ^ 64 ≡ value * 10 + (ch - 48) = omega arith in
              rw (fits, same) (scan_digits-lem (value * 10 + (ch - 48)) s small)
          | inr past ↦
              let large : ltb (number_from (value * 10 + (ch - 48)) (leading s)) (2 ^ 64) ≡ false =
                ground (arith, number_from-le (value * 10 + (ch - 48)) (leading s)) in
              rw (past, large) (refl)
        ])
]

-- ConsumeDecimalNumber against the number that the digits at the front of the input denote: where
-- it is below 2^64 it is stored, those digits are removed, and the result is whether there were
-- any; where it is not, nothing is stored or removed, and the result is false. The assertion of
-- remove_prefix holds.
pub consume_decimal_number-lem :
    (input : Slice) (val : ℕ)
    → consume_decimal_number input val
      ≡ some (
          if ltb (number_from 0 (leading input)) (2 ^ 64)
          then (not (length (leading input) == 0), number_from 0 (leading input), trailing input)
          else (false, val, input))
unfolding consume_decimal_number
consume_decimal_number-lem input val =
    ap (consumed input val) (scan_digits-lem 0 input (omega arith))
    ∙ elim (Bool-cases (ltb (number_from 0 (leading input)) (2 ^ 64))) [
      | inl e ↦
          rw (e, digits, remove_prefix-drop (length (leading input)) input fits)
            (ap (λ l. some (not (length (leading input) == 0), number_from 0 (leading input), l))
              cut)
      | inr e ↦ rw e (refl)
    ]
  where
    fits : length (leading input) ≤ length input
    fits =
        omega (
          arith,
          length-append (leading input) (trailing input),
          ap length (leading-trailing input),
        )

    digits : length input - length (trailing input) ≡ length (leading input)
    digits =
        omega (
          arith,
          length-append (leading input) (trailing input),
          ap length (leading-trailing input),
        )

    cut : drop (length (leading input)) input ≡ trailing input
    cut =
        ap (drop (length (leading input))) (sym (leading-trailing input))
        ∙ drop_exact (length (leading input)) (leading input) (trailing input) refl

-- A text that no digit begins.
abbrev pub IsEnd : Slice → Type 0
IsEnd [] = Unit
IsEnd (ch ∷ s) = is_digit ch ≡ false

abbrev pub IsDigit : ℕ → Type 0
IsDigit ch = is_digit ch ≡ true

leading-digits : (ds rest : List ℕ) → All IsDigit ds → IsEnd rest → leading (ds ++ rest) ≡ ds
leading-digits [] [] h e = refl
leading-digits [] (ch ∷ rest) h e = rw e (refl)
leading-digits (d ∷ ds) rest h e = rw (h.0) (ap (λ l. d ∷ l) (leading-digits ds rest h.1 e))

trailing-digits : (ds rest : List ℕ) → All IsDigit ds → IsEnd rest → trailing (ds ++ rest) ≡ rest
trailing-digits [] [] h e = refl
trailing-digits [] (ch ∷ rest) h e = rw e (refl)
trailing-digits (d ∷ ds) rest h e = rw (h.0) (trailing-digits ds rest h.1 e)

pub number_from-append :
    (value : ℕ) (xs ys : List ℕ)
    → number_from value (xs ++ ys) ≡ number_from (number_from value xs) ys
number_from-append value [] ys = refl
number_from-append value (ch ∷ xs) ys = number_from-append (value * 10 + (ch - 48)) xs ys

abbrev high_digits : ℕ → ℕ → List ℕ
high_digits k n = if n / 10 == 0 then [] else decimal k (n / 10)

pub decimal-IsDigit : (k n : ℕ) → All IsDigit (decimal k n)
decimal-IsDigit zero n = tt
decimal-IsDigit (suc k) n =
    All-append IsDigit (high_digits k n) ((48 + n % 10) ∷ [])
      (if-both (All IsDigit) (n / 10 == 0) [] (decimal k (n / 10)) tt (decimal-IsDigit k (n / 10)))
      (low, tt)
  where
    low : is_digit (48 + n % 10) ≡ true
    low = ground arith

number_from-decimal : (k n : ℕ) → n < 10 ^ k → number_from 0 (decimal k n) ≡ n
number_from-decimal zero n h = omega arith
number_from-decimal (suc k) n h =
    number_from-append 0 (high_digits k n) ((48 + n % 10) ∷ [])
    ∙ omega (arith, high (number_from-decimal k (n / 10) (omega (arith, pow-suc 10 k))))
  where
    high : number_from 0 (decimal k (n / 10)) ≡ n / 10 → number_from 0 (high_digits k n) ≡ n / 10
    high ih = elim (Bool-cases (n / 10 == 0)) [
      | inl e ↦ rw e (sym ((==_iff (n / 10) 0).0 e))
      | inr e ↦ rw e ih
    ]

-- What is read of the digits of a number, with zeros before them or not.
pub consume-digits :
    (ds : List ℕ) (n : ℕ) (rest : Slice) (val : ℕ)
    → All IsDigit ds
    → number_from 0 ds ≡ n
    → n < 2 ^ 64
    → IsEnd rest
    → consume_decimal_number (ds ++ rest) val ≡ some (not (length ds == 0), n, rest)
consume-digits ds n rest val h e b stop =
    consume_decimal_number-lem (ds ++ rest) val
    ∙ rw (leading-digits ds rest h stop, trailing-digits ds rest h stop, e, lt→ltb n (2 ^ 64) b)
        (refl)

pub length-llu : (n : ℕ) → (length (llu n) == 0) ≡ false
length-llu n = ground (arith, length-append (high_digits 19 n) ((48 + n % 10) ∷ []))

pub number_from-llu : (n : ℕ) → n < 2 ^ 64 → number_from 0 (llu n) ≡ n
number_from-llu n h = number_from-decimal 20 n (omega arith)

-- A uint64 that AppendNumberTo has written ConsumeDecimalNumber reads back, whatever follows it
-- that does not begin with a digit; it returns true and leaves just what follows.
pub consume_decimal_number-number_to_string :
    (n : ℕ) (rest : Slice) (val : ℕ)
    → n < 2 ^ 64
    → IsEnd rest
    → consume_decimal_number (append_number_to [] n ++ rest) val ≡ some (true, n, rest)
unfolding append_number_to
consume_decimal_number-number_to_string n rest val h stop =
    consume-digits (llu n) n rest val (decimal-IsDigit 20 n) (number_from-llu n h) h stop
    ∙ rw (length-llu n) (refl)
