-- ===== src/Logging/Escapes.antt =====
-- What EscapeString makes of a slice.
use terp_builder.Base.{ℕ, ◌/◌, ◌%◌, ◌≤◌, ◌<◌, ◌≡◌, refl, ap, sym, ◌∙◌, arith, true, ◌&&◌, inl, inr}
use terp_builder.Base.{
  List, [], ◌∷◌, ◌++◌, append_assoc, append-nil, bit_and, leb, if◌then◌else◌, All, All-append,
  Bool-cases,
}
use terp_builder.Base.Bits.{bit_and_ones_eight}
use terp_builder.Slice.{Slice}
use terp_builder.Logging.{append_escaped_string_to, escape_string, hex_escape, hex_digit}

-- The text for one byte.
abbrev pub escaped : ℕ → List ℕ
escaped c = if leb 32 c && leb c 126 then c ∷ [] else hex_escape c

abbrev pub escaped_all : Slice → List ℕ
escaped_all [] = []
escaped_all (c ∷ value) = escaped c ++ escaped_all value

abbrev pub IsPrintable : ℕ → Type 0
IsPrintable c = (32 ≤ c) × (c ≤ 126)

abbrev pub IsByte : ℕ → Type 0
IsByte c = c < 256

escaped-append :
    (str : List ℕ) (c : ℕ)
    → IsByte c
    → (if leb 32 c && leb c 126 then str ++ (c ∷ []) else str ++ hex_escape (bit_and c 0xff))
      ≡ str ++ escaped c
escaped-append str c h = elim (Bool-cases (leb 32 c && leb c 126)) [
  | inl e ↦ rw e (refl)
  | inr e ↦ rw e (ap (λ k. str ++ hex_escape k) (bit_and_ones_eight c ∙ omega arith))
]

append_escaped-lem :
    (str : List ℕ) (value : Slice)
    → All IsByte value
    → append_escaped_string_to str value ≡ str ++ escaped_all value
unfolding append_escaped_string_to
append_escaped-lem str [] h = sym (append-nil str)
append_escaped-lem str (c ∷ value) h =
    ap (λ s. append_escaped_string_to s value) (escaped-append str c h.0)
    ∙ append_escaped-lem (str ++ escaped c) value h.1
    ∙ append_assoc str (escaped c) (escaped_all value)

hex_digit-IsPrintable : (d : ℕ) → d < 16 → IsPrintable (hex_digit d)
hex_digit-IsPrintable d h = ground arith

escaped-IsPrintable : (c : ℕ) → IsByte c → All IsPrintable (escaped c)
escaped-IsPrintable c h = elim (Bool-cases (leb 32 c && leb c 126)) [
  | inl e ↦ rw e (ground arith, tt)
  | inr e ↦ rw e (
    (omega arith, omega arith),
    (
      (omega arith, omega arith),
      (
        hex_digit-IsPrintable (c / 16) (omega arith),
        (hex_digit-IsPrintable (c % 16) (omega arith), tt),
      ),
    ),
  )
]

escaped_all-IsPrintable : (value : Slice) → All IsByte value → All IsPrintable (escaped_all value)
escaped_all-IsPrintable [] h = tt
escaped_all-IsPrintable (c ∷ value) h =
    All-append IsPrintable (escaped c) (escaped_all value) (escaped-IsPrintable c h.0)
      (escaped_all-IsPrintable value h.1)

-- EscapeString of bytes gives only printable characters, and of a printable slice the slice itself.
pub escape_string-IsPrintable :
    (value : Slice)
    → All IsByte value
    → All IsPrintable (escape_string value) × (All IsPrintable value → escape_string value ≡ value)
escape_string-IsPrintable value h =
    rw (append_escaped-lem [] value h) (escaped_all-IsPrintable value h, same value)
  where
    same : (value : Slice) → All IsPrintable value → escaped_all value ≡ value
    same [] p = refl
    same (c ∷ value) p =
        let e : (leb 32 c && leb c 126) ≡ true = let q : IsPrintable c = p.0 in ground arith in
        rw e (ap (λ l. c ∷ l) (same value p.1))
