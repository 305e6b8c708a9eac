-- ===== src/Base/Digits.antt =====
-- One binary digit of a number, and what the bit operations make of it.
use Prim.Native.Nat.{max, differ, bit_xor-bitwise}
use native.Mathlib.Nat.{pow-suc}
use terp_builder.Base.{
  ℕ, zero, suc, ◌+◌, ◌*◌, ◌/◌, ◌%◌, ◌^◌, ◌<◌, ◌≡◌, refl, sym, ap, ◌∙◌, arith, bit_and, bit_or,
  bit_xor,
}
use terp_builder.Base.Bits.{bit_and_step, bit_or_step, bit_and-zero, double-shift, lowest_digit}

abbrev pub binary_digit : ℕ → ℕ → ℕ
binary_digit zero a = a % 2
binary_digit (suc s) a = binary_digit s (a / 2)

half-pow : (s : ℕ) → 2 ^ suc s / 2 ≡ 2 ^ s
half-pow s = omega (arith, pow-suc 2 s)

pub binary_digit-pow : (s : ℕ) → binary_digit s (2 ^ s) ≡ 1
binary_digit-pow zero = refl
binary_digit-pow (suc s) = ap (binary_digit s) (half-pow s) ∙ binary_digit-pow s

pub binary_digit-bit_or :
    (s a b : ℕ) → binary_digit s (bit_or a b) ≡ max (binary_digit s a) (binary_digit s b)
binary_digit-bit_or zero a b = omega (arith, bit_or_step a b)
binary_digit-bit_or (suc s) a b =
    ap (binary_digit s) (omega (arith, bit_or_step a b)) ∙ binary_digit-bit_or s (a / 2) (b / 2)

pub bit_and-pow : (s a : ℕ) → bit_and a (2 ^ s) ≡ binary_digit s a * 2 ^ s
bit_and-pow zero a = omega (arith, bit_and_step a 1, bit_and-zero (a / 2))
bit_and-pow (suc s) a = omega (
  arith,
  bit_and_step a (2 ^ suc s),
  ap (bit_and (a / 2)) (half-pow s),
  bit_and-pow s (a / 2),
  double-shift s (binary_digit s (a / 2)),
  pow-suc 2 s,
)

bit_xor_step : (a b : ℕ) → bit_xor a b ≡ bit_xor (a / 2) (b / 2) * 2 + differ (a % 2) (b % 2)
bit_xor_step zero b = omega (arith, bit_xor-bitwise 0 b, bit_xor-bitwise 0 (b / 2))
bit_xor_step (suc a) b =
    bit_xor-bitwise (suc a) b
    ∙ lowest_digit (λ b. b) differ a b
    ∙ ap (λ high. high * 2 + differ (suc a % 2) (b % 2)) (sym (bit_xor-bitwise (suc a / 2) (b / 2)))

differ-lt : (x y : ℕ) → x < 2 → y < 2 → differ x y < 2
differ-lt zero y p q = q
differ-lt (suc zero) zero p q = p
differ-lt (suc zero) (suc y) p q = omega arith
differ-lt (suc (suc x)) y p q = absurd (omega arith)

pub bit_xor-lt : (k a b : ℕ) → a < 2 ^ k → b < 2 ^ k → bit_xor a b < 2 ^ k
bit_xor-lt zero a b h p =
    let e : a ≡ 0 = omega arith in let e' : b ≡ 0 = omega arith in rw (e, e') (omega arith)
bit_xor-lt (suc k) a b h p = omega (
  arith,
  bit_xor_step a b,
  pow-suc 2 k,
  differ-lt (a % 2) (b % 2) (omega arith) (omega arith),
  bit_xor-lt k (a / 2) (b / 2) (omega (arith, pow-suc 2 k)) (omega (arith, pow-suc 2 k)),
)
