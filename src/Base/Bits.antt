-- ===== src/Base/Bits.antt =====
-- Laws of the bit operations at variables, from the digit recursion that the native operations
-- stand for.
use Prim.Native.Nat.{min, max, digits, bitwise, bit_and-bitwise, bit_or-bitwise}
use native.Mathlib.Nat.{pow-suc}
use terp_builder.Base.{
  ℕ, zero, suc, ◌+◌, ◌*◌, ◌/◌, ◌%◌, ◌^◌, ◌≤◌, ◌<◌, ◌≡◌, refl, sym, ap, ◌∙◌, arith,
}
use terp_builder.Base.{bit_and, bit_or}

-- What the native operations stand for, for any operation on digits and any value past the last
-- digit of the first number.
module _ (past : ℕ → ℕ) (op : ℕ → ℕ → ℕ) where
  none_left : (n b : ℕ) → digits past op n zero b ≡ past b
  none_left zero b = refl
  none_left (suc n) b = refl

  same_digits : (n m a b : ℕ) → a ≤ n → a ≤ m → digits past op n a b ≡ digits past op m a b
  same_digits n m zero b le le' = none_left n b ∙ sym (none_left m b)
  same_digits zero m (suc a) b le le' = absurd (omega arith)
  same_digits (suc n) zero (suc a) b le le' = absurd (omega arith)
  same_digits (suc n) (suc m) (suc a) b le le' =
      ap (λ high. high * 2 + op (suc a % 2) (b % 2))
        (same_digits n m (suc a / 2) (b / 2) (omega arith) (omega arith))

  pub lowest_digit :
      (a b : ℕ)
      → bitwise past op (suc a) b ≡ bitwise past op (suc a / 2) (b / 2) * 2 + op (suc a % 2) (b % 2)
  lowest_digit a b =
      ap (λ high. high * 2 + op (suc a % 2) (b % 2))
        (same_digits a (suc a / 2) (suc a / 2) (b / 2) (omega arith) (omega arith))

pub bit_and_step : (a b : ℕ) → bit_and a b ≡ bit_and (a / 2) (b / 2) * 2 + min (a % 2) (b % 2)
bit_and_step zero b = omega (arith, bit_and-bitwise 0 b, bit_and-bitwise 0 (b / 2))
bit_and_step (suc a) b =
    bit_and-bitwise (suc a) b
    ∙ lowest_digit (λ b. 0) min a b
    ∙ ap (λ high. high * 2 + min (suc a % 2) (b % 2)) (sym (bit_and-bitwise (suc a / 2) (b / 2)))

pub zero-bit_or : (b : ℕ) → bit_or 0 b ≡ b
zero-bit_or b = bit_or-bitwise 0 b

pub bit_or_step : (a b : ℕ) → bit_or a b ≡ bit_or (a / 2) (b / 2) * 2 + max (a % 2) (b % 2)
bit_or_step zero b = omega (arith, zero-bit_or b, zero-bit_or (b / 2))
bit_or_step (suc a) b =
    bit_or-bitwise (suc a) b
    ∙ lowest_digit (λ b. b) max a b
    ∙ ap (λ high. high * 2 + max (suc a % 2) (b % 2)) (sym (bit_or-bitwise (suc a / 2) (b / 2)))

pub double-shift : (s b : ℕ) → b * 2 ^ suc s ≡ 2 * (b * 2 ^ s)
double-shift s b = rw (pow-suc) (omega arith)

halve-shift : (s b : ℕ) → b * 2 ^ suc s / 2 ≡ b * 2 ^ s
halve-shift s b = omega (arith, double-shift s b)

-- Where the two numbers share no digit, `|` is `+`.
pub bit_or_disjoint : (s a b : ℕ) → a < 2 ^ s → bit_or a (b * 2 ^ s) ≡ a + b * 2 ^ s
bit_or_disjoint zero a b h =
    let e : a ≡ 0 = omega arith in rw e (zero-bit_or (b * 2 ^ 0) ∙ omega arith)
bit_or_disjoint (suc s) a b h = omega (
  arith,
  bit_or_step a (b * 2 ^ suc s),
  halve-shift s b,
  double-shift s b,
  pow-suc 2 s,
  ap (λ t. bit_or (a / 2) t) (halve-shift s b),
  bit_or_disjoint s (a / 2) b (omega (arith, pow-suc 2 s)),
)

bit_or-comm_fuel : (n a b : ℕ) → a ≤ n → b ≤ n → bit_or a b ≡ bit_or b a
bit_or-comm_fuel zero a b p q =
    let e : a ≡ 0 = omega arith in let e' : b ≡ 0 = omega arith in rw (e, e') refl
bit_or-comm_fuel (suc n) a b p q = omega (
  arith,
  bit_or_step a b,
  bit_or_step b a,
  bit_or-comm_fuel n (a / 2) (b / 2) (omega arith) (omega arith),
)

pub bit_or_comm : (a b : ℕ) → bit_or a b ≡ bit_or b a
bit_or_comm a b = bit_or-comm_fuel (a + b) a b (omega arith) (omega arith)

pub bit_or-lt : (k a b : ℕ) → a < 2 ^ k → b < 2 ^ k → bit_or a b < 2 ^ k
bit_or-lt zero a b h p =
    let e : a ≡ 0 = omega arith in let e' : b ≡ 0 = omega arith in rw (e, e') (omega arith)
bit_or-lt (suc k) a b h p = omega (
  arith,
  bit_or_step a b,
  pow-suc 2 k,
  bit_or-lt k (a / 2) (b / 2) (omega (arith, pow-suc 2 k)) (omega (arith, pow-suc 2 k)),
)

-- Setting bit k, seen below bit k + 1.
bit_or_bit0 : (x : ℕ) → bit_or x 1 % 2 ≡ 1
bit_or_bit0 x = omega (arith, bit_or_step x 1)

bit_or_bit1 : (x : ℕ) → bit_or x 2 % 4 ≡ x % 2 + 2
bit_or_bit1 x = omega (arith, bit_or_step x 2, bit_or_bit0 (x / 2))

bit_or_bit2 : (x : ℕ) → bit_or x 4 % 8 ≡ x % 4 + 4
bit_or_bit2 x = omega (arith, bit_or_step x 4, bit_or_bit1 (x / 2))

bit_or_bit3 : (x : ℕ) → bit_or x 8 % 16 ≡ x % 8 + 8
bit_or_bit3 x = omega (arith, bit_or_step x 8, bit_or_bit2 (x / 2))

bit_or_bit4 : (x : ℕ) → bit_or x 16 % 32 ≡ x % 16 + 16
bit_or_bit4 x = omega (arith, bit_or_step x 16, bit_or_bit3 (x / 2))

bit_or_bit5 : (x : ℕ) → bit_or x 32 % 64 ≡ x % 32 + 32
bit_or_bit5 x = omega (arith, bit_or_step x 32, bit_or_bit4 (x / 2))

bit_or_bit6 : (x : ℕ) → bit_or x 64 % 128 ≡ x % 64 + 64
bit_or_bit6 x = omega (arith, bit_or_step x 64, bit_or_bit5 (x / 2))

-- `x | 0x80`, as a byte.
pub bit_or_top : (x : ℕ) → bit_or x 128 % 256 ≡ x % 128 + 128
bit_or_top x = omega (arith, bit_or_step x 128, bit_or_bit6 (x / 2))

no_digits : (n a : ℕ) → digits (λ b. 0) min n a 0 ≡ 0
no_digits zero a = refl
no_digits (suc n) zero = refl
no_digits (suc n) (suc a) = omega (arith, no_digits n (suc a / 2))

pub bit_and-zero : (a : ℕ) → bit_and a 0 ≡ 0
bit_and-zero a = bit_and-bitwise a 0 ∙ no_digits a a

bit_and_one : (a : ℕ) → bit_and a 1 ≡ a % 2
bit_and_one a = omega (arith, bit_and_step a 1, bit_and-zero (a / 2))

pub bit_and_three : (a : ℕ) → bit_and a 3 ≡ a % 4
bit_and_three a = omega (arith, bit_and_step a 3, bit_and_one (a / 2))

bit_and_seven : (a : ℕ) → bit_and a 7 ≡ a % 8
bit_and_seven a = omega (arith, bit_and_step a 7, bit_and_three (a / 2))

pub bit_and_fifteen : (a : ℕ) → bit_and a 15 ≡ a % 16
bit_and_fifteen a = omega (arith, bit_and_step a 15, bit_and_seven (a / 2))

bit_and_thirty_one : (a : ℕ) → bit_and a 31 ≡ a % 32
bit_and_thirty_one a = omega (arith, bit_and_step a 31, bit_and_fifteen (a / 2))

pub bit_and_sixty_three : (a : ℕ) → bit_and a 63 ≡ a % 64
bit_and_sixty_three a = omega (arith, bit_and_step a 63, bit_and_thirty_one (a / 2))

pub bit_and_ones_seven : (a : ℕ) → bit_and a 127 ≡ a % 128
bit_and_ones_seven a = omega (arith, bit_and_step a 127, bit_and_sixty_three (a / 2))

pub bit_and_ones_eight : (a : ℕ) → bit_and a 255 ≡ a % 256
bit_and_ones_eight a = omega (arith, bit_and_step a 255, bit_and_ones_seven (a / 2))

-- One bit.
bit_and_bit0 : (b : ℕ) → bit_and b 1 ≡ b % 2
bit_and_bit0 b = bit_and_one b

bit_and_bit1 : (b : ℕ) → bit_and b 2 ≡ b / 2 % 2 * 2
bit_and_bit1 b = omega (arith, bit_and_step b 2, bit_and_bit0 (b / 2))

bit_and_bit2 : (b : ℕ) → bit_and b 4 ≡ b / 4 % 2 * 4
bit_and_bit2 b = omega (arith, bit_and_step b 4, bit_and_bit1 (b / 2))

bit_and_bit3 : (b : ℕ) → bit_and b 8 ≡ b / 8 % 2 * 8
bit_and_bit3 b = omega (arith, bit_and_step b 8, bit_and_bit2 (b / 2))

bit_and_bit4 : (b : ℕ) → bit_and b 16 ≡ b / 16 % 2 * 16
bit_and_bit4 b = omega (arith, bit_and_step b 16, bit_and_bit3 (b / 2))

bit_and_bit5 : (b : ℕ) → bit_and b 32 ≡ b / 32 % 2 * 32
bit_and_bit5 b = omega (arith, bit_and_step b 32, bit_and_bit4 (b / 2))

bit_and_bit6 : (b : ℕ) → bit_and b 64 ≡ b / 64 % 2 * 64
bit_and_bit6 b = omega (arith, bit_and_step b 64, bit_and_bit5 (b / 2))

-- The top bit of a byte decides `b & 128`.
pub bit_and_top : (b : ℕ) → bit_and b 128 ≡ b / 128 % 2 * 128
bit_and_top b = omega (arith, bit_and_step b 128, bit_and_bit6 (b / 2))

-- A mask of n ones keeps what is below 2 ^ n.
unfoldable ones : ℕ → ℕ
ones zero = 0
ones (suc n) = 2 * ones n + 1

halved : ℕ → ℕ → ℕ
halved zero a = a
halved (suc n) a = halved n (a / 2)

bit_and_low :
    (n a : ℕ) → (bit_and a (ones n) + halved n a * 2 ^ n ≡ a) × (bit_and a (ones n) < 2 ^ n)
unfolding ones halved
bit_and_low zero a =
    (omega (arith, bit_and_step a 0, bit_and-zero a), omega (arith, bit_and-zero a))
bit_and_low (suc n) a =
    let (e, l) = bit_and_low n (a / 2) in
    let s = bit_and_step a (2 * ones n + 1) in
    let h : (2 * ones n + 1) / 2 ≡ ones n = omega arith in
    let s' = ap (λ m. bit_and (a / 2) m) h in
    (
      omega (arith, e, s, s', double-shift n (halved n (a / 2))),
      omega (arith, l, s, s', pow-suc 2 n),
    )

pub bit_and_ones_thirty_one : (a : ℕ) → bit_and a 0x7fffffff ≡ a % 2 ^ 31
unfolding ones
bit_and_ones_thirty_one a = let (e, l) = bit_and_low 31 a in omega (arith, e, l)
