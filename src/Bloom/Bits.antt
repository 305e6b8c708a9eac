-- ===== src/Bloom/Bits.antt =====
-- The bits of a filter's array: setting one, and the ones that are set already.
use native.Mathlib.Nat.{mod-lt, one-le-pow}
use terp_builder.Base.{
  ℕ, zero, suc, ◌+◌, ◌*◌, ◌/◌, ◌%◌, ◌^◌, ◌<◌, ◌≤◌, ◌≡◌, refl, ap, ◌∙◌, arith, true, false,
}
use terp_builder.Base.{List, [], ◌∷◌, length, set, get_or, bit_and, bit_or, ◌==◌}
use terp_builder.Base.Digits.{binary_digit, binary_digit-pow, binary_digit-bit_or, bit_and-pow}
use terp_builder.Bloom.{set_bit, test_bit, set_probes, test_probes}

abbrev pub IsOn : ℕ → List ℕ → Type 0
IsOn q array = binary_digit (q % 8) (get_or array (q / 8) 0) ≡ 1

-- An array of the same length with at least the same bits.
pub record IsGrown (array after : List ℕ) : Type 0 where
  pub same_length : length after ≡ length array
  pub keeps : (q : ℕ) → IsOn q array → IsOn q after

pub IsGrown-refl : (array : List ℕ) → IsGrown array array
IsGrown-refl array = record { same_length = refl; keeps = λ q on. on }

pub IsGrown-trans : {a b c : List ℕ} → IsGrown a b → IsGrown b c → IsGrown a c
IsGrown-trans g h = record {
  same_length = h.same_length ∙ g.same_length;
  keeps = λ q on. h.keeps q (g.keeps q on);
}

binary_digit-lt : (s a : ℕ) → binary_digit s a < 2
binary_digit-lt zero a = omega arith
binary_digit-lt (suc s) a = binary_digit-lt s (a / 2)

length-set : (xs : List ℕ) (i v : ℕ) → length (set xs i v) ≡ length xs
length-set [] i v = refl
length-set (x ∷ xs) zero v = refl
length-set (x ∷ xs) (suc i) v = omega (arith, length-set xs i v)

get_or-set : (xs : List ℕ) (i v : ℕ) → i < length xs → get_or (set xs i v) i 0 ≡ v
get_or-set [] i v h = absurd (omega arith)
get_or-set (x ∷ xs) zero v h = refl
get_or-set (x ∷ xs) (suc i) v h = get_or-set xs i v (omega arith)

-- Or-ing into one place leaves every digit that is 1.
or_place :
    (xs : List ℕ) (i j s w : ℕ)
    → binary_digit s (get_or xs j 0) ≡ 1
    → binary_digit s (get_or (set xs i (bit_or (get_or xs i 0) w)) j 0) ≡ 1
or_place [] i j s w on = on
or_place (x ∷ xs) zero zero s w on = omega (arith, binary_digit-bit_or s x w, binary_digit-lt s w)
or_place (x ∷ xs) zero (suc j) s w on = on
or_place (x ∷ xs) (suc i) zero s w on = on
or_place (x ∷ xs) (suc i) (suc j) s w on = or_place xs i j s w on

pub set_bit-IsGrown : (p : ℕ) (array : List ℕ) → IsGrown array (set_bit p array)
unfolding set_bit
set_bit-IsGrown p array = record {
  same_length = length-set array (p / 8) (bit_or (get_or array (p / 8) 0) (2 ^ (p % 8)));
  keeps = λ q on. or_place array (p / 8) (q / 8) (q % 8) (2 ^ (p % 8)) on;
}

pub set_bit-IsOn : (p : ℕ) (array : List ℕ) → p < length array * 8 → IsOn p (set_bit p array)
unfolding set_bit
set_bit-IsOn p array h =
    ap (binary_digit (p % 8)) (get_or-set array (p / 8) (bit_or x (2 ^ (p % 8))) (omega arith))
    ∙ omega (
      arith,
      binary_digit-bit_or (p % 8) x (2 ^ (p % 8)),
      binary_digit-pow (p % 8),
      binary_digit-lt (p % 8) x,
    )
  where
    x : ℕ
    x = get_or array (p / 8) 0

pub test_bit-IsOn : (p : ℕ) (array : List ℕ) → IsOn p array → test_bit p array ≡ true
unfolding test_bit
test_bit-IsOn p array on = rw (value, power_set) (refl)
  where
    value : bit_and (get_or array (p / 8) 0) (2 ^ (p % 8)) ≡ 2 ^ (p % 8)
    value = bit_and-pow (p % 8) (get_or array (p / 8) 0) ∙ rw on (omega arith)

    power_set : (2 ^ (p % 8) == 0) ≡ false
    power_set = ground (arith, one-le-pow (p % 8) 2 (omega arith))

-- The bits of k probes.
abbrev pub AreOn : ℕ → ℕ → ℕ → ℕ → List ℕ → Type 0
AreOn zero bits delta h array = Unit
AreOn (suc k) bits delta h array =
    IsOn (h % bits) array × AreOn k bits delta ((h + delta) % 2 ^ 32) array

pub AreOn-IsGrown :
    (k bits delta h : ℕ) {a b : List ℕ}
    → IsGrown a b
    → AreOn k bits delta h a
    → AreOn k bits delta h b
AreOn-IsGrown zero bits delta h g on = tt
AreOn-IsGrown (suc k) bits delta h g on =
    (g.keeps (h % bits) on.0, AreOn-IsGrown k bits delta ((h + delta) % 2 ^ 32) g on.1)

pub test_probes-AreOn :
    (k bits delta h : ℕ) (array : List ℕ)
    → AreOn k bits delta h array
    → test_probes k bits delta h array ≡ true
unfolding test_probes
test_probes-AreOn zero bits delta h array on = refl
test_probes-AreOn (suc k) bits delta h array on =
    rw (test_bit-IsOn (h % bits) array on.0)
      (test_probes-AreOn k bits delta ((h + delta) % 2 ^ 32) array on.1)

pub set_probes-IsGrown :
    (k bits delta h : ℕ) (array : List ℕ) → IsGrown array (set_probes k bits delta h array)
unfolding set_probes
set_probes-IsGrown zero bits delta h array = IsGrown-refl array
set_probes-IsGrown (suc k) bits delta h array =
    IsGrown-trans (set_bit-IsGrown (h % bits) array)
      (set_probes-IsGrown k bits delta ((h + delta) % 2 ^ 32) (set_bit (h % bits) array))

pub set_probes-AreOn :
    (k bits delta h : ℕ) (array : List ℕ)
    → 0 < bits
    → bits ≤ length array * 8
    → AreOn k bits delta h (set_probes k bits delta h array)
unfolding set_probes
set_probes-AreOn zero bits delta h array p e = tt
set_probes-AreOn (suc k) bits delta h array p e = (
  (set_probes-IsGrown k bits delta next placed).keeps (h % bits)
      (set_bit-IsOn (h % bits) array (omega (arith, mod-lt h p))),
  set_probes-AreOn k bits delta next placed p (omega (arith, grown.same_length)),
)
  where
    next : ℕ
    next = (h + delta) % 2 ^ 32

    placed : List ℕ
    placed = set_bit (h % bits) array

    grown : IsGrown array placed
    grown = set_bit-IsGrown (h % bits) array
