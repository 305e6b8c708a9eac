-- ===== src/Random/Cycle.antt =====
-- What Next computes, and where the generator's values stay.
use native.Mathlib.Nat.{pow-le-pow_right, mod-lt, one-le-pow}
use terp_builder.Base.{ℕ, ◌+◌, ◌-◌, ◌*◌, ◌/◌, ◌%◌, ◌^◌, ◌<◌, ◌≤◌, ◌≡◌, ◌≢◌, refl, arith}
use terp_builder.Base.{ltb, if◌then◌else◌}
use terp_builder.Base.Bits.{bit_and_ones_thirty_one}
use terp_builder.Random.{modulus, multiplier, seeded, next, uniform, skewed}

abbrev pub InRange : ℕ → Type 0
InRange seed = (0 < seed) × (seed < modulus)

-- One subtraction is enough, and leaves no M: 16807 and M have no common divisor.
reduced-product :
    (seed p : ℕ)
    → seed < modulus
    → p ≡ seed * multiplier
    → (if ltb modulus (p / 2 ^ 31 + p % 2 ^ 31)
        then p / 2 ^ 31 + p % 2 ^ 31 - modulus
        else p / 2 ^ 31 + p % 2 ^ 31)
      ≡ p % modulus
reduced-product seed p h e = ground arith

next-product : (seed : ℕ) → seed < modulus → next seed ≡ seed * multiplier % modulus
unfolding next
next-product seed h =
    rw (bit_and_ones_thirty_one (seed * multiplier % 2 ^ 64))
      (rw (uncut, uncut') (reduced-product seed (seed * multiplier) h refl))
  where
    p : ℕ
    p = seed * multiplier

    uncut : p % 2 ^ 64 ≡ p
    uncut = omega arith

    uncut' : (p / 2 ^ 31 + p % 2 ^ 31) % 2 ^ 32 ≡ p / 2 ^ 31 + p % 2 ^ 31
    uncut' = omega arith

-- From a seed below M = 2^31 - 1 and not 0, Next gives seed * 16807 mod M, which is again
-- such a number.
pub next_lem :
    (seed : ℕ) → InRange seed → (next seed ≡ seed * multiplier % modulus) × InRange (next seed)
next_lem seed (pos, lt) =
    let e = next-product seed lt in (e, (rw e (omega arith), rw e (omega arith)))

-- From two different seeds in the range Next gives different numbers.
pub next_injective :
    (seed other : ℕ) → InRange seed → InRange other → seed ≢ other → next seed ≢ next other
next_injective seed other (p, l) (p', l') differ same =
    let e = next-product seed l in
    let e' = next-product other l' in differ (omega (arith, e, e', same))

-- A generator starts in the range, whatever number it is made of.
pub seeded-InRange : (s : ℕ) → InRange (seeded s)
unfolding seeded
seeded-InRange s = rw (bit_and_ones_thirty_one s) (ground arith)

-- Skewed returns a number below 2^max_log.
pub skewed-lt : (seed max_log : ℕ) → (skewed seed max_log).0 < 2 ^ max_log
unfolding skewed uniform
skewed-lt seed max_log =
    let low = mod-lt (next seed) {m = max_log + 1} (omega arith) in
    let some_bits = one-le-pow (next seed % (max_log + 1)) 2 (omega arith) in
    let at_most : next seed % (max_log + 1) ≤ max_log = omega (arith, low) in
    let two : 0 < 2 = omega arith in
    omega (arith, mod-lt (next (next seed)) some_bits, pow-le-pow_right two at_most)
