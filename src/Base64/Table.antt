-- ===== src/Base64/Table.antt =====
-- The table of digits of fbase64.c, and strchr on it.
use terp_builder.Base.{ℕ, zero, suc, ◌<◌, ◌≡◌, refl, arith, Bool, true, false, ◌&&◌, not}
use terp_builder.Base.{Option, none, some, List, ◌∷◌, ◌==◌, ◌>>=◌}
use terp_builder.Base64.{digit, base64, pad64, is_space, position, Decoder, step, pton_loop}

is_found : Option ℕ → ℕ → Bool
is_found none v = false
is_found (some i) v = i == v

good : ℕ → Bool
good v =
    is_found (position base64 (digit v)) v && (not (is_space (digit v)) && not (digit v == pad64))

good_below : ℕ → Bool
good_below zero = true
good_below (suc n) = good n && good_below n

good_below-good : (n v : ℕ) → good_below n ≡ true → v < n → good v ≡ true
unfolding good_below
good_below-good zero v h lt = absurd (omega arith)
good_below-good (suc n) v h lt = ground (arith, good_below-good n v)

all_good : good_below 64 ≡ true
unfolding good_below good is_found position digit is_space
all_good = refl

is_found-eq : (o : Option ℕ) (v : ℕ) → is_found o v ≡ true → o ≡ some v
unfolding is_found
is_found-eq none v h = cc
is_found-eq (some i) v h = ground arith

good_parts :
    (v : ℕ)
    → good v ≡ true
    → (position base64 (digit v) ≡ some v)
      × (is_space (digit v) ≡ false)
      × ((digit v == pad64) ≡ false)
unfolding good
good_parts v h = (is_found-eq _ v (ground arith), ground arith, ground arith)

-- Reading one digit is one round of the switch.
pub pton_loop-digit :
    (targsize v : ℕ) (src : List ℕ) (d : Decoder)
    → v < 64
    → pton_loop targsize (digit v ∷ src) d ≡ (step targsize v d >>= pton_loop targsize src)
unfolding pton_loop
pton_loop-digit targsize v src d h =
    let (p, s, e) = good_parts v (good_below-good 64 v all_good h) in rw (s, e, p)
