-- ===== src/Slice.antt =====
-- Terp_Builder/Pods/leveldb-library/include/leveldb/slice.h: a slice is the bytes that it refers to.
-- Of an int that a comparison returns only the sign is documented, so it is an `Ordering`.
pub mod Lexical
use Prim.Native.Nat.{Ordering}
use terp_builder.Base.{none, some, ◌≤◌, ◌≡◌, ap, le→leb}
use terp_builder.Base.{ℕ, zero, suc, Bool, true, false, ◌&&◌, Option}
use terp_builder.Base.{List, [], ◌∷◌, length, get_elem?, drop, ltb, leb, ◌==◌, if◌then◌else◌}

abbrev pub Slice : Type 0
Slice = List ℕ

-- memcmp of the first n bytes. Every caller below keeps n within both slices.
unfoldable pub memcmp : ℕ → Slice → Slice → Ordering
memcmp zero x y = Ordering.eq
memcmp (suc n) [] y = Ordering.eq
memcmp (suc n) (a ∷ x) [] = Ordering.eq
memcmp (suc n) (a ∷ x) (b ∷ y) =
    let rest = memcmp n x y in
    if ltb a b then Ordering.lt else if ltb b a then Ordering.gt else rest

abbrev pub is_zero : Ordering → Bool
is_zero Ordering.eq = true
is_zero Ordering.lt = false
is_zero Ordering.gt = false

-- `operator[]`; its assertion is `none`.
pub at : Slice → ℕ → Option ℕ
at s n = get_elem? s n

-- `none` where the assertion fails.
unfoldable pub remove_prefix : ℕ → Slice → Option Slice
remove_prefix n s = if leb n (length s) then some (drop n s) else none

pub remove_prefix-drop : (n : ℕ) (s : Slice) → n ≤ length s → remove_prefix n s ≡ some (drop n s)
unfolding remove_prefix
remove_prefix-drop n s h = ap (λ b. if b then some (drop n s) else none) (le→leb n (length s) h)

unfoldable pub starts_with : Slice → Slice → Bool
starts_with s x = leb (length x) (length s) && is_zero (memcmp (length x) s x)

unfoldable pub equals : Slice → Slice → Bool
equals x y = (length x == length y) && is_zero (memcmp (length x) x y)

by_size : Slice → Slice → Ordering → Ordering
by_size s b Ordering.eq =
    if ltb (length s) (length b)
    then Ordering.lt
    else if ltb (length b) (length s)
    then Ordering.gt
    else Ordering.eq
by_size s b Ordering.lt = Ordering.lt
by_size s b Ordering.gt = Ordering.gt

unfoldable pub compare : Slice → Slice → Ordering
unfolding by_size
compare s b =
    let min_len = if ltb (length s) (length b) then length s else length b in
    by_size s b (memcmp min_len s b)
