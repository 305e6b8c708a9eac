-- ===== src/Comparator/Bytewise.antt =====
-- BytewiseComparatorImpl of util/comparator.cc against the promises of comparator.h.
use Prim.Native.Nat.{Ordering, min}
use terp_builder.Base.{
  ℕ, ◌+◌, ◌≤◌, ◌≡◌, ◌≢◌, refl, sym, ◌∙◌, arith, List, [], ◌∷◌, length, ap, suc, leb, leb-suc-suc,
  get_or, take, set, Bool, true, false, Bool-cases, inl, inr, ltb, ◌==◌, if◌then◌else◌, ◌&&◌, ◌%◌,
}
use terp_builder.Slice.Lexical.{
  lex, opposite, compare-lex, lex-opposite, lex-eq, lex_refl, lex_trans,
}
use terp_builder.Comparator.{IsLawful, IsBytes, shortest_separator, short_successor}
use terp_builder.Comparator.{bytewise_comparator, diff_index}

-- The separator by recursion on both strings.
abbrev separator : List ℕ → List ℕ → List ℕ
separator [] limit = []
separator (a ∷ start) [] = a ∷ start
separator (a ∷ start) (b ∷ limit) =
    let rest = separator start limit in
    if a == b
    then a ∷ rest
    else if ltb a 0xff && ltb (a + 1) b
    then ((a + 1) % 256) ∷ []
    else a ∷ start

if-cons :
    (c d : Bool) (a : ℕ) (x z : List ℕ)
    → (if c then a ∷ x else if d then a ∷ z else a ∷ x) ≡ a ∷ (if c then x else if d then z else x)
if-cons true d a x z = refl
if-cons false true a x z = refl
if-cons false false a x z = refl

shortest_separator-separator : (x y : List ℕ) → shortest_separator x y ≡ separator x y
unfolding shortest_separator
shortest_separator-separator [] [] = refl
shortest_separator-separator [] (b ∷ y) =
    let e : min 0 (suc (length y)) ≡ 0 = omega arith in rw (e, diff_index)
shortest_separator-separator (a ∷ x) [] =
    let e : min (suc (length x)) 0 ≡ 0 = omega arith in rw (e, diff_index)
shortest_separator-separator (a ∷ x) (b ∷ y) = elim (Bool-cases (a == b)) [
  | inl e ↦ rw (e, both) (cons ∙ ap (λ l. a ∷ l) (shortest_separator-separator x y))
  | inr e ↦ rw (e, both) (ground arith)
]
  where
    both : min (suc (length x)) (suc (length y)) ≡ suc (min (length x) (length y))
    both = omega arith

    d : ℕ
    d = diff_index x y

    cons :
        (if leb (suc (min (length x) (length y))) (suc d)
          then a ∷ x
          else if ltb (get_or x d 0) 0xff && ltb (get_or x d 0 + 1) (get_or y d 0)
          then a ∷ take (suc d) (set x d ((get_or x d 0 + 1) % 256))
          else a ∷ x)
        ≡ a ∷ shortest_separator x y
    cons =
        rw (leb-suc-suc (min (length x) (length y)) d)
          (if-cons (leb (min (length x) (length y)) d) _ a x _)

separator-le : (x y : List ℕ) → lex x y ≡ Ordering.lt → lex x (separator x y) ≢ Ordering.gt
separator-le [] y h = λ e. cc
separator-le (a ∷ x) [] h = λ e. cc
separator-le (a ∷ x) (b ∷ y) h = ground (arith, separator-le x y, lex_refl x)

separator-lt : (x y : List ℕ) → lex x y ≡ Ordering.lt → lex (separator x y) y ≡ Ordering.lt
separator-lt [] y h = h
separator-lt (a ∷ x) [] h = cc
separator-lt (a ∷ x) (b ∷ y) h = ground (arith, separator-lt x y)

separator-IsBytes : (x y : List ℕ) → IsBytes x → IsBytes (separator x y)
separator-IsBytes [] y h = h
separator-IsBytes (a ∷ x) [] h = h
separator-IsBytes (a ∷ x) (b ∷ y) h = ground (arith, separator-IsBytes x y)

successor-ge : (x : List ℕ) → IsBytes x → lex x (short_successor x) ≢ Ordering.gt
unfolding short_successor
successor-ge [] h = λ e. cc
successor-ge (a ∷ x) h = ground (arith, successor-ge x)

successor-IsBytes : (x : List ℕ) → IsBytes x → IsBytes (short_successor x)
unfolding short_successor
successor-IsBytes [] h = h
successor-IsBytes (a ∷ x) h = ground (arith, successor-IsBytes x)

length-sep : (x y : List ℕ) → length (separator x y) ≤ length x
length-sep [] y = omega arith
length-sep (a ∷ x) [] = omega arith
length-sep (a ∷ x) (b ∷ y) = ground (arith, length-sep x y)

length-succ : (x : List ℕ) → length (short_successor x) ≤ length x
unfolding short_successor
length-succ [] = omega arith
length-succ (a ∷ x) = ground (arith, length-succ x)

-- FindShortestSeparator and FindShortSuccessor never return a longer string than they were given.
pub length-separator :
    (x y : List ℕ)
    → (length (shortest_separator x y) ≤ length x) × (length (short_successor x) ≤ length x)
length-separator x y = rw shortest_separator-separator (length-sep x y, length-succ x)

-- BytewiseComparator is a total order whose equality is equality of the bytes; where start < limit
-- its separator lies in [start, limit), its successor is at least the key, and both are bytes.
pub bytewise_comparator-IsLawful : IsLawful bytewise_comparator
bytewise_comparator-IsLawful = record {
  same = λ a. compare-lex a a ∙ lex_refl a;
  eq_same = λ a b h. lex-eq a b (sym (compare-lex a b) ∙ h);
  opposed = λ a b. compare-lex b a ∙ lex-opposite a b ∙ ap opposite (sym (compare-lex a b));
  ordered = λ x y z h k.
      compare-lex x z ∙ lex_trans x y z (sym (compare-lex x y) ∙ h) (sym (compare-lex y z) ∙ k);
  separated = λ x y b h. (
    rw (shortest_separator-separator, compare-lex) (separator-le x y (sym (compare-lex x y) ∙ h)),
    rw (shortest_separator-separator, compare-lex) (separator-lt x y (sym (compare-lex x y) ∙ h)),
  );
  separator_bytes = λ x y b. rw shortest_separator-separator (separator-IsBytes x y b);
  succeeded = λ x b. rw compare-lex (successor-ge x b);
  successor_bytes = successor-IsBytes;
}

separator_same : (x : List ℕ) → separator x x ≡ x
separator_same [] = refl
separator_same (a ∷ x) = ground (arith, separator_same x)

-- No bytes are dropped where start and limit are the same string.
pub shortest_separator_same : (x : List ℕ) → shortest_separator x x ≡ x
shortest_separator_same x = shortest_separator-separator x x ∙ separator_same x
