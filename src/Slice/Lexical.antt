-- ===== src/Slice/Lexical.antt =====
-- The comparisons of slices against the lexicographic order of byte strings.
use Prim.Native.Nat.{Ordering}
use terp_builder.Base.{ℕ, ◌≤◌, ◌≡◌, ◌↔◌, refl, arith, true}
use terp_builder.Base.{List, [], ◌∷◌, ◌++◌, length, length-append, ltb, if◌then◌else◌}
use terp_builder.Slice.{Slice, memcmp, is_zero, compare, equals, starts_with}

-- The order of a dictionary: the first difference decides, and a proper prefix comes first.
abbrev pub lex : List ℕ → List ℕ → Ordering
lex [] [] = Ordering.eq
lex [] (b ∷ y) = Ordering.lt
lex (a ∷ x) [] = Ordering.gt
lex (a ∷ x) (b ∷ y) =
    let rest = lex x y in if ltb a b then Ordering.lt else if ltb b a then Ordering.gt else rest

abbrev pub opposite : Ordering → Ordering
opposite Ordering.lt = Ordering.gt
opposite Ordering.eq = Ordering.eq
opposite Ordering.gt = Ordering.lt

-- Slice::compare is the lexicographic order of the bytes.
pub compare-lex : (s b : Slice) → compare s b ≡ lex s b
unfolding compare memcmp
compare-lex [] [] = refl
compare-lex [] (b ∷ y) = ground arith
compare-lex (a ∷ x) [] = ground arith
compare-lex (a ∷ x) (b ∷ y) = ground (arith, compare-lex x y)

pub lex-opposite : (x y : List ℕ) → lex y x ≡ opposite (lex x y)
lex-opposite [] [] = refl
lex-opposite [] (b ∷ y) = refl
lex-opposite (a ∷ x) [] = refl
lex-opposite (a ∷ x) (b ∷ y) = ground (arith, lex-opposite x y)

pub lex-eq : (x y : List ℕ) → lex x y ≡ Ordering.eq → x ≡ y
lex-eq [] [] h = refl
lex-eq [] (b ∷ y) h = cc
lex-eq (a ∷ x) [] h = cc
lex-eq (a ∷ x) (b ∷ y) h = ground (arith, lex-eq x y)

pub lex_refl : (x : List ℕ) → lex x x ≡ Ordering.eq
lex_refl [] = refl
lex_refl (a ∷ x) = ground (arith, lex_refl x)

pub lex_trans :
    (x y z : List ℕ) → lex x y ≡ Ordering.lt → lex y z ≡ Ordering.lt → lex x z ≡ Ordering.lt
lex_trans [] [] z h k = cc
lex_trans [] (b ∷ y) [] h k = cc
lex_trans [] (b ∷ y) (c ∷ z) h k = refl
lex_trans (a ∷ x) [] z h k = cc
lex_trans (a ∷ x) (b ∷ y) [] h k = cc
lex_trans (a ∷ x) (b ∷ y) (c ∷ z) h k = ground (arith, lex_trans x y z)

memcmp-eq :
    (x y : List ℕ)
    → length x ≤ length y
    → is_zero (memcmp (length x) y x) ≡ true
    → (t : List ℕ) × (y ≡ x ++ t)
unfolding memcmp
memcmp-eq [] y h e = (y, refl)
memcmp-eq (a ∷ x) [] h e = absurd (omega arith)
memcmp-eq (a ∷ x) (b ∷ y) h e =
    let (t, p) = memcmp-eq x y (omega arith) (ground arith) in (t, ground arith)

memcmp-append : (x t : List ℕ) → memcmp (length x) (x ++ t) x ≡ Ordering.eq
unfolding memcmp
memcmp-append [] t = refl
memcmp-append (a ∷ x) t = ground (arith, memcmp-append x t)

-- starts_with holds exactly of the slices that have x in front.
pub starts_with_iff : (s x : Slice) → (starts_with s x ≡ true) ↔ ((t : Slice) × (s ≡ x ++ t))
unfolding starts_with
starts_with_iff s x = (
  λ h. memcmp-eq x s (ground arith) (ground arith),
  λ (t, e). rw e (ground (arith, length-append x t, memcmp-append x t)),
)

memcmp_same : (x y : List ℕ) → length x ≡ length y → is_zero (memcmp (length x) x y) ≡ true → x ≡ y
unfolding memcmp
memcmp_same [] [] h e = refl
memcmp_same [] (b ∷ y) h e = absurd (omega arith)
memcmp_same (a ∷ x) [] h e = absurd (omega arith)
memcmp_same (a ∷ x) (b ∷ y) h e = ground (arith, memcmp_same x y (omega arith))

memcmp_refl : (x : List ℕ) → memcmp (length x) x x ≡ Ordering.eq
unfolding memcmp
memcmp_refl [] = refl
memcmp_refl (a ∷ x) = ground (arith, memcmp_refl x)

-- `operator==` holds exactly of slices with the same bytes.
pub equals_iff : (x y : Slice) → (equals x y ≡ true) ↔ (x ≡ y)
unfolding equals
equals_iff x y = (
  λ h. memcmp_same x y (ground arith) (ground arith),
  λ e. rw (← e) (ground (arith, memcmp_refl x)),
)
