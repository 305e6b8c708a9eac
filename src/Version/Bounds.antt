-- ===== src/Version/Bounds.antt =====
-- The outcomes of a comparison, and bounds that a lawful comparator carries over.
use Prim.Native.Nat.{Ordering}
use terp_builder.Base.{
  ◌≡◌, ◌≢◌, ◌⊎◌, refl, sym, ap, ◌∙◌, Bool, true, false, Option, none, some, inl, inr,
}
use terp_builder.Slice.{Slice}
use terp_builder.Slice.Lexical.{opposite}
use terp_builder.Comparator.{Comparator, IsLawful}
use terp_builder.DbFormat.{is_lt}
use terp_builder.Version.{is_gt}

abbrev pub is_known_lt : Option Ordering → Bool
is_known_lt none = false
is_known_lt (some o) = is_lt o

pub is_known_lt-lt : (o : Option Ordering) → is_known_lt o ≡ true → o ≡ some Ordering.lt
is_known_lt-lt none h = cc
is_known_lt-lt (some Ordering.lt) h = refl
is_known_lt-lt (some Ordering.eq) h = cc
is_known_lt-lt (some Ordering.gt) h = cc

pub lt-is_lt : (o : Ordering) → is_lt o ≡ true → o ≡ Ordering.lt
lt-is_lt Ordering.lt h = refl
lt-is_lt Ordering.eq h = cc h
lt-is_lt Ordering.gt h = cc h

pub gt-is_gt : (o : Ordering) → is_gt o ≡ true → o ≡ Ordering.gt
gt-is_gt Ordering.lt h = cc h
gt-is_gt Ordering.eq h = cc h
gt-is_gt Ordering.gt h = refl

pub lt-gt : (o : Ordering) → is_lt o ≡ is_gt (opposite o)
lt-gt Ordering.lt = refl
lt-gt Ordering.eq = refl
lt-gt Ordering.gt = refl

by_order : (o : Ordering) → (o ≡ Ordering.lt) ⊎ ((o ≡ Ordering.eq) ⊎ (o ≡ Ordering.gt))
by_order Ordering.lt = inl refl
by_order Ordering.eq = inr (inl refl)
by_order Ordering.gt = inr (inr refl)

module _ (user : Comparator) (law : IsLawful user) where
  pub below_on :
      (l x y : Slice)
      → user.compare l x ≡ Ordering.lt
      → user.compare x y ≢ Ordering.gt
      → user.compare l y ≡ Ordering.lt
  below_on l x y low h = elim (by_order (user.compare x y)) [
    | inl less ↦ law.ordered l x y low less
    | inr (inl same) ↦ ap (user.compare l) (sym (law.eq_same x y same)) ∙ low
    | inr (inr more) ↦ absurd (h more)
  ]

  pub above_back :
      (s x y : Slice)
      → user.compare s y ≡ Ordering.gt
      → user.compare x y ≢ Ordering.gt
      → user.compare s x ≡ Ordering.gt
  above_back s x y high h = elim (by_order (user.compare x y)) [
    | inl less ↦
        law.opposed x s ∙ ap opposite (law.ordered x y s less (law.opposed s y ∙ ap opposite high))
    | inr (inl same) ↦ ap (user.compare s) (law.eq_same x y same) ∙ high
    | inr (inr more) ↦ absurd (h more)
  ]

  pub above :
      (a b c : Slice)
      → user.compare a b ≡ Ordering.gt
      → user.compare b c ≡ Ordering.gt
      → user.compare a c ≡ Ordering.gt
  above a b c h i =
      law.opposed c a
      ∙ ap opposite
          (law.ordered c b a (law.opposed b c ∙ ap opposite i) (law.opposed a b ∙ ap opposite h))
