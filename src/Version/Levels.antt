-- ===== src/Version/Levels.antt =====
-- A level of table files whose ranges of internal keys follow one another.
use Prim.Native.Nat.{Ordering}
use terp_builder.Base.{
  ℕ, ◌+◌, ◌*◌, ◌^◌, ◌≤◌, ◌≡◌, ◌≢◌, refl, sym, ap, ap₂, ◌∙◌, arith, Bool, some, some_inj,
}
use terp_builder.Base.{List, [], ◌∷◌, All}
use terp_builder.Slice.{Slice}
use terp_builder.Slice.Lexical.{opposite}
use terp_builder.Comparator.{Comparator, IsLawful}
use terp_builder.DbFormat.{
  internal_compare, extract_user_key, append_internal_key, is_lt, max_sequence_number,
  value_type_for_seek,
}
use terp_builder.DbFormat.Keys.{keyed, extract_user_key-keyed, append_internal_key-keyed}
use terp_builder.DbFormat.Order.{
  both, both-eq, both_trans, both-opposite, descending, descending-eq, descending-opposite,
  internal_compare-keyed,
}
use terp_builder.VersionEdit.{FileMetaData}

-- A user key and a packed number behind it.
pub record IsInternalKey (key : Slice) : Type 0 where
  pub user_key : Slice
  pub number : ℕ
  pub stored : key ≡ keyed user_key number
  pub small : number ≤ max_sequence_number * 2 ^ 8 + 1

module _ (little : Bool) (user : Comparator) where
  abbrev pub IsLess : Slice → Slice → Type 0
  IsLess a b = internal_compare little user a b ≡ some Ordering.lt

  pub record IsFile (f : FileMetaData) : Type 0 where
    pub low : IsInternalKey f.smallest
    pub high : IsInternalKey f.largest
    pub ordered : internal_compare little user f.largest f.smallest ≢ some Ordering.lt

  -- Each file ends before those after it begin.
  abbrev pub IsLevel : List FileMetaData → Type 0
  IsLevel [] = Unit
  IsLevel (f ∷ files) = IsFile f × All (λ g. IsLess f.largest g.smallest) files × IsLevel files

  pub compare_known :
      {a b : Slice} (ka : IsInternalKey a) (kb : IsInternalKey b)
      → internal_compare little user a b
        ≡ some (both (user.compare ka.user_key kb.user_key) (descending ka.number kb.number))
  compare_known ka kb =
      ap₂ (internal_compare little user) ka.stored kb.stored
      ∙ internal_compare-keyed little user ka.user_key kb.user_key ka.number kb.number
          (omega (arith, ka.small)) (omega (arith, kb.small))

  pub extract-key : {a : Slice} (ka : IsInternalKey a) → extract_user_key a ≡ some ka.user_key
  extract-key ka = ap extract_user_key ka.stored ∙ extract_user_key-keyed ka.user_key ka.number

  known :
      {a b : Slice} (ka : IsInternalKey a) (kb : IsInternalKey b)
      → IsLess a b
      → both (user.compare ka.user_key kb.user_key) (descending ka.number kb.number) ≡ Ordering.lt
  known ka kb less = some_inj (sym (compare_known ka kb) ∙ less)

  module _ (law : IsLawful user) where
    gt-lt : (o : Ordering) → o ≡ Ordering.gt → opposite o ≡ Ordering.lt
    gt-lt o e = ap opposite e

    least_trans :
        (u v w : Slice) (n m k : ℕ) (o : Ordering)
        → both (user.compare u v) (descending n m) ≡ Ordering.lt
        → both (user.compare w v) (descending k m) ≡ o
        → o ≢ Ordering.lt
        → both (user.compare u w) (descending n k) ≡ Ordering.lt
    least_trans u v w n m k Ordering.lt less e least = absurd (least refl)
    least_trans u v w n m k Ordering.eq less e least =
        let (same, even) = both-eq _ _ e in
        ap₂ (λ x y. both (user.compare u x) (descending n y)) (law.eq_same w v same)
          (descending-eq k m even)
        ∙ less
    least_trans u v w n m k Ordering.gt less e least = both_trans little user law u v w n m k less (
        ap₂ both (law.opposed w v) (descending-opposite k m)
        ∙ both-opposite (user.compare w v) (descending k m)
        ∙ gt-lt _ e)

    -- What is below a key is below all that is not below this key.
    pub IsLess-trans :
        {a b c : Slice} (ka : IsInternalKey a) (kb : IsInternalKey b) (kc : IsInternalKey c)
        → IsLess a b
        → internal_compare little user c b ≢ some Ordering.lt
        → IsLess a c
    IsLess-trans ka kb kc less least =
        compare_known ka kc
        ∙ ap some (
            least_trans ka.user_key kb.user_key kc.user_key ka.number kb.number kc.number _
              (known ka kb less) refl (λ e. least (compare_known kc kb ∙ ap some e)))

    not_gt : (o r : Ordering) → both o r ≡ Ordering.lt → o ≢ Ordering.gt
    not_gt Ordering.lt r h e = cc e
    not_gt Ordering.eq r h e = cc e
    not_gt Ordering.gt r h e = cc h

    -- The same of their user keys.
    pub less-user :
        {a b : Slice} (ka : IsInternalKey a) (kb : IsInternalKey b)
        → IsLess a b
        → user.compare ka.user_key kb.user_key ≢ Ordering.gt
    less-user ka kb less = not_gt _ _ (known ka kb less)

    -- The largest key with a user key is the earliest: a key is below it if its user key is.
    pub seek_less :
        {a : Slice} (ka : IsInternalKey a) (s : Slice)
        → (o : Ordering) × (internal_compare little user a (
              append_internal_key little [] (record {
                user_key = s;
                sequence = max_sequence_number;
                type = value_type_for_seek;
              }))
            ≡ some o)
          × (is_lt o ≡ is_lt (user.compare ka.user_key s))
    seek_less ka s = (
      _,
      ap₂ (internal_compare little user) ka.stored
            (append_internal_key-keyed little _ (omega arith))
          ∙ internal_compare-keyed little user ka.user_key s ka.number _ (omega (arith, ka.small))
              (omega arith),
      first _ _ (ground (arith, ka.small)),
    )
      where
        first : (o r : Ordering) → r ≢ Ordering.lt → is_lt (both o r) ≡ is_lt o
        first Ordering.lt r h = refl
        first Ordering.gt r h = refl
        first Ordering.eq Ordering.lt h = absurd (h refl)
        first Ordering.eq Ordering.eq h = refl
        first Ordering.eq Ordering.gt h = refl

    pub lt_trans :
        {a b c : Slice} (ka : IsInternalKey a) (kb : IsInternalKey b) (kc : IsInternalKey c)
        → IsLess a b
        → IsLess b c
        → IsLess a c
    lt_trans ka kb kc first second =
        compare_known ka kc
        ∙ ap some (
            both_trans little user law ka.user_key kb.user_key kc.user_key ka.number kb.number
              kc.number (known ka kb first) (known kb kc second))

    -- Of two files in order, the largest keys are.
    pub largest-IsLess :
        (f g : FileMetaData)
        → IsFile f
        → IsFile g
        → IsLess f.largest g.smallest
        → IsLess f.largest g.largest
    largest-IsLess f g hf hg less = IsLess-trans hf.high hg.low hg.high less hg.ordered

    pub smallest_user :
        (f g : FileMetaData) (hf : IsFile f) (hg : IsFile g)
        → IsLess f.largest g.smallest
        → user.compare hf.low.user_key hg.low.user_key ≢ Ordering.gt
    smallest_user f g hf hg less gt = hf.ordered (
        lt_trans hf.high hg.low hf.low less (
          compare_known hg.low hf.low
          ∙ ap (λ o. some (both o (descending hg.low.number hf.low.number)))
              (law.opposed hf.low.user_key hg.low.user_key ∙ ap opposite gt)))
