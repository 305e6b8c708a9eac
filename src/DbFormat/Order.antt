-- ===== src/DbFormat/Order.antt =====
-- The order of internal keys: by user key, and then the newest first.
use Prim.Native.Nat.{Ordering}
use terp_builder.Base.{ℕ, ◌+◌, ◌*◌, ◌^◌, ◌≤◌, ◌<◌, ◌≡◌, refl, sym, ap, ap₂, ◌∙◌, arith, Bool}
use terp_builder.Base.{◌↔◌, some_inj, some, [], length, ltb, if◌then◌else◌}
use terp_builder.Base.{◌⊎◌, inl, inr}
use terp_builder.Slice.{Slice}
use terp_builder.Slice.Lexical.{opposite}
use terp_builder.Comparator.{Comparator, IsLawful, IsBytes}
use terp_builder.DbFormat.{ParsedInternalKey, type_code, append_internal_key, decide}
use terp_builder.DbFormat.{internal_compare, max_sequence_number}
use terp_builder.DbFormat.Keys.{keyed, as_keyed, extract_user_key-keyed, tag-keyed}
use terp_builder.DbFormat.Keys.{append_internal_key-keyed, code_small}

-- A string that can be compared as an internal key.
pub record IsInternal (key : Slice) : Type 0 where
  pub bytes : IsBytes key
  pub long : 8 ≤ length key

-- The larger number first.
abbrev pub descending : ℕ → ℕ → Ordering
descending n m = if ltb m n then Ordering.lt else if ltb n m then Ordering.gt else Ordering.eq

abbrev pub both : Ordering → Ordering → Ordering
both Ordering.eq r = r
both Ordering.lt r = Ordering.lt
both Ordering.gt r = Ordering.gt

decide-both : (o r : Ordering) → decide o (some r) ≡ some (both o r)
decide-both Ordering.lt r = refl
decide-both Ordering.eq r = refl
decide-both Ordering.gt r = refl

pub both-opposite : (o r : Ordering) → both (opposite o) (opposite r) ≡ opposite (both o r)
both-opposite Ordering.lt r = refl
both-opposite Ordering.eq r = refl
both-opposite Ordering.gt r = refl

pub both-eq : (o r : Ordering) → both o r ≡ Ordering.eq → (o ≡ Ordering.eq) × (r ≡ Ordering.eq)
both-eq Ordering.lt r h = cc
both-eq Ordering.eq r h = (refl, h)
both-eq Ordering.gt r h = cc

pub descending-opposite : (n m : ℕ) → descending m n ≡ opposite (descending n m)
descending-opposite n m = ground arith

pub descending-eq : (n m : ℕ) → descending n m ≡ Ordering.eq → n ≡ m
descending-eq n m h = ground arith

descending_pairs :
    (s s' t t' : ℕ)
    → t < 256
    → t' < 256
    → descending (s * 256 + t) (s' * 256 + t') ≡ both (descending s s') (descending t t')
descending_pairs s s' t t' h k = ground arith

pub both-lt :
    (o r : Ordering)
    → both o r ≡ Ordering.lt
    → (o ≡ Ordering.lt) ⊎ ((o ≡ Ordering.eq) × (r ≡ Ordering.lt))
both-lt Ordering.lt r h = inl refl
both-lt Ordering.eq r h = inr (refl, h)
both-lt Ordering.gt r h = cc

descending_trans :
    (n m k : ℕ)
    → descending n m ≡ Ordering.lt
    → descending m k ≡ Ordering.lt
    → descending n k ≡ Ordering.lt
descending_trans n m k h i = ground arith

opposite_fixed : (r : Ordering) → r ≡ opposite r → r ≡ Ordering.eq
opposite_fixed Ordering.lt h = cc
opposite_fixed Ordering.eq h = refl
opposite_fixed Ordering.gt h = cc

module _ (little : Bool) (user : Comparator) where
  pub internal_compare-keyed :
      (u v : Slice) (n m : ℕ)
      → n < 2 ^ 64
      → m < 2 ^ 64
      → internal_compare little user (keyed u n) (keyed v m)
        ≡ some (both (user.compare u v) (descending n m))
  unfolding internal_compare
  internal_compare-keyed u v n m hn hm =
      rw
        (
          extract_user_key-keyed u n,
          extract_user_key-keyed v m,
          tag-keyed little u n hn,
          tag-keyed little v m hm,
        )
        (decide-both (user.compare u v) (descending n m))

  -- InternalKeyComparator::Compare orders what AppendInternalKey wrote by the user key, then by
  -- decreasing sequence number, then by decreasing type, whatever the user comparator.
  pub internal_compare-append :
      (a b : ParsedInternalKey)
      → a.sequence ≤ max_sequence_number
      → b.sequence ≤ max_sequence_number
      → internal_compare little user
          (append_internal_key little [] a)
          (append_internal_key little [] b)
        ≡ some (
            both (user.compare a.user_key b.user_key) (
              both
                (descending a.sequence b.sequence)
                (descending (type_code a.type) (type_code b.type))))
  internal_compare-append a b ha hb =
      rw
        (
          append_internal_key-keyed little a (omega arith),
          append_internal_key-keyed little b (omega arith),
          internal_compare-keyed a.user_key b.user_key (a.sequence * 256 + type_code a.type)
              (b.sequence * 256 + type_code b.type) (omega (arith, code_small a.type))
              (omega (arith, code_small b.type)),
        )
        (ap (λ r. some (both (user.compare a.user_key b.user_key) r))
          (descending_pairs a.sequence b.sequence (type_code a.type) (type_code b.type)
            (code_small a.type) (code_small b.type)))

  pub below-keyed :
      (x y u v : Slice) (n m : ℕ)
      → x ≡ keyed u n
      → y ≡ keyed v m
      → n < 2 ^ 64
      → m < 2 ^ 64
      → internal_compare little user x y ≡ some Ordering.lt
      → both (user.compare u v) (descending n m) ≡ Ordering.lt
  below-keyed x y u v n m ex ey hn hm h =
      cc (internal_compare-keyed u v n m hn hm, ap₂ (internal_compare little user) ex ey)

  module _ (law : IsLawful user) where
    -- For a user comparator as comparator.h describes it, InternalKeyComparator::Compare answers on
    -- any two internal keys, the other way round the answer is the opposite one, and it is equality
    -- exactly where the two keys are the same bytes.
    pub internal_compare_total :
        (x y : Slice)
        → IsInternal x
        → IsInternal y
        → (r : Ordering) × (internal_compare little user x y ≡ some r)
          × (internal_compare little user y x ≡ some (opposite r))
          × ((r ≡ Ordering.eq) ↔ (x ≡ y))
    internal_compare_total x y hx hy =
        let (u, n, ex, hn, _) = as_keyed x hx.bytes hx.long in
        let (v, m, ey, hm, _) = as_keyed y hy.bytes hy.long in
        let o = user.compare u v in
        let r = both o (descending n m) in
        let here =
          ap₂ (internal_compare little user) ex ey ∙ internal_compare-keyed u v n m hn hm in
        let there : internal_compare little user y x ≡ some (opposite r) =
          ap₂ (internal_compare little user) ey ex
          ∙ internal_compare-keyed v u m n hm hn
          ∙ ap some (
              ap₂ both (law.opposed u v) (descending-opposite n m)
              ∙ both-opposite o (descending n m)) in
        (
          r,
          here,
          there,
          (
            (λ h.
                let (eo, ed) = both-eq o (descending n m) h in
                ex ∙ ap₂ keyed (law.eq_same u v eo) (descending-eq n m ed) ∙ sym ey),
            λ p.
                opposite_fixed r
                  (some_inj (sym here ∙ ap₂ (internal_compare little user) p (sym p) ∙ there)),
          ),
        )

    pub both_trans :
        (u v w : Slice) (n m k : ℕ)
        → both (user.compare u v) (descending n m) ≡ Ordering.lt
        → both (user.compare v w) (descending m k) ≡ Ordering.lt
        → both (user.compare u w) (descending n k) ≡ Ordering.lt
    both_trans u v w n m k h i = elim (both-lt (user.compare u v) _ h) [
      | inl a ↦ elim (both-lt (user.compare v w) _ i) [
        | inl b ↦ rw (law.ordered u v w a b)
        | inr (b, _) ↦ rw (← law.eq_same v w b, a)
      ]
      | inr (a, d) ↦ elim (both-lt (user.compare v w) _ i) [
        | inl b ↦ rw (law.eq_same u v a, b)
        | inr (b, e) ↦
            rw (law.eq_same u v a, law.eq_same v w b, law.same w) (descending_trans n m k d e)
      ]
    ]

    -- For a user comparator as comparator.h describes it, "below" of InternalKeyComparator::Compare is
    -- transitive on internal keys.
    pub internal_compare_trans :
        (x y z : Slice)
        → IsInternal x
        → IsInternal y
        → IsInternal z
        → internal_compare little user x y ≡ some Ordering.lt
        → internal_compare little user y z ≡ some Ordering.lt
        → internal_compare little user x z ≡ some Ordering.lt
    internal_compare_trans x y z hx hy hz h k =
        let (u, n, ex, hn, _) = as_keyed x hx.bytes hx.long in
        let (v, m, ey, hm, _) = as_keyed y hy.bytes hy.long in
        let (w, l, ez, hl, _) = as_keyed z hz.bytes hz.long in
        ap₂ (internal_compare little user) ex ez
        ∙ internal_compare-keyed u w n l hn hl
        ∙ ap some (
            both_trans u v w n m l (below-keyed x y u v n m ex ey hn hm h)
              (below-keyed y z v w m l ey ez hm hl k))
