-- ===== src/DbFormat/Separators.antt =====
-- The separators and successors of internal keys, and the assertions in dbformat.cc.
use Prim.Native.Nat.{Ordering}
use terp_builder.Base.{ℕ, ◌^◌, ◌<◌, ◌≡◌, ◌-◌, refl, ap, ap₂, ◌∙◌, arith, Bool}
use terp_builder.Base.{some, ◌++◌, length, ltb}
use terp_builder.Base.{◌⊎◌, inl, inr, Bool-cases, true}
use terp_builder.Slice.{Slice}
use terp_builder.Comparator.{Comparator, IsLawful, IsBytes}
use terp_builder.Coding.Fixed.{le_bytes, put_fixed64}
use terp_builder.Coding.Fixed.Portable.{encode_fixed64_le}
use terp_builder.DbFormat.{internal_compare, internal_separator, internal_successor, shorten}
use terp_builder.DbFormat.{
  shortened, is_below, is_lt, successor_from, separator_from, extract_user_key,
}
use terp_builder.DbFormat.Keys.{keyed, as_keyed, extract_user_key-keyed, pack_sum}
use terp_builder.DbFormat.Order.{IsInternal, internal_compare-keyed, both, descending}
use terp_builder.DbFormat.Order.{both-lt, below-keyed}

-- The number that is tacked on to a shortened user key.
abbrev earliest : ℕ
earliest = 2 ^ 64 - 255

is_lt-eq : (o : Ordering) → is_lt o ≡ true → o ≡ Ordering.lt
is_lt-eq Ordering.lt h = refl
is_lt-eq Ordering.eq h = cc
is_lt-eq Ordering.gt h = cc

module _ (little : Bool) (user : Comparator) where
  shortened-keyed : (tmp : Slice) → shortened little user tmp ≡ keyed tmp earliest
  unfolding keyed put_fixed64
  shortened-keyed tmp =
      ap (λ l. tmp ++ l)
        (encode_fixed64_le little _ ∙ ap (le_bytes 8) (pack_sum (2 ^ 56 - 1) _ (omega arith)))

  -- A shortened user key was seen to be above the user part.
  shorten_cases :
      (whole user_part tmp : Slice)
      → (shorten little user whole user_part tmp ≡ whole)
        ⊎ ((shorten little user whole user_part tmp ≡ keyed tmp earliest)
            × (user.compare user_part tmp ≡ Ordering.lt))
  shorten_cases whole user_part tmp = elim (Bool-cases (ltb (length tmp) (length user_part))) [
    | inr e ↦ inl (rw e)
    | inl e ↦ elim (Bool-cases (is_below user user_part tmp)) [
      | inr e' ↦ inl (rw (e, e'))
      | inl e' ↦ inr (rw (e, e') (shortened-keyed tmp), is_lt-eq (user.compare user_part tmp) e')
    ]
  ]

  lt-keyed :
      (u v : Slice) (n m : ℕ)
      → n < 2 ^ 64
      → m < 2 ^ 64
      → user.compare u v ≡ Ordering.lt
      → internal_compare little user (keyed u n) (keyed v m) ≡ some Ordering.lt
  lt-keyed u v n m hn hm h =
      internal_compare-keyed little user u v n m hn hm ∙ ap (λ o. some (both o (descending n m))) h

  module _ (law : IsLawful user) where
    same-keyed :
        (u : Slice) (n : ℕ)
        → n < 2 ^ 64
        → internal_compare little user (keyed u n) (keyed u n) ≡ some Ordering.eq
    same-keyed u n hn =
        internal_compare-keyed little user u u n n hn hn
        ∙ ap (λ o. some (both o (descending n n))) (law.same u)
        ∙ ap some (ground arith)

    -- For a user comparator as comparator.h describes it, InternalKeyComparator::FindShortSuccessor
    -- on an internal key gives the key itself or a string above it in the internal order.
    pub internal_successor_above :
        (key : Slice)
        → IsInternal key
        → (r : Slice) × (internal_successor little user key ≡ some r)
          × ((r ≡ key) ⊎ (internal_compare little user key r ≡ some Ordering.lt))
    unfolding internal_successor
    internal_successor_above key h =
        let (u, n, e, hn, _) = as_keyed key h.bytes h.long in
        (
          shorten little user key u (user.find_short_successor u),
          ap (successor_from little user key) (ap extract_user_key e ∙ extract_user_key-keyed u n),
          elim (shorten_cases key u (user.find_short_successor u)) [
            | inl same ↦ inl same
            | inr (new, up) ↦ inr (
                ap₂ (internal_compare little user) e new
                ∙ lt-keyed u _ n earliest hn (omega arith) up)
          ],
        )

    -- A separator that is above the first user key is below the second.
    separated_lt :
        ((a : Slice) → user.find_shortest_separator a a ≡ a)
        → (u v : Slice) {r : Ordering} → IsBytes u
        → (user.compare u v ≡ Ordering.lt) ⊎ ((user.compare u v ≡ Ordering.eq) × (r ≡ Ordering.lt))
        → user.compare u (user.find_shortest_separator u v) ≡ Ordering.lt
        → user.compare (user.find_shortest_separator u v) v ≡ Ordering.lt
    separated_lt kept u v bytes (inl a) up = (law.separated u v bytes a).1
    separated_lt kept u v bytes (inr (b, _)) up = cc (
      law.same u,
      ap (λ w. user.compare u w) (kept u),
      ap (user.compare u) (ap (user.find_shortest_separator u) (law.eq_same u v b)),
    )

    -- InternalKeyComparator::FindShortestSeparator on internal keys start < limit: the result is
    -- start itself or is above it, and it is below limit, as the two assertions say. The user
    -- comparator is as comparator.h describes it and, which comparator.h does not ask for, leaves
    -- start as it is where the two user keys are equal.
    pub internal_separator_between :
        ((a : Slice) → user.find_shortest_separator a a ≡ a)
        → (start limit : Slice) → IsInternal start
        → IsInternal limit
        → internal_compare little user start limit ≡ some Ordering.lt
        → (r : Slice) × (internal_separator little user start limit ≡ some r)
          × ((r ≡ start) ⊎ (internal_compare little user start r ≡ some Ordering.lt))
          × (internal_compare little user r limit ≡ some Ordering.lt)
    unfolding internal_separator
    internal_separator_between kept start limit hs hl below =
        let (u, n, e, hn, bytes) = as_keyed start hs.bytes hs.long in
        let (v, m, e', hm, _) = as_keyed limit hl.bytes hl.long in
        let tmp = user.find_shortest_separator u v in
        let order = below-keyed little user start limit u v n m e e' hn hm below in
        (
          shorten little user start u tmp,
          ap₂ (separator_from little user start)
              (ap extract_user_key e ∙ extract_user_key-keyed u n)
              (ap extract_user_key e' ∙ extract_user_key-keyed v m),
          elim (shorten_cases start u tmp) [
            | inl same ↦ inl same
            | inr (new, up) ↦ inr (
                ap₂ (internal_compare little user) e new
                ∙ lt-keyed u tmp n earliest hn (omega arith) up)
          ],
          elim (shorten_cases start u tmp) [
            | inl same ↦ ap (λ r. internal_compare little user r limit) same ∙ below
            | inr (new, up) ↦
                ap₂ (internal_compare little user) new e'
                ∙ lt-keyed tmp v earliest m (omega arith) hm (
                    separated_lt kept u v bytes (both-lt (user.compare u v) (descending n m) order)
                      up)
          ],
        )
