-- ===== src/FilterBlock/Members.antt =====
-- The keys of a filter block, asked of it.
use mathlib.Core.Option
use mathlib.Core.Path.{subst}
use mathlib.Core.Option.{none-ne-some}
use terp_builder.Base.{
  ℕ, zero, suc, ◌/◌, ◌^◌, ◌<◌, ◌≡◌, refl, sym, ap, ◌∙◌, arith, Bool, true, false, Option, none,
  some,
}
use terp_builder.Base.{
  List, [], ◌∷◌, ◌++◌, length, get_or, some_inj, All, All-append, All-middle, map, ◌==◌,
}
use terp_builder.Slice.{Slice}
use terp_builder.FilterBlock.{
  FilterPolicy, IsPolicy, FilterBlockBuilder, filter_block_builder, filter_block_reader, finish,
  finished, may_match, filter_base,
}
use terp_builder.FilterBlock.Builder.{state, state_of, filters, filter_of, generate_filter-state}
use terp_builder.FilterBlock.Calls.{
  Call, block, key_added, Groups, build, grouped, build-grouped, IsIn, Has, Has-none,
}
use terp_builder.FilterBlock.Placed.{block-IsIn, IsSmall, grouped-IsSmall}
use terp_builder.FilterBlock.Reader.{may_match-finished, length-finished}

-- A list around one of its places.
record IsAround (gs : List (List Slice)) (i : ℕ) (g : List Slice) : Type 0 where
  front : List (List Slice)
  behind : List (List Slice)
  split : gs ≡ front ++ (g ∷ behind)
  place : i ≡ length front

around : (gs : List (List Slice)) (i : ℕ) → i < length gs → IsAround gs i (get_or gs i [])
around [] i h = absurd (omega arith)
around (g ∷ gs) zero h = record { front = []; behind = gs; split = refl; place = refl }
around (g ∷ gs) (suc i) h =
    let r = around gs i (omega arith) in
    record {
      front = g ∷ r.front;
      behind = r.behind;
      split = ap (λ l. g ∷ l) r.split;
      place = omega (arith, r.place);
    }

Has-inside :
    (key : Slice) (gs : List (List Slice)) (i : ℕ) → Has key (get_or gs i []) → i < length gs
Has-inside key [] i h = Has-none key h
Has-inside key (g ∷ gs) zero h = omega arith
Has-inside key (g ∷ gs) (suc i) h = omega (arith, Has-inside key gs i h)

Has-closed :
    (key : Slice) (gs : List (List Slice)) (i : ℕ)
    → Has key (get_or (gs ++ ([] ∷ [])) i [])
    → Has key (get_or gs i [])
Has-closed key [] zero h = Has-none key h
Has-closed key [] (suc i) h = h
Has-closed key (g ∷ gs) zero h = h
Has-closed key (g ∷ gs) (suc i) h = Has-closed key gs i h

-- The groups once the keys that wait have their filter.
abbrev all_groups : Groups → List (List Slice)
all_groups (gs, []) = gs
all_groups (gs, k ∷ ks) = gs ++ ((k ∷ ks) ∷ [])

all_groups-Has :
    (key : Slice) (i : ℕ) (g : Groups) → IsIn i key g → Has key (get_or (all_groups g) i [])
all_groups-Has key i (gs, []) h = Has-closed key gs i h
all_groups-Has key i (gs, k ∷ ks) h = h

all_groups-small :
    (limit : ℕ) (g : Groups) → IsSmall limit [] g → All (λ ks. length ks < limit) (all_groups g)
all_groups-small limit (gs, []) h = h.closed
all_groups-small limit (gs, k ∷ ks) h =
    All-append (λ ks. length ks < limit) gs ((k ∷ ks) ∷ []) h.closed (omega (arith, h.waits), tt)

module _ (little : Bool) (policy : FilterPolicy) (limit : ℕ) (lawful : IsPolicy policy limit) where
  finish-groups :
      (g : Groups)
      → finish little policy (state_of policy g) ≡ finished little (state policy (all_groups g) [])
  unfolding finish
  finish-groups (gs, []) = refl
  finish-groups (gs, k ∷ ks) =
      rw (some_start) (ap (finished little) (generate_filter-state policy limit lawful gs (k ∷ ks)))
    where
      some_start : (length ((state policy gs (k ∷ ks)).start) == 0) ≡ false
      some_start = ground arith

  filter_of-Has :
      (key : Slice) (g : List Slice) → Has key g → filter_of policy g ≡ policy.create_filter g []
  filter_of-Has key [] h = Has-none key h
  filter_of-Has key (k ∷ ks) h = refl

  -- The policy's promise at one key.
  matches-Has :
      (key : Slice) (g : List Slice)
      → Has key g
      → length g < limit
      → policy.key_may_match key (filter_of policy g) ≡ true
  matches-Has key g h small =
      ap (policy.key_may_match key) (filter_of-Has key g h)
      ∙ All-middle (λ k. policy.key_may_match k (policy.create_filter g []) ≡ true) h.before key
          h.behind
          (subst (All (λ k. policy.key_may_match k (policy.create_filter g []) ≡ true)) h.split
            (lawful.matches g small))

  group_matches :
      (gs : List (List Slice)) (i block_offset : ℕ) (key : Slice)
      → Has key (get_or gs i [])
      → All (λ ks. length ks < limit) gs
      → length (finished little (state policy gs [])) < 2 ^ 32
      → block_offset / filter_base ≡ i
      → may_match little policy
          (filter_block_reader little (finished little (state policy gs [])))
          block_offset
          key
        ≡ true
  group_matches gs i block_offset key h short size e =
      let r = around gs i (Has-inside key gs i h) in
      let g = get_or gs i [] in
      let small : length g < limit =
        All-middle (λ ks. length ks < limit) r.front g r.behind
          (subst (All (λ ks. length ks < limit)) r.split short) in
      ap
        (λ l.
          may_match little policy (filter_block_reader little (finished little (state policy l [])))
            block_offset key)
        r.split
      ∙ may_match-finished little policy r.front g r.behind block_offset key
          (omega (
            arith,
            size,
            length-finished little policy gs,
            ap (λ l. length (filters policy l)) r.split,
          ))
          (e ∙ r.place)
      ∙ matches-Has key g h small

  -- A filter block has no false negatives. Of a builder whose calls of StartBlock and AddKey do not
  -- fail, KeyMayMatch on the finished block answers true for a key and the offset of a StartBlock
  -- where the key was added after it and before the next, if the policy keeps its promise for as
  -- many keys as there are calls and the block is shorter than 2^32 bytes.
  pub may_match-added :
      (before : List Call) (block_offset : ℕ) (keys : List Slice) (key : Slice) (after : List Call)
      → (b : FilterBlockBuilder)
      → build policy
          (before ++ (block block_offset ∷ (map key_added keys ++ (key_added key ∷ after))))
          filter_block_builder
        ≡ some b
      → length (before ++ (block block_offset ∷ (map key_added keys ++ (key_added key ∷ after))))
        < limit
      → length (finish little policy b) < 2 ^ 32
      → may_match little policy
          (filter_block_reader little (finish little policy b))
          block_offset
          key
        ≡ true
  may_match-added before block_offset keys key after b built few size =
      let calls =
        before ++ (block block_offset ∷ (map key_added keys ++ (key_added key ∷ after))) in
      let found =
        state_some (grouped calls ([], [])) b
          (sym (build-grouped policy limit lawful calls ([], [])) ∙ built) in
      let g = found.0 in
      let whole : finish little policy b ≡ finished little (state policy (all_groups g) []) =
        ap (finish little policy) (sym found.2) ∙ finish-groups g in
      ap (λ c. may_match little policy (filter_block_reader little c) block_offset key) whole
      ∙ group_matches (all_groups g) (block_offset / filter_base) block_offset key
          (all_groups-Has key (block_offset / filter_base) g
            (block-IsIn before block_offset keys key after ([], []) g found.1))
          (all_groups-small limit g (
            grouped-IsSmall limit calls ([], []) g found.1
              (record { closed = tt; waits = omega (arith, few) })))
          (omega (arith, size, ap length whole)) refl
    where
      state_some :
          (o : Option Groups) (b : FilterBlockBuilder)
          → Option.map (state_of policy) o ≡ some b
          → (g : Groups) × (o ≡ some g) × (state_of policy g ≡ b)
      state_some none b e = absurd (none-ne-some b e)
      state_some (some g) b e = (g, refl, some_inj e)
