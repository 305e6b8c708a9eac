-- ===== src/FilterBlock/Calls.antt =====
-- Sequences of calls of the builder, and the group that a key is in.
use mathlib.Core.Option.{map, none-ne-some}
use terp_builder.Base.{
  ℕ, zero, suc, ◌+◌, ◌-◌, ◌/◌, ◌≤◌, ◌≡◌, refl, sym, ap, ◌∙◌, arith, Option, none, some,
}
use terp_builder.Base.{List, [], ◌∷◌, ◌++◌, length, get_or, length-append, append_assoc, some_inj}
use terp_builder.Base.{Bool-cases, inl, inr, ltb, ◌>>=◌}
use terp_builder.Slice.{Slice}
use terp_builder.FilterBlock.{
  FilterPolicy, IsPolicy, FilterBlockBuilder, add_key, start_block, filter_base,
}
use terp_builder.FilterBlock.Builder.{state_of, moved, started, add_key-state, start_block-state}

-- A call of StartBlock or AddKey.
pub data Call : Type 0 where
  block : ℕ → Call
  key_added : Slice → Call

-- The groups of keys, and the keys that wait.
abbrev pub Groups : Type 0
Groups = List (List Slice) × List Slice

-- The same calls on groups.
unfoldable pub grouped : List Call → Groups → Option Groups
grouped [] g = some g
grouped (block block_offset ∷ calls) g = started block_offset g >>= grouped calls
grouped (key_added key ∷ calls) (gs, waiting) = grouped calls (gs, waiting ++ (key ∷ []))

module _ (policy : FilterPolicy) where
  unfoldable pub build : List Call → FilterBlockBuilder → Option FilterBlockBuilder
  build [] b = some b
  build (block block_offset ∷ calls) b = start_block policy block_offset b >>= build calls
  build (key_added key ∷ calls) b = build calls (add_key key b)

  module _ (limit : ℕ) (lawful : IsPolicy policy limit) where
    -- The calls of a builder are those of groups of keys: each AddKey adds to the keys that wait, and
    -- StartBlock closes the group of the keys that wait and empty groups behind it, up to the one of
    -- the block's offset, or fails where that is behind.
    pub build-grouped :
        (calls : List Call) (g : Groups)
        → build calls (state_of policy g) ≡ map (state_of policy) (grouped calls g)
    unfolding build grouped
    build-grouped [] (gs, waiting) = refl
    build-grouped (block block_offset ∷ calls) (gs, waiting) =
        ap (λ o. o >>= build calls) (start_block-state policy limit lawful block_offset gs waiting)
        ∙ after (started block_offset (gs, waiting)) (build-grouped calls)
      where
        after :
            (o : Option Groups)
            → ((g : Groups)
                → build calls (state_of policy g) ≡ map (state_of policy) (grouped calls g))
            → (map (state_of policy) o >>= build calls)
              ≡ map (state_of policy) (o >>= grouped calls)
        after none ih = refl
        after (some g) ih = ih g
    build-grouped (key_added key ∷ calls) (gs, waiting) =
        ap (build calls) (add_key-state policy key gs waiting)
        ∙ build-grouped calls (gs, waiting ++ (key ∷ []))

-- The key stands in the list.
pub record Has (key : Slice) (ks : List Slice) : Type 0 where
  pub before : List Slice
  pub behind : List Slice
  pub split : ks ≡ before ++ (key ∷ behind)

-- The key is in group i, the keys that wait being the last.
abbrev pub IsIn : ℕ → Slice → Groups → Type 0
IsIn i key (gs, waiting) = Has key (get_or (gs ++ (waiting ∷ [])) i [])

Has-append : {key : Slice} {ks : List Slice} (more : List Slice) → Has key ks → Has key (ks ++ more)
Has-append {key} more h = record {
  before = h.before;
  behind = h.behind ++ more;
  split = ap (λ l. l ++ more) h.split ∙ append_assoc h.before (key ∷ h.behind) more;
}

pub Has-none : {A : Type 0} (key : Slice) → Has key [] → A
Has-none key h = absurd (no h.before h.behind h.split)
  where
    no : (before behind : List Slice) → [] ≡ before ++ (key ∷ behind) → ⊥
    no [] behind e = cc
    no (x ∷ before) behind e = cc

pub IsIn-closed :
    (i : ℕ) (key : Slice) (gs : List (List Slice)) (more : List (List Slice))
    → Has key (get_or gs i [])
    → Has key (get_or (gs ++ more) i [])
IsIn-closed i key [] more h = Has-none key h
IsIn-closed zero key (g ∷ gs) more h = h
IsIn-closed (suc i) key (g ∷ gs) more h = IsIn-closed i key gs more h

IsIn-waiting :
    (i : ℕ) (key : Slice) (gs : List (List Slice)) (waiting more : List Slice)
    → Has key (get_or (gs ++ (waiting ∷ [])) i [])
    → Has key (get_or (gs ++ ((waiting ++ more) ∷ [])) i [])
IsIn-waiting zero key [] waiting more h = Has-append more h
IsIn-waiting (suc i) key [] waiting more h = Has-none key h
IsIn-waiting zero key (g ∷ gs) waiting more h = h
IsIn-waiting (suc i) key (g ∷ gs) waiting more h = IsIn-waiting i key gs waiting more h

moved-IsIn :
    (n i : ℕ) (key : Slice) (gs : List (List Slice)) (waiting : List Slice)
    → IsIn i key (gs, waiting)
    → IsIn i key (moved n gs waiting)
moved-IsIn zero i key gs waiting h = h
moved-IsIn (suc n) i key gs waiting h =
    moved-IsIn n i key (gs ++ (waiting ∷ [])) []
      (IsIn-closed i key (gs ++ (waiting ∷ [])) ([] ∷ []) h)

pub length-moved :
    (n : ℕ) (gs : List (List Slice)) (waiting : List Slice)
    → length ((moved n gs waiting).0) ≡ length gs + n
length-moved zero gs waiting = omega arith
length-moved (suc n) gs waiting =
    length-moved n (gs ++ (waiting ∷ [])) [] ∙ omega (arith, length-append gs (waiting ∷ []))

-- A call of StartBlock that does not fail.
pub started-some :
    (block_offset : ℕ) (gs : List (List Slice)) (waiting : List Slice) (g : Groups)
    → started block_offset (gs, waiting) ≡ some g
    → (moved (block_offset / filter_base - length gs) gs waiting ≡ g)
      × (length gs ≤ block_offset / filter_base)
started-some block_offset gs waiting g e =
    elim (Bool-cases (ltb (block_offset / filter_base) (length gs))) [
      | inl behind ↦ absurd (none-ne-some g (rw behind at e))
      | inr on ↦ (some_inj (rw on at e), ground (arith, on))
    ]

-- Where a call leads, the rest leads on from there.
pub block-some :
    (block_offset : ℕ) (calls : List Call) (g g' : Groups)
    → grouped (block block_offset ∷ calls) g ≡ some g'
    → (m : Groups) × (started block_offset g ≡ some m) × (grouped calls m ≡ some g')
unfolding grouped
block-some block_offset calls g g' e = go (started block_offset g) refl e
  where
    go :
        (o : Option Groups)
        → started block_offset g ≡ o
        → (o >>= grouped calls) ≡ some g'
        → (m : Groups) × (started block_offset g ≡ some m) × (grouped calls m ≡ some g')
    go none c e = absurd (none-ne-some g' e)
    go (some m) c e = (m, c, e)

pub grouped-IsIn :
    (calls : List Call) (g g' : Groups) (i : ℕ) (key : Slice)
    → grouped calls g ≡ some g'
    → IsIn i key g
    → IsIn i key g'
unfolding grouped
grouped-IsIn [] g g' i key e h = rw (sym (some_inj e)) h
grouped-IsIn (block block_offset ∷ calls) (gs, waiting) g' i key e h =
    let s = block-some block_offset calls (gs, waiting) g' e in
    let to = (started-some block_offset gs waiting s.0 s.1).0 in
    grouped-IsIn calls s.0 g' i key s.2
      (rw (sym to) (moved-IsIn (block_offset / filter_base - length gs) i key gs waiting h))
grouped-IsIn (key_added k ∷ calls) (gs, waiting) g' i key e h =
    grouped-IsIn calls (gs, waiting ++ (k ∷ [])) g' i key e
      (IsIn-waiting i key gs waiting (k ∷ []) h)
