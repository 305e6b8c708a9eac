-- ===== src/FilterBlock/Placed.antt =====
-- The group in which the calls put a key, and the sizes of the groups.
use terp_builder.Base.{ℕ, zero, suc, ◌+◌, ◌-◌, ◌/◌, ◌<◌, ◌≤◌, ◌≡◌, refl, sym, ap, ◌∙◌, arith, some}
use terp_builder.Base.{
  List, [], ◌∷◌, ◌++◌, length, get_or, length-append, some_inj, All, All-append, map,
}
use terp_builder.Slice.{Slice}
use terp_builder.FilterBlock.{filter_base}
use terp_builder.FilterBlock.Builder.{moved}
use terp_builder.FilterBlock.Calls.{
  Call, block, key_added, Groups, grouped, IsIn, grouped-IsIn, block-some, started-some,
  length-moved,
}

grouped-append :
    (xs ys : List Call) (g g' : Groups)
    → grouped (xs ++ ys) g ≡ some g'
    → (m : Groups) × (grouped ys m ≡ some g')
unfolding grouped
grouped-append [] ys g g' e = (g, e)
grouped-append (block block_offset ∷ xs) ys g g' e =
    let s = block-some block_offset (xs ++ ys) g g' e in grouped-append xs ys s.0 g' s.2
grouped-append (key_added key ∷ xs) ys (gs, waiting) g' e =
    grouped-append xs ys (gs, waiting ++ (key ∷ [])) g' e

get_or-end : (gs : List (List Slice)) (x : List Slice) → get_or (gs ++ (x ∷ [])) (length gs) [] ≡ x
get_or-end [] x = refl
get_or-end (g ∷ gs) x = get_or-end gs x

added-IsIn :
    (keys : List Slice) (key : Slice) (after : List Call) (gs : List (List Slice))
    (waiting : List Slice) (g' : Groups)
    → grouped (map key_added keys ++ (key_added key ∷ after)) (gs, waiting) ≡ some g'
    → IsIn (length gs) key g'
unfolding grouped
added-IsIn [] key after gs waiting g' e =
    grouped-IsIn after (gs, waiting ++ (key ∷ [])) g' (length gs) key e
      (rw (get_or-end gs (waiting ++ (key ∷ [])))
        (record { before = waiting; behind = []; split = refl }))
added-IsIn (k ∷ keys) key after gs waiting g' e =
    added-IsIn keys key after gs (waiting ++ (k ∷ [])) g' e

-- A key that is added after StartBlock, with no StartBlock between, is in the group of the block.
pub block-IsIn :
    (before : List Call) (block_offset : ℕ) (keys : List Slice) (key : Slice) (after : List Call)
    (g g' : Groups)
    → grouped (before ++ (block block_offset ∷ (map key_added keys ++ (key_added key ∷ after)))) g
      ≡ some g'
    → IsIn (block_offset / filter_base) key g'
block-IsIn before block_offset keys key after g g' e =
    let m =
      grouped-append before (block block_offset ∷ (map key_added keys ++ (key_added key ∷ after))) g
        g' e in
    let s = block-some block_offset (map key_added keys ++ (key_added key ∷ after)) m.0 g' m.1 in
    let to = started-some block_offset m.0.0 m.0.1 s.0 s.1 in
    let n = block_offset / filter_base - length m.0.0 in
    let reached : length s.0.0 ≡ block_offset / filter_base =
      ap (λ (x : Groups). length x.0) (sym to.0)
      ∙ length-moved n m.0.0 m.0.1
      ∙ omega (arith, to.1) in
    rw (sym reached) (added-IsIn keys key after s.0.0 s.0.1 g' s.2)

-- No group has as many keys as the limit, nor will have with these calls to come.
pub record IsSmall (limit : ℕ) (calls : List Call) (g : Groups) : Type 0 where
  pub closed : All (λ ks. length ks < limit) (g.0)
  pub waits : length g.1 + length calls < limit

moved-small :
    (limit n : ℕ) (gs : List (List Slice)) (waiting : List Slice)
    → All (λ ks. length ks < limit) gs
    → length waiting < limit
    → All (λ ks. length ks < limit) ((moved n gs waiting).0)
      × (length ((moved n gs waiting).1) ≤ length waiting)
moved-small limit zero gs waiting h p = (h, omega arith)
moved-small limit (suc n) gs waiting h p =
    let next =
      moved-small limit n (gs ++ (waiting ∷ [])) []
        (All-append (λ ks. length ks < limit) gs (waiting ∷ []) h (p, tt)) (omega arith) in
    (next.0, omega (arith, next.1))

pub grouped-IsSmall :
    (limit : ℕ) (calls : List Call) (g g' : Groups)
    → grouped calls g ≡ some g'
    → IsSmall limit calls g
    → IsSmall limit [] g'
unfolding grouped
grouped-IsSmall limit [] g g' e h = rw (sym (some_inj e)) h
grouped-IsSmall limit (block block_offset ∷ calls) (gs, waiting) g' e h =
    let s = block-some block_offset calls (gs, waiting) g' e in
    let to = (started-some block_offset gs waiting s.0 s.1).0 in
    let n = block_offset / filter_base - length gs in
    let small = moved-small limit n gs waiting h.closed (omega (arith, h.waits)) in
    grouped-IsSmall limit calls s.0 g' s.2
      (rw (sym to) (record { closed = small.0; waits = omega (arith, small.1, h.waits) }))
grouped-IsSmall limit (key_added k ∷ calls) (gs, waiting) g' e h =
    grouped-IsSmall limit calls (gs, waiting ++ (k ∷ [])) g' e
      (record { closed = h.closed; waits = omega (arith, h.waits, length-append waiting (k ∷ [])) })
