-- ===== src/Cache/Moving.antt =====
-- The handles that Resize moves to a new array.
pub mod Arrays
use mathlib.Core.Path.{subst}
use terp_builder.Base.{
  ℕ, zero, suc, ◌+◌, ◌≤◌, ◌<◌, ◌≡◌, ◌≢◌, refl, sym, ap, ap₂, ◌∙◌, arith, Option, none, some, inl,
  inr,
}
use terp_builder.Base.{List, [], ◌∷◌, All, length, if◌then◌else◌, Bool-cases}
use terp_builder.Slice.{Slice}
use terp_builder.Cache.{
  Handle, matches, find_pointer, slot, push, move_bucket, move_all, bucket_at, count,
}
use terp_builder.Cache.Buckets.{or_else, IsDistinct, find_pointer-alike}
use terp_builder.Cache.Buckets.Matches.{slot-lt, matches-sym}
use terp_builder.Cache.Moving.Arrays.{
  IsArray, look, count-set, elsewhere-none, set-IsArray, look-set,
}

pub or_find : Option Handle → Option Handle → Option Handle
or_find none o = o
or_find (some h) o = some h

or_find-none : (o : Option Handle) → or_find o none ≡ o
unfolding or_find
or_find-none none = refl
or_find-none (some h) = refl

module _ (n : ℕ) (pos : 0 < n) where
  push-look :
      (buckets : List (List Handle)) (h : Handle) (key : Slice) (hash : ℕ)
      → length buckets ≡ n
      → look n (push n buckets h) key hash ≡ or_else key hash h (look n buckets key hash)
  push-look buckets h key hash size =
      look-set n buckets h (h ∷ bucket_at buckets (slot n h.hash)) key hash pos size refl

  push-IsArray :
      (buckets : List (List Handle)) (h : Handle)
      → IsArray n buckets
      → look n buckets h.key h.hash ≡ none
      → IsArray n (push n buckets h)
  push-IsArray buckets h array fresh =
      set-IsArray n (slot n h.hash) buckets (h ∷ bucket_at buckets (slot n h.hash))
        (slot-lt n h.hash pos) array (refl, array.placed (slot n h.hash))
        (fresh, array.distinct (slot n h.hash))

  push-count :
      (buckets : List (List Handle)) (h : Handle)
      → length buckets ≡ n
      → count (push n buckets h) ≡ suc (count buckets)
  push-count buckets h size = omega (
    arith,
    count-set buckets (slot n h.hash) (h ∷ bucket_at buckets (slot n h.hash))
        (omega (arith, size, slot-lt n h.hash pos)),
  )

  -- What moving some handles to an array gives.
  record IsMoved (bucket : List Handle) (old new : List (List Handle)) : Type 0 where
    array : IsArray n new
    counted : count new ≡ count old + length bucket
    looks :
        (key : Slice) (hash : ℕ)
        → look n new key hash ≡ or_find (find_pointer key hash bucket) (look n old key hash)

  first_off :
      (h : Handle) (bucket : List Handle) (buckets : List (List Handle))
      → length buckets ≡ n
      → find_pointer h.key h.hash bucket ≡ none
      → All (λ x. look n buckets x.key x.hash ≡ none) bucket
      → All (λ x. look n (push n buckets h) x.key x.hash ≡ none) bucket
  first_off h [] buckets size apart fresh = tt
  first_off h (x ∷ bucket) buckets size apart fresh = elim (Bool-cases (matches h.key h.hash x)) [
    | inl on ↦ cc (on, apart)
    | inr off ↦ (
      push-look buckets h x.key x.hash size
          ∙ ap₂ (λ b o. if b then some h else o) (matches-sym h x off) fresh.0,
      first_off h bucket buckets size
          (ap (λ b. if b then some x else find_pointer h.key h.hash bucket) (sym off) ∙ apart)
          fresh.1,
    )
  ]

  move_bucket-IsMoved :
      (bucket : List Handle) (buckets : List (List Handle))
      → IsArray n buckets
      → IsDistinct bucket
      → All (λ h. look n buckets h.key h.hash ≡ none) bucket
      → IsMoved bucket buckets (move_bucket n buckets bucket)
  unfolding or_find
  move_bucket-IsMoved [] buckets array distinct fresh = record {
    array = array;
    counted = omega arith;
    looks = λ key hash. refl;
  }
  move_bucket-IsMoved (h ∷ bucket) buckets array distinct fresh =
      let rest =
        move_bucket-IsMoved bucket (push n buckets h) (push-IsArray buckets h array fresh.0)
          distinct.1 (first_off h bucket buckets array.size distinct.0 fresh.1) in
      record {
        array = rest.array;
        counted = omega (arith, rest.counted, push-count buckets h array.size);
        looks = λ key hash.
            rest.looks key hash
            ∙ ap (or_find (find_pointer key hash bucket)) (push-look buckets h key hash array.size)
            ∙ in_front key hash h bucket (look n buckets key hash) distinct.0;
      }
    where
      in_front :
          (key : Slice) (hash : ℕ) (h : Handle) (bucket : List Handle) (o : Option Handle)
          → find_pointer h.key h.hash bucket ≡ none
          → or_find (find_pointer key hash bucket) (or_else key hash h o)
            ≡ or_find (find_pointer key hash (h ∷ bucket)) o
      in_front key hash h bucket o apart = elim (Bool-cases (matches key hash h)) [
        | inl on ↦ rw (on, sym (find_pointer-alike key hash h bucket on) ∙ apart) refl
        | inr off ↦ rw off refl
      ]

  -- What moving the buckets of an array of m, from its bucket j on, gives.
  pub record AreMoved (m j : ℕ) (buckets old new : List (List Handle)) : Type 0 where
    pub array : IsArray n new
    pub counted : count new ≡ count old + count buckets
    pub looks :
        (key : Slice) (hash i : ℕ)
        → slot m hash ≡ j + i
        → look n new key hash ≡ find_pointer key hash (bucket_at buckets i)
    pub keeps :
        (key : Slice) (hash : ℕ) → slot m hash < j → look n new key hash ≡ look n old key hash

  all_off :
      (m j : ℕ) (bucket : List Handle) (old : List (List Handle))
      → All (λ h. slot m h.hash ≡ j) bucket
      → ((key : Slice) (hash : ℕ) → j ≤ slot m hash → look n old key hash ≡ none)
      → All (λ h. look n old h.key h.hash ≡ none) bucket
  all_off m j [] old placed clean = tt
  all_off m j (h ∷ bucket) old placed clean =
      (clean h.key h.hash (omega (arith, placed.0)), all_off m j bucket old placed.1 clean)

  cons-AreMoved :
      (m j : ℕ) (bucket : List Handle) (buckets old : List (List Handle))
      → IsArray n old
      → All (λ h. slot m h.hash ≡ j) bucket
      → ((key : Slice) (hash : ℕ) → j ≤ slot m hash → look n old key hash ≡ none)
      → IsMoved bucket old (move_bucket n old bucket)
      → AreMoved m
          (suc j)
          buckets
          (move_bucket n old bucket)
          (move_all n (move_bucket n old bucket) buckets)
      → AreMoved m j (bucket ∷ buckets) old (move_all n old (bucket ∷ buckets))
  unfolding or_find
  cons-AreMoved m j bucket buckets old array first clean one rest = record {
    array = rest.array;
    counted = omega (arith, rest.counted, one.counted);
    looks = looks;
    keeps = λ key hash less.
        rest.keeps key hash (omega (arith, less))
        ∙ one.looks key hash
        ∙ ap (λ o. or_find o (look n old key hash))
            (off key hash (λ e. absurd (omega (arith, e, less))));
  }
    where
      off : (key : Slice) (hash : ℕ) → slot m hash ≢ j → find_pointer key hash bucket ≡ none
      off key hash apart = elsewhere-none m j key hash bucket first apart

      looks :
          (key : Slice) (hash i : ℕ)
          → slot m hash ≡ j + i
          → look n (move_all n (move_bucket n old bucket) buckets) key hash
            ≡ find_pointer key hash (bucket_at (bucket ∷ buckets) i)
      looks key hash zero at =
          rest.keeps key hash (omega (arith, at))
          ∙ one.looks key hash
          ∙ ap (or_find (find_pointer key hash bucket)) (clean key hash (omega (arith, at)))
          ∙ or_find-none (find_pointer key hash bucket)
      looks key hash (suc i) at = rest.looks key hash i (omega (arith, at))

  pub move_all-AreMoved :
      (m j : ℕ) (buckets old : List (List Handle))
      → IsArray n old
      → ((i : ℕ) → All (λ h. slot m h.hash ≡ j + i) (bucket_at buckets i))
      → ((i : ℕ) → IsDistinct (bucket_at buckets i))
      → ((key : Slice) (hash : ℕ) → j ≤ slot m hash → look n old key hash ≡ none)
      → AreMoved m j buckets old (move_all n old buckets)
  move_all-AreMoved m j [] old array placed distinct clean = record {
    array = array;
    counted = omega arith;
    looks = λ key hash i at. clean key hash (omega (arith, at));
    keeps = λ key hash less. refl;
  }
  move_all-AreMoved m j (bucket ∷ buckets) old array placed distinct clean =
      let first =
        subst (λ k. All (λ h. slot m h.hash ≡ k) bucket) {x = j + 0} {y = j} (omega arith)
          (placed 0) in
      let one =
        move_bucket-IsMoved bucket old array (distinct 0) (all_off m j bucket old first clean) in
      cons-AreMoved m j bucket buckets old array first clean one (
        move_all-AreMoved m (suc j) buckets (move_bucket n old bucket) one.array
          (λ i.
            subst (λ k. All (λ h. slot m h.hash ≡ k) (bucket_at buckets i)) {x = j + suc i}
              {y = suc j + i} (omega arith) (placed (suc i)))
          (λ i. distinct (suc i))
          (λ key hash le.
            one.looks key hash
            ∙ ap₂ or_find
                (elsewhere-none m j key hash bucket first (λ e. absurd (omega (arith, e, le))))
                (clean key hash (omega (arith, le)))
            ∙ or_find-none none))
