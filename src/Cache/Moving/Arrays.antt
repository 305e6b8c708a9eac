-- ===== src/Cache/Moving/Arrays.antt =====
-- Arrays of buckets, and one bucket that is set.
use mathlib.Core.Path.{subst}
use terp_builder.Base.{
  ℕ, zero, suc, ◌+◌, ◌<◌, ◌≡◌, ◌≢◌, refl, sym, ap, ◌∙◌, arith, Bool, true, false, Option, none,
  some, inl, inr,
}
use terp_builder.Base.{List, [], ◌∷◌, All, length, set, ◌==◌, ==_iff, if◌then◌else◌, Bool-cases}
use terp_builder.Slice.{Slice}
use terp_builder.Cache.{Handle, matches, find_pointer, slot, bucket_at, count}
use terp_builder.Cache.Buckets.{or_else, IsDistinct}
use terp_builder.Cache.Buckets.Matches.{slot-lt, matches-hash}

pub bucket_at-set :
    (buckets : List (List Handle)) (i j : ℕ) (bucket : List Handle)
    → i < length buckets
    → bucket_at (set buckets i bucket) j ≡ (if j == i then bucket else bucket_at buckets j)
bucket_at-set [] i j bucket h = absurd (omega (arith, h))
bucket_at-set (b ∷ buckets) zero zero bucket h = refl
bucket_at-set (b ∷ buckets) zero (suc j) bucket h = ground arith
bucket_at-set (b ∷ buckets) (suc i) zero bucket h = ground arith
bucket_at-set (b ∷ buckets) (suc i) (suc j) bucket h =
    bucket_at-set buckets i j bucket (omega (arith, h))
    ∙ ap (λ t. if t then bucket else bucket_at buckets j) (ground arith)

pub length-set :
    (buckets : List (List Handle)) (i : ℕ) (bucket : List Handle)
    → length (set buckets i bucket) ≡ length buckets
length-set [] i bucket = refl
length-set (b ∷ buckets) zero bucket = refl
length-set (b ∷ buckets) (suc i) bucket = omega (arith, length-set buckets i bucket)

pub count-set :
    (buckets : List (List Handle)) (i : ℕ) (bucket : List Handle)
    → i < length buckets
    → count (set buckets i bucket) + length (bucket_at buckets i) ≡ count buckets + length bucket
count-set [] i bucket h = absurd (omega (arith, h))
count-set (b ∷ buckets) zero bucket h = omega arith
count-set (b ∷ buckets) (suc i) bucket h =
    omega (arith, count-set buckets i bucket (omega (arith, h)))

-- An array of n buckets, each of different handles that belong there.
pub record IsArray (n : ℕ) (buckets : List (List Handle)) : Type 0 where
  pub size : length buckets ≡ n
  pub placed : (i : ℕ) → All (λ h. slot n h.hash ≡ i) (bucket_at buckets i)
  pub distinct : (i : ℕ) → IsDistinct (bucket_at buckets i)

abbrev pub look : ℕ → List (List Handle) → Slice → ℕ → Option Handle
look n buckets key hash = find_pointer key hash (bucket_at buckets (slot n hash))

-- A bucket in which a handle does not belong does not have it.
pub elsewhere-none :
    (n i : ℕ) (key : Slice) (hash : ℕ) (bucket : List Handle)
    → All (λ h. slot n h.hash ≡ i) bucket
    → slot n hash ≢ i
    → find_pointer key hash bucket ≡ none
elsewhere-none n i key hash [] placed apart = refl
elsewhere-none n i key hash (h ∷ bucket) placed apart = elim (Bool-cases (matches key hash h)) [
  | inl on ↦ absurd (apart (ap (slot n) (sym (matches-hash key hash h on)) ∙ placed.0))
  | inr off ↦
      ap (λ b. if b then some h else find_pointer key hash bucket) off
      ∙ elsewhere-none n i key hash bucket placed.1 apart
]

-- One bucket set: what is found is what the new bucket has in place of the old.
pub look-set :
    (n : ℕ) (buckets : List (List Handle)) (h : Handle) (bucket : List Handle) (key : Slice)
    (hash : ℕ)
    → 0 < n
    → length buckets ≡ n
    → find_pointer key hash bucket
      ≡ or_else key hash h (find_pointer key hash (bucket_at buckets (slot n h.hash)))
    → look n (set buckets (slot n h.hash) bucket) key hash
      ≡ or_else key hash h (look n buckets key hash)
look-set n buckets h bucket key hash pos size new =
    ap (find_pointer key hash) (
      bucket_at-set buckets (slot n h.hash) (slot n hash) bucket
        (omega (arith, size, slot-lt n h.hash pos)))
    ∙ by_slot (slot n hash == slot n h.hash) refl
  where
    by_slot :
        (b : Bool)
        → (slot n hash == slot n h.hash) ≡ b
        → find_pointer key hash (if b then bucket else bucket_at buckets (slot n hash))
          ≡ or_else key hash h (look n buckets key hash)
    by_slot true e =
        new
        ∙ ap (λ i. or_else key hash h (find_pointer key hash (bucket_at buckets i)))
            (sym ((==_iff _ _).0 e))
    by_slot false e = elim (Bool-cases (matches key hash h)) [
      | inl on ↦ cc (
        e,
        (==_iff (slot n hash) (slot n h.hash)).1 (ap (slot n) (sym (matches-hash key hash h on))),
      )
      | inr off ↦ ap (λ b. if b then some h else look n buckets key hash) (sym off)
    ]

pub set-IsArray :
    (n i : ℕ) (buckets : List (List Handle)) (bucket : List Handle)
    → i < n
    → IsArray n buckets
    → All (λ h. slot n h.hash ≡ i) bucket
    → IsDistinct bucket
    → IsArray n (set buckets i bucket)
set-IsArray n i buckets bucket inside array placed distinct = record {
  size = length-set buckets i bucket ∙ array.size;
  placed = λ j.
      subst (λ b. All (λ h. slot n h.hash ≡ j) b) (sym (here j))
        (by_place (λ j b. All (λ h. slot n h.hash ≡ j) b) placed array.placed j);
  distinct = λ j.
      subst IsDistinct (sym (here j)) (by_place (λ j b. IsDistinct b) distinct array.distinct j);
}
  where
    here :
        (j : ℕ)
        → bucket_at (set buckets i bucket) j ≡ (if j == i then bucket else bucket_at buckets j)
    here j = bucket_at-set buckets i j bucket (omega (arith, array.size, inside))

    by_place :
        (P : ℕ → List Handle → Type 0)
        → P i bucket
        → ((j : ℕ) → P j (bucket_at buckets j))
        → (j : ℕ) → P j (if j == i then bucket else bucket_at buckets j)
    by_place P p q j = elim (Bool-cases (j == i)) [
      | inl e ↦
          subst (λ b. P j (if b then bucket else bucket_at buckets j)) (sym e)
            (subst (λ x. P x bucket) (sym ((==_iff j i).0 e)) p)
      | inr e ↦ subst (λ b. P j (if b then bucket else bucket_at buckets j)) (sym e) (q j)
    ]
