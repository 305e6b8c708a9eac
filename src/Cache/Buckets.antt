-- ===== src/Cache/Buckets.antt =====
-- Buckets of handles: what is found in them after a change.
pub mod Matches
use mathlib.Core.Path.{subst}
use terp_builder.Base.{
  ℕ, ◌+◌, ◌-◌, ◌≡◌, ◌≢◌, refl, sym, ap, ap₂, ◌∙◌, arith, Bool, true, false, Option, none, some, inl,
  inr,
}
use terp_builder.Base.{All, List, [], ◌∷◌, length, if◌then◌else◌, Bool-cases}
use terp_builder.Slice.{Slice}
use terp_builder.Cache.{Handle, matches, find_pointer, put, take_out}
use terp_builder.Cache.Buckets.Matches.{
  matches-both, is_same_key, matches-sym, matches-same, matches-asked, not_true, same-matches,
  matches_iff,
}

-- What there is with a handle in front.
abbrev pub or_else : Slice → ℕ → Handle → Option Handle → Option Handle
or_else key hash h o = if matches key hash h then some h else o

over :
    (x y : Option Handle) (a b : Bool)
    → a ≡ b
    → (o : Option Handle) → (if a then x else o) ≡ (if a then x else (if b then y else o))
over x y true b e o = refl
over x y false true e o = cc e
over x y false false e o = refl

swap :
    (x y : Option Handle) (a b : Bool)
    → (a ≡ true → b ≢ true)
    → (o : Option Handle)
    → (if a then x else (if b then y else o)) ≡ (if b then y else (if a then x else o))
swap x y true true h o = absurd (h refl refl)
swap x y true false h o = refl
swap x y false b h o = refl

pub find_pointer-put :
    (key : Slice) (hash : ℕ) (h : Handle) (bucket : List Handle)
    → find_pointer key hash (put h bucket) ≡ or_else key hash h (find_pointer key hash bucket)
find_pointer-put key hash h [] = refl
find_pointer-put key hash h (old ∷ bucket) = elim (Bool-cases (matches h.key h.hash old)) [
  | inl same ↦
      ap (λ l. find_pointer key hash l)
        (ap (λ b. if b then h ∷ bucket else old ∷ put h bucket) same)
      ∙ over (some h) (some old) (matches key hash h) (matches key hash old)
          (matches-same key hash h old same) _
  | inr other ↦
      ap (λ l. find_pointer key hash l)
        (ap (λ b. if b then h ∷ bucket else old ∷ put h bucket) other)
      ∙ ap (λ o. or_else key hash old o) (find_pointer-put key hash h bucket)
      ∙ swap (some old) (some h) (matches key hash old) (matches key hash h)
          (λ eo eh. not_true _ (matches-both key hash h old eo eh) other) _
]

-- No handle of the bucket matches another.
abbrev pub IsDistinct : List Handle → Type 0
IsDistinct [] = Unit
IsDistinct (h ∷ bucket) = (find_pointer h.key h.hash bucket ≡ none) × IsDistinct bucket

-- A handle that matches is found as any key that it matches.
pub find_pointer-alike :
    (key : Slice) (hash : ℕ) (h : Handle) (bucket : List Handle)
    → matches key hash h ≡ true
    → find_pointer h.key h.hash bucket ≡ find_pointer key hash bucket
find_pointer-alike key hash h bucket e =
    let (eh, ek) = (matches_iff key hash h).0 e in ap₂ (λ k n. find_pointer k n bucket) (sym ek) eh

if_same : (b : Bool) (o : Option Handle) → o ≡ (if b then o else o)
if_same true o = refl
if_same false o = refl

pub find_pointer-take_out :
    (key : Slice) (hash : ℕ) (key' : Slice) (hash' : ℕ) (bucket : List Handle)
    → IsDistinct bucket
    → find_pointer key hash (take_out key' hash' bucket)
      ≡ (if is_same_key key hash key' hash' then none else find_pointer key hash bucket)
find_pointer-take_out key hash key' hash' [] distinct =
    if_same (is_same_key key hash key' hash') none
find_pointer-take_out key hash key' hash' (h ∷ bucket) distinct =
    elim (Bool-cases (matches key' hash' h)) [
      | inl here ↦
          ap (λ l. find_pointer key hash l)
            (ap (λ b. if b then bucket else h ∷ take_out key' hash' bucket) here)
          ∙ gone (is_same_key key hash key' hash') (matches key hash h)
              (λ e.
                sym (
                  find_pointer-alike key hash h bucket
                    (matches-asked key hash key' hash' h e ∙ here))
                ∙ distinct.0)
              (λ e. same-matches key hash key' hash' h e here)
      | inr elsewhere ↦
          ap (λ l. find_pointer key hash l)
            (ap (λ b. if b then bucket else h ∷ take_out key' hash' bucket) elsewhere)
          ∙ ap (λ o. or_else key hash h o)
              (find_pointer-take_out key hash key' hash' bucket distinct.1)
          ∙ swap (some h) none (matches key hash h) (is_same_key key hash key' hash')
              (λ e same. not_true _ (sym (matches-asked key hash key' hash' h same) ∙ e) elsewhere)
              _
    ]
  where
    gone :
        (same here : Bool)
        → (same ≡ true → find_pointer key hash bucket ≡ none)
        → (here ≡ true → same ≡ true)
        → find_pointer key hash bucket
          ≡ (if same then none else (if here then some h else find_pointer key hash bucket))
    gone true here h1 h2 = h1 refl
    gone false true h1 h2 = cc (h2 refl)
    gone false false h1 h2 = refl

pub put-IsDistinct :
    (h : Handle) (bucket : List Handle) → IsDistinct bucket → IsDistinct (put h bucket)
put-IsDistinct h [] distinct = (refl, tt)
put-IsDistinct h (old ∷ bucket) distinct = elim (Bool-cases (matches h.key h.hash old)) [
  | inl same ↦
      subst IsDistinct (ap (λ b. if b then h ∷ bucket else old ∷ put h bucket) (sym same))
        (sym (find_pointer-alike h.key h.hash old bucket same) ∙ distinct.0, distinct.1)
  | inr other ↦
      subst IsDistinct (ap (λ b. if b then h ∷ bucket else old ∷ put h bucket) (sym other)) (
        find_pointer-put old.key old.hash h bucket
            ∙ ap (λ b. if b then some h else find_pointer old.key old.hash bucket)
                (matches-sym h old other)
            ∙ distinct.0,
        put-IsDistinct h bucket distinct.1,
      )
]

pub take_out-IsDistinct :
    (key : Slice) (hash : ℕ) (bucket : List Handle)
    → IsDistinct bucket
    → IsDistinct (take_out key hash bucket)
take_out-IsDistinct key hash [] distinct = tt
take_out-IsDistinct key hash (h ∷ bucket) distinct = elim (Bool-cases (matches key hash h)) [
  | inl here ↦
      subst IsDistinct (ap (λ b. if b then bucket else h ∷ take_out key hash bucket) (sym here))
        distinct.1
  | inr elsewhere ↦
      subst IsDistinct
        (ap (λ b. if b then bucket else h ∷ take_out key hash bucket) (sym elsewhere))
        (
          find_pointer-take_out h.key h.hash key hash bucket distinct.1
              ∙ ap (λ o. if is_same_key h.key h.hash key hash then none else o) distinct.0
              ∙ sym (if_same (is_same_key h.key h.hash key hash) none),
          take_out-IsDistinct key hash bucket distinct.1,
        )
]

abbrev pub found_one : Option Handle → ℕ
found_one none = 0
found_one (some h) = 1

abbrev pub present : Option Handle → ℕ
present none = 1
present (some h) = 0

pub length-put :
    (h : Handle) (bucket : List Handle)
    → length (put h bucket) ≡ length bucket + present (find_pointer h.key h.hash bucket)
length-put h [] = omega arith
length-put h (old ∷ bucket) = elim (Bool-cases (matches h.key h.hash old)) [
  | inl same ↦ rw same (omega arith)
  | inr other ↦ rw other (omega (arith, length-put h bucket))
]

pub length-take_out :
    (key : Slice) (hash : ℕ) (bucket : List Handle)
    → length (take_out key hash bucket) + found_one (find_pointer key hash bucket) ≡ length bucket
length-take_out key hash [] = omega arith
length-take_out key hash (h ∷ bucket) = elim (Bool-cases (matches key hash h)) [
  | inl same ↦ rw same (omega arith)
  | inr other ↦ rw other (omega (arith, length-take_out key hash bucket))
]

pub All-put :
    (P : Handle → Type 0) (h : Handle) (bucket : List Handle)
    → P h
    → All P bucket
    → All P (put h bucket)
All-put P h [] p all = (p, tt)
All-put P h (old ∷ bucket) p all = elim (Bool-cases (matches h.key h.hash old)) [
  | inl on ↦
      subst (All P) (ap (λ b. if b then h ∷ bucket else old ∷ put h bucket) (sym on)) (p, all.1)
  | inr off ↦
      subst (All P) (ap (λ b. if b then h ∷ bucket else old ∷ put h bucket) (sym off))
        (all.0, All-put P h bucket p all.1)
]

pub All-take_out :
    (P : Handle → Type 0) (key : Slice) (hash : ℕ) (bucket : List Handle)
    → All P bucket
    → All P (take_out key hash bucket)
All-take_out P key hash [] all = tt
All-take_out P key hash (h ∷ bucket) all = elim (Bool-cases (matches key hash h)) [
  | inl on ↦
      subst (All P) (ap (λ b. if b then bucket else h ∷ take_out key hash bucket) (sym on)) all.1
  | inr off ↦
      subst (All P) (ap (λ b. if b then bucket else h ∷ take_out key hash bucket) (sym off))
        (all.0, All-take_out P key hash bucket all.1)
]
