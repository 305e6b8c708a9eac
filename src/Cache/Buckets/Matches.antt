-- ===== src/Cache/Buckets/Matches.antt =====
-- Which handles match a key and a hash.
use terp_builder.Base.{
  ℕ, zero, suc, ◌-◌, ◌/◌, ◌≤◌, ◌<◌, ◌≡◌, ◌≢◌, ◌↔◌, refl, sym, ap₂, ◌∙◌, arith, Bool, true, false,
  ◌&&◌, inl, inr,
}
use terp_builder.Base.{bit_and, ◌==◌, ==_iff, Bool-cases}
use terp_builder.Base.Bits.{bit_and_step, bit_and-zero}
use terp_builder.Slice.{Slice, equals}
use terp_builder.Slice.Lexical.{equals_iff}
use terp_builder.Cache.{Handle, matches, slot}

bit_and-le : (k a b : ℕ) → b ≤ k → bit_and a b ≤ b
bit_and-le k a zero h = omega (arith, bit_and-zero a)
bit_and-le zero a (suc b) h = absurd (omega (arith, h))
bit_and-le (suc k) a (suc b) h =
    omega (arith, bit_and_step a (suc b), bit_and-le k (a / 2) (suc b / 2) (omega (arith, h)))

pub slot-lt : (n hash : ℕ) → 0 < n → slot n hash < n
slot-lt n hash h = omega (arith, h, bit_and-le (n - 1) hash (n - 1) (omega arith))

-- A handle is what its key and hash match.
pub matches_iff :
    (key : Slice) (hash : ℕ) (h : Handle)
    → (matches key hash h ≡ true) ↔ ((h.hash ≡ hash) × (key ≡ h.key))
matches_iff key hash h = (
  λ e. ((==_iff h.hash hash).0 (and-left _ _ e), (equals_iff key h.key).0 (and-right _ _ e)),
  λ (eh, ek). ap₂ (λ a b. a && b) ((==_iff h.hash hash).1 eh) ((equals_iff key h.key).1 ek),
)
  where
    and-left : (a b : Bool) → (a && b) ≡ true → a ≡ true
    and-left true b e = refl
    and-left false b e = cc e

    and-right : (a b : Bool) → (a && b) ≡ true → b ≡ true
    and-right true b e = e
    and-right false b e = cc e

pub matches-hash : (key : Slice) (hash : ℕ) (h : Handle) → matches key hash h ≡ true → h.hash ≡ hash
matches-hash key hash h e = ((matches_iff key hash h).0 e).0

-- Handles that match the same are alike.
pub matches-same :
    (key : Slice) (hash : ℕ) (h old : Handle)
    → matches h.key h.hash old ≡ true
    → matches key hash h ≡ matches key hash old
matches-same key hash h old e =
    let (eh, ek) = (matches_iff h.key h.hash old).0 e in
    ap₂ (λ n k. (n == hash) && equals key k) (sym eh) ek

pub matches-both :
    (key : Slice) (hash : ℕ) (h old : Handle)
    → matches key hash old ≡ true
    → matches key hash h ≡ true
    → matches h.key h.hash old ≡ true
matches-both key hash h old eo eh =
    let (ho, ko) = (matches_iff key hash old).0 eo in
    let (hh, kh) = (matches_iff key hash h).0 eh in
    (matches_iff h.key h.hash old).1 (ho ∙ sym hh, sym kh ∙ ko)

pub not_true : (b : Bool) → b ≡ true → b ≢ false
not_true b h k = cc (h, k)

-- The key and the hash are those that are asked for.
abbrev pub is_same_key : Slice → ℕ → Slice → ℕ → Bool
is_same_key key hash key' hash' = (hash == hash') && equals key' key

-- A key with its hash, as a handle.
abbrev asked : Slice → ℕ → Handle
asked key hash = record { key = key; hash = hash; entry = 0 }

pub same_key-hash :
    (key : Slice) (hash : ℕ) (key' : Slice) (hash' : ℕ)
    → is_same_key key hash key' hash' ≡ true
    → hash ≡ hash'
same_key-hash key hash key' hash' e = ((matches_iff key' hash' (asked key hash)).0 e).0

pub same-matches :
    (key : Slice) (hash : ℕ) (key' : Slice) (hash' : ℕ) (h : Handle)
    → matches key hash h ≡ true
    → matches key' hash' h ≡ true
    → is_same_key key hash key' hash' ≡ true
same-matches key hash key' hash' h e e' =
    let (eh, ek) = (matches_iff key hash h).0 e in
    let (eh', ek') = (matches_iff key' hash' h).0 e' in
    (matches_iff key' hash' (asked key hash)).1 (sym eh ∙ eh', ek' ∙ sym ek)

pub matches-asked :
    (key : Slice) (hash : ℕ) (key' : Slice) (hash' : ℕ) (h : Handle)
    → is_same_key key hash key' hash' ≡ true
    → matches key hash h ≡ matches key' hash' h
matches-asked key hash key' hash' h e =
    let (eh, ek) = (matches_iff key' hash' (asked key hash)).0 e in
    ap₂ (λ n k. (h.hash == n) && equals k h.key) eh (sym ek)

pub matches-sym :
    (h old : Handle) → matches h.key h.hash old ≡ false → matches old.key old.hash h ≡ false
matches-sym h old e = elim (Bool-cases (matches old.key old.hash h)) [
  | inr off ↦ off
  | inl on ↦
      let (eh, ek) = (matches_iff old.key old.hash h).0 on in
      absurd (not_true _ ((matches_iff h.key h.hash old).1 (sym eh, sym ek)) e)
]
