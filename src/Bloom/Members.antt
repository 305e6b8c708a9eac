-- ===== src/Bloom/Members.antt =====
-- The keys of a filter, asked of it.
use native.Mathlib.Nat.{mod-lt}
use terp_builder.Base.{
  ℕ, zero, suc, ◌+◌, ◌-◌, ◌*◌, ◌/◌, ◌%◌, ◌^◌, ◌<◌, ◌≤◌, ◌≡◌, refl, ◌∙◌, arith, Bool, true, false,
}
use terp_builder.Base.{
  List, [], ◌∷◌, ◌++◌, length, drop, get_or, le→ltb, length-append, drop-append, ltb, All,
}
use terp_builder.Slice.{Slice}
use terp_builder.Bloom.{bloom_filter_policy, delta_of, set_probes, zero_bytes}
use terp_builder.Bloom.{bloom_hash, add_keys, bytes_for, create_filter, key_may_match}
use terp_builder.Bloom.Bits.{IsOn, IsGrown, IsGrown-refl, IsGrown-trans, AreOn, AreOn-IsGrown}
use terp_builder.Bloom.Bits.{set_probes-IsGrown, set_probes-AreOn, test_probes-AreOn}

-- Past the array stands the number of probes.
get_or-front : (xs ys : List ℕ) (i : ℕ) → i < length xs → get_or (xs ++ ys) i 0 ≡ get_or xs i 0
get_or-front [] ys i h = absurd (omega arith)
get_or-front (x ∷ xs) ys zero h = refl
get_or-front (x ∷ xs) ys (suc i) h = get_or-front xs ys i (omega arith)

get_or-last : (xs : List ℕ) (k : ℕ) → get_or (xs ++ (k ∷ [])) (length xs) 0 ≡ k
get_or-last [] k = refl
get_or-last (x ∷ xs) k = get_or-last xs k

length-zero_bytes : (n : ℕ) → length (zero_bytes n) ≡ n
length-zero_bytes zero = refl
length-zero_bytes (suc n) = omega (arith, length-zero_bytes n)

-- Bits that are on are on with more behind them.
IsOn-front : (q : ℕ) (xs ys : List ℕ) → q < length xs * 8 → IsOn q xs → IsOn q (xs ++ ys)
IsOn-front q xs ys h on = rw (get_or-front xs ys (q / 8) (omega arith)) on

AreOn-front :
    (k bits delta h : ℕ) (xs ys : List ℕ)
    → 0 < bits
    → bits ≤ length xs * 8
    → AreOn k bits delta h xs
    → AreOn k bits delta h (xs ++ ys)
AreOn-front zero bits delta h xs ys p e on = tt
AreOn-front (suc k) bits delta h xs ys p e on = (
  IsOn-front (h % bits) xs ys (omega (arith, mod-lt h p)) on.0,
  AreOn-front k bits delta ((h + delta) % 2 ^ 32) xs ys p e on.1,
)

policy-probes : (b : ℕ) → (bloom_filter_policy b).k ≤ 30
unfolding bloom_filter_policy
policy-probes b = ground arith

module _ (little : Bool) where
  add_keys-IsGrown :
      (k bits : ℕ) (keys : List Slice) (array : List ℕ)
      → IsGrown array (add_keys little k bits keys array)
  unfolding add_keys
  add_keys-IsGrown k bits [] array = IsGrown-refl array
  add_keys-IsGrown k bits (key ∷ keys) array =
      let h = bloom_hash little key in
      IsGrown-trans (set_probes-IsGrown k bits (delta_of h) h array)
        (add_keys-IsGrown k bits keys (set_probes k bits (delta_of h) h array))

  abbrev IsIn : ℕ → ℕ → List ℕ → Slice → Type 0
  IsIn k bits array key = let h = bloom_hash little key in AreOn k bits (delta_of h) h array

  add_keys-IsIn :
      (k bits : ℕ) (keys : List Slice) (array : List ℕ)
      → 0 < bits
      → bits ≤ length array * 8
      → All (IsIn k bits (add_keys little k bits keys array)) keys
  unfolding add_keys
  add_keys-IsIn k bits [] array p e = tt
  add_keys-IsIn k bits (key ∷ keys) array p e =
      let h = bloom_hash little key in
      let next = set_probes k bits (delta_of h) h array in
      let grown = set_probes-IsGrown k bits (delta_of h) h array in
      (
        AreOn-IsGrown k bits (delta_of h) h (add_keys-IsGrown k bits keys next)
            (set_probes-AreOn k bits (delta_of h) h array p e),
        add_keys-IsIn k bits keys next p (omega (arith, grown.same_length)),
      )

  -- A key whose bits are on in the array matches the array followed by the number of probes.
  match-IsIn :
      (k : ℕ) (array : List ℕ) (key : Slice)
      → k ≤ 30
      → 0 < length array
      → IsIn k (length array * 8) array key
      → key_may_match little key (array ++ (k ∷ [])) ≡ true
  unfolding key_may_match
  match-IsIn k array key small some_bytes on =
      rw (length-append array (k ∷ []), minus_one, get_or-last array k, two, le→ltb 30 k small)
        (test_probes-AreOn k (length array * 8) (delta_of h) h (array ++ (k ∷ [])) (
          AreOn-front k (length array * 8) (delta_of h) h array (k ∷ []) (omega arith) (omega arith)
            on))
    where
      h : ℕ
      h = bloom_hash little key

      minus_one : length array + 1 - 1 ≡ length array
      minus_one = omega arith

      two : ltb (length array + 1) 2 ≡ false
      two = ground arith

  match_all :
      (k : ℕ) (array : List ℕ) (keys : List Slice)
      → k ≤ 30
      → 0 < length array
      → All (IsIn k (length array * 8) array) keys
      → All (λ key. key_may_match little key (array ++ (k ∷ [])) ≡ true) keys
  match_all k array [] small p all = tt
  match_all k array (key ∷ keys) small p all =
      (match-IsIn k array key small p all.0, match_all k array keys small p all.1)

  -- A filter has no false negatives: KeyMayMatch answers true for each of the keys that
  -- CreateFilter was given, on what it appended to dst, where the number of bits that the keys ask
  -- for does not wrap around as a size_t.
  pub key_may_match-create_filter :
      (bits_per_key : ℕ) (keys : List Slice) (dst : List ℕ)
      → length keys * bits_per_key + 7 < 2 ^ 64
      → All
          (λ key.
            key_may_match little key
              (drop (length dst) (create_filter little (bloom_filter_policy bits_per_key) keys dst))
            ≡ true)
          keys
  unfolding create_filter bloom_filter_policy
  key_may_match-create_filter b keys dst h = rw (drop-append dst (array ++ (k ∷ []))) (
      match_all k array keys (policy-probes b) (omega (arith, whole, some_bytes)) (rw whole placed))
    where
      bytes : ℕ
      bytes = bytes_for little (bloom_filter_policy b) (length keys)

      k : ℕ
      k = (bloom_filter_policy b).k

      array : List ℕ
      array = add_keys little k (bytes * 8) keys (zero_bytes bytes)

      some_bytes : 0 < bytes
      some_bytes = ground arith

      whole : length array ≡ bytes
      whole =
          (add_keys-IsGrown k (bytes * 8) keys (zero_bytes bytes)).same_length
          ∙ length-zero_bytes bytes

      placed : All (IsIn k (bytes * 8) array) keys
      placed =
          add_keys-IsIn k (bytes * 8) keys (zero_bytes bytes) (omega (arith, some_bytes))
            (omega (arith, length-zero_bytes bytes))
