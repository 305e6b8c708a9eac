-- ===== src/DbFormat/Filter.antt =====
-- InternalFilterPolicy of db/dbformat.h and dbformat.cc: the user's filter policy on internal keys.
-- The assertion of ExtractUserKey is `none`.
use terp_builder.Base.{ℕ, ◌≤◌, ◌<◌, ◌≡◌, refl, ap, arith, Bool, true, Option, some}
use terp_builder.Base.{List, [], ◌∷◌, ◌++◌, length, take, map, ◌-◌, ◌>>=◌, All, le→leb}
use terp_builder.Slice.{Slice}
use terp_builder.DbFormat.{extract_user_key}
use terp_builder.FilterBlock.{FilterPolicy, IsPolicy}

abbrev pub user_keys : List Slice → Option (List Slice)
user_keys [] = some []
user_keys (key ∷ keys) = do u ← extract_user_key key; us ← user_keys keys; some (u ∷ us)

module _ (user_policy : FilterPolicy) where
  unfoldable pub internal_create_filter : List Slice → List ℕ → Option (List ℕ)
  internal_create_filter keys dst = do
    mkey ← user_keys keys
    some (user_policy.create_filter mkey dst)

  unfoldable pub internal_key_may_match : Slice → Slice → Option Bool
  internal_key_may_match key f = do u ← extract_user_key key; some (user_policy.key_may_match u f)

user_of : Slice → Slice
user_of key = take (length key - 8) key

extract-user_of : (key : Slice) → 8 ≤ length key → extract_user_key key ≡ some (user_of key)
unfolding extract_user_key user_of
extract-user_of key h = rw (le→leb 8 (length key) h) (refl)

abbrev IsLong : Slice → Type 0
IsLong key = 8 ≤ length key

user_keys-map : (keys : List Slice) → All IsLong keys → user_keys keys ≡ some (map user_of keys)
user_keys-map [] h = refl
user_keys-map (key ∷ keys) h = rw (extract-user_of key h.0, user_keys-map keys h.1) (refl)

length-map : (keys : List Slice) → length (map user_of keys) ≡ length keys
length-map [] = refl
length-map (key ∷ keys) = omega (arith, length-map keys)

module _ (policy : FilterPolicy) (limit : ℕ) (lawful : IsPolicy policy limit) where
  matches-map :
      (f : Slice) (keys : List Slice)
      → All IsLong keys
      → All (λ u. policy.key_may_match u f ≡ true) (map user_of keys)
      → All (λ key. internal_key_may_match policy key f ≡ some true) keys
  unfolding internal_key_may_match
  matches-map f [] h m = tt
  matches-map f (key ∷ keys) h m =
      (rw (extract-user_of key h.0) (ap some m.0), matches-map f keys h.1 m.1)

  -- On internal keys InternalFilterPolicy keeps the promises that the user's policy keeps on user
  -- keys: it appends a filter, and every key that it was given matches that.
  pub internal_create_filter-matches :
      (keys : List Slice) (dst : List ℕ)
      → All IsLong keys
      → length keys < limit
      → (f : List ℕ) × (internal_create_filter policy keys dst ≡ some (dst ++ f))
        × All (λ key. internal_key_may_match policy key f ≡ some true) keys
  unfolding internal_create_filter
  internal_create_filter-matches keys dst h few = (
    policy.create_filter (map user_of keys) [],
    rw (user_keys-map keys h) (ap some (lawful.appends (map user_of keys) dst)),
    matches-map (policy.create_filter (map user_of keys) []) keys h
        (lawful.matches (map user_of keys) (omega (arith, few, length-map keys))),
  )
