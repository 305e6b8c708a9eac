-- ===== src/Cache/Table.antt =====
-- HandleTable as a map from keys with their hashes.
pub mod Resize
use terp_builder.Base.{
  ℕ, ◌+◌, ◌%◌, ◌^◌, ◌<◌, ◌≡◌, refl, sym, ap, ◌∙◌, arith, Bool, true, false, Option, none, some, inl,
  inr,
}
use terp_builder.Base.{[], ltb, ◌==◌, ==_iff, if◌then◌else◌, ◌>>=◌, Bool-cases}
use terp_builder.Slice.{Slice}
use terp_builder.Cache.{Handle, HandleTable, find_pointer, put, take_out, slot, bucket_at, count}
use terp_builder.Cache.{lookup, handle_table, with_bucket, added, insert, removed, remove}
use terp_builder.Cache.Buckets.{
  or_else, find_pointer-put, find_pointer-take_out, put-IsDistinct, take_out-IsDistinct, present,
  found_one, All-put, All-take_out, length-put, length-take_out,
}
use terp_builder.Cache.Buckets.Matches.{is_same_key, same_key-hash, slot-lt}
use terp_builder.Cache.Moving.Arrays.{
  IsArray, look, look-set, set-IsArray, count-set, bucket_at-set,
}
use terp_builder.Cache.Table.Resize.{IsTable, empty-IsArray, resize-lem}

-- The constructor makes a table that finds nothing.
pub handle_table_lem :
    (t : HandleTable) × (handle_table ≡ some t)
    × IsTable t
    × ((key : Slice) (hash : ℕ) → lookup key hash t ≡ none)
unfolding handle_table lookup
handle_table_lem =
    let (t, run, is, looks) =
      resize-lem (record { table_length = 0; elems = 0; buckets = [] }) (empty-IsArray 0) refl
        (omega arith) in
    (t, run, is, looks)

module _ (h : Handle) (t : HandleTable) (is : IsTable t) where
  abbrev place : ℕ
  place = slot t.table_length h.hash

  abbrev filled : HandleTable
  filled = with_bucket t place (put h (bucket_at t.buckets place))

  filled-IsArray : IsArray t.table_length filled.buckets
  filled-IsArray =
      set-IsArray t.table_length place t.buckets (put h (bucket_at t.buckets place))
        (slot-lt t.table_length h.hash is.positive) is.array
        (All-put (λ x. slot t.table_length x.hash ≡ place) h (bucket_at t.buckets place) refl
          (is.array.placed place))
        (put-IsDistinct h (bucket_at t.buckets place) (is.array.distinct place))

  filled-looks :
      (key : Slice) (hash : ℕ) → lookup key hash filled ≡ or_else key hash h (lookup key hash t)
  unfolding lookup
  filled-looks key hash =
      look-set t.table_length t.buckets h (put h (bucket_at t.buckets place)) key hash is.positive
        is.array.size (find_pointer-put key hash h (bucket_at t.buckets place))

  filled-count : count filled.buckets ≡ t.elems + present (lookup h.key h.hash t)
  unfolding lookup
  filled-count = omega (
    arith,
    is.counted,
    count-set t.buckets place (put h (bucket_at t.buckets place))
        (omega (arith, is.array.size, slot-lt t.table_length h.hash is.positive)),
    length-put h (bucket_at t.buckets place),
  )

  by_old :
      (old : Option Handle)
      → lookup h.key h.hash t ≡ old
      → t.elems < 2 ^ 31
      → (t' : HandleTable) × (added filled old ≡ some t')
        × IsTable t'
        × ((key : Slice) (hash : ℕ) → lookup key hash t' ≡ or_else key hash h (lookup key hash t))
  unfolding lookup
  by_old (some old) e few = (
    filled,
    refl,
    record {
      positive = is.positive;
      array = filled-IsArray;
      counted = omega (arith, filled-count, ap present e);
      bounded = is.bounded;
    },
    filled-looks,
  )
  by_old none e few = elim (Bool-cases (ltb t.table_length ((t.elems + 1) % 2 ^ 32))) [
    | inr roomy ↦ (
      grown,
      rw roomy refl,
      record {
        positive = is.positive;
        array = filled-IsArray;
        counted = more;
        bounded = omega arith;
      },
      filled-looks,
    )
    | inl full ↦
        let (t', run, is', looks) = resize-lem grown filled-IsArray more (omega (arith, few)) in
        (t', rw full run, is', λ key hash. looks key hash ∙ filled-looks key hash)
  ]
    where
      grown : HandleTable
      grown = record filled { elems = (t.elems + 1) % 2 ^ 32 }

      more : count filled.buckets ≡ (t.elems + 1) % 2 ^ 32
      more = omega (arith, filled-count, ap present e, few)

  -- On a well-formed table of less than 2^31 handles Insert returns what was found for the handle's
  -- key, and gives a well-formed table that finds this handle for its key and hash and for any other
  -- what was found before, also where the table has grown.
  pub insert_lem :
      t.elems < 2 ^ 31
      → (t' : HandleTable) × (insert h t ≡ some (lookup h.key h.hash t, t'))
        × IsTable t'
        × ((key : Slice) (hash : ℕ) → lookup key hash t' ≡ or_else key hash h (lookup key hash t))
  unfolding insert
  insert_lem few =
      let (t', run, is', looks) = by_old (lookup h.key h.hash t) refl few in
      (t', ap (λ o. o >>= λ x. some (lookup h.key h.hash t, x)) run, is', looks)

module _ (key : Slice) (hash : ℕ) (t : HandleTable) (is : IsTable t) where
  abbrev home : ℕ
  home = slot t.table_length hash

  abbrev without_key : HandleTable
  without_key = with_bucket t home (take_out key hash (bucket_at t.buckets home))

  without_key-IsArray : IsArray t.table_length without_key.buckets
  without_key-IsArray =
      set-IsArray t.table_length home t.buckets (take_out key hash (bucket_at t.buckets home))
        (slot-lt t.table_length hash is.positive) is.array
        (All-take_out (λ x. slot t.table_length x.hash ≡ home) key hash (bucket_at t.buckets home)
          (is.array.placed home))
        (take_out-IsDistinct key hash (bucket_at t.buckets home) (is.array.distinct home))

  without_key-count : count without_key.buckets + found_one (lookup key hash t) ≡ t.elems
  unfolding lookup
  without_key-count = omega (
    arith,
    is.counted,
    count-set t.buckets home (take_out key hash (bucket_at t.buckets home))
        (omega (arith, is.array.size, slot-lt t.table_length hash is.positive)),
    length-take_out key hash (bucket_at t.buckets home),
  )

  removed-IsTable :
      (result : Option Handle) → lookup key hash t ≡ result → IsTable (removed without_key result)
  removed-IsTable none e = record {
    positive = is.positive;
    array = without_key-IsArray;
    counted = omega (arith, without_key-count, ap found_one e);
    bounded = is.bounded;
  }
  removed-IsTable (some h) e = record {
    positive = is.positive;
    array = without_key-IsArray;
    counted = omega (arith, without_key-count, ap found_one e, is.bounded);
    bounded = omega arith;
  }

  without_key-looks :
      (key' : Slice) (hash' : ℕ)
      → lookup key' hash' without_key
        ≡ (if is_same_key key' hash' key hash then none else lookup key' hash' t)
  unfolding lookup
  without_key-looks key' hash' =
      ap (find_pointer key' hash') (
        bucket_at-set t.buckets home (slot t.table_length hash') _
          (omega (arith, is.array.size, slot-lt t.table_length hash is.positive)))
      ∙ by_slot (slot t.table_length hash' == home) refl
    where
      by_slot :
          (b : Bool)
          → (slot t.table_length hash' == home) ≡ b
          → find_pointer key' hash' (
              if b
              then take_out key hash (bucket_at t.buckets home)
              else bucket_at t.buckets (slot t.table_length hash'))
            ≡ (if is_same_key key' hash' key hash
                then none
                else look t.table_length t.buckets key' hash')
      by_slot true e =
          find_pointer-take_out key' hash' key hash (bucket_at t.buckets home)
            (is.array.distinct home)
          ∙ ap
              (λ i.
                if is_same_key key' hash' key hash
                then none
                else find_pointer key' hash' (bucket_at t.buckets i))
              (sym ((==_iff _ _).0 e))
      by_slot false e = elim (Bool-cases (is_same_key key' hash' key hash)) [
        | inl same ↦ cc (
          e,
          (==_iff (slot t.table_length hash') home).1
              (ap (slot t.table_length) (same_key-hash key' hash' key hash same)),
        )
        | inr other ↦
            ap (λ b. if b then none else look t.table_length t.buckets key' hash') (sym other)
      ]

  removed-looks :
      (result : Option Handle) (key' : Slice) (hash' : ℕ)
      → lookup key' hash' (removed without_key result) ≡ lookup key' hash' without_key
  unfolding lookup
  removed-looks none key' hash' = refl
  removed-looks (some h) key' hash' = refl

  -- On a well-formed table Remove returns what was found for the key and hash, and gives a
  -- well-formed table that finds nothing for them and for any other what was found before.
  pub remove_lem :
      ((remove key hash t).0 ≡ lookup key hash t)
      × IsTable ((remove key hash t).1)
      × ((key' : Slice) (hash' : ℕ)
          → lookup key' hash' ((remove key hash t).1)
            ≡ (if is_same_key key' hash' key hash then none else lookup key' hash' t))
  unfolding remove
  remove_lem = (
    refl,
    removed-IsTable (lookup key hash t) refl,
    λ key' hash'. removed-looks (lookup key hash t) key' hash' ∙ without_key-looks key' hash',
  )
