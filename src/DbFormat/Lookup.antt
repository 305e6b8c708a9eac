-- ===== src/DbFormat/Lookup.antt =====
-- LookupKey: its three views, and where it stands among the entries of its user key.
use Prim.Native.Nat.{Ordering}
use terp_builder.Base.{◌↔◌, ℕ, ◌+◌, ◌-◌, ◌*◌, ◌%◌, ◌^◌, ◌≤◌, ◌<◌, ◌≡◌, ◌↔◌, refl, sym, ap, ap₂, ◌∙◌}
use terp_builder.Base.{arith, Bool, some, List, [], ◌++◌, length, take, drop}
use terp_builder.Base.{length-append, drop-append}
use terp_builder.Slice.{Slice}
use terp_builder.Comparator.{Comparator, IsLawful}
use terp_builder.Coding.Fixed.{put_fixed64}
use terp_builder.Coding.Varint.{encode_varint32, put_varint32}
use terp_builder.Coding.Prefixed.{put_length_prefixed_slice}
use terp_builder.DbFormat.{
  ParsedInternalKey, ValueType, type_code, deletion, value, value_type_for_seek,
}
use terp_builder.DbFormat.{max_sequence_number, append_internal_key, internal_compare}
use terp_builder.DbFormat.{lookup_key, memtable_key, internal_key, user_key}
use terp_builder.DbFormat.Keys.{keyed, append_internal_key-keyed, front, length-keyed}
use terp_builder.DbFormat.Order.{internal_compare-append, descending, both}

abbrev pub sought : Slice → ℕ → ParsedInternalKey
sought u s = record { user_key = u; sequence = s; type = value_type_for_seek }

beyond :
    (s s' : ℕ) (t : ValueType)
    → some (both (descending s s') (descending 1 (type_code t))) ≡ some Ordering.gt
    → s < s'
beyond s s' deletion h = ground arith
beyond s s' value h = ground arith

above : (s s' : ℕ) (r : Ordering) → s < s' → both (descending s s') r ≡ Ordering.gt
above s s' r h = ground arith

module _ (little : Bool) (u : Slice) (s : ℕ) (fits : s ≤ max_sequence_number) where
  entry : Slice
  entry = append_internal_key little [] (sought u s)

  prefix : List ℕ
  prefix = encode_varint32 ((length u + 8) % 2 ^ 32)

  lookup_key-eq : lookup_key little u s ≡ record { space = prefix ++ entry; kstart = length prefix }
  unfolding lookup_key append_internal_key put_fixed64 entry prefix
  lookup_key-eq = refl

  entry-keyed : entry ≡ keyed u (s * 256 + 1)
  unfolding entry
  entry-keyed = append_internal_key-keyed little (sought u s) (omega arith)

  length-entry : length entry ≡ length u + 8
  length-entry = ap length entry-keyed ∙ length-keyed u (s * 256 + 1)

  user_part :
      take (length (prefix ++ entry) - length prefix - 8) (drop (length prefix) (prefix ++ entry))
      ≡ u
  user_part =
      ap₂ take {y = length (keyed u (s * 256 + 1)) - 8}
        (omega (arith, length-append prefix entry, length-entry, length-keyed u (s * 256 + 1)))
        (drop-append prefix entry ∙ entry-keyed)
      ∙ front u (s * 256 + 1)

  written_length :
      length u + 8 < 2 ^ 32
      → encode_varint32 ((length u + 8) % 2 ^ 32) ≡ encode_varint32 (length entry % 2 ^ 32)
  written_length small = ap encode_varint32 (omega (arith, length-entry))

  -- The views of LookupKey(user_key, s): internal_key() is what AppendInternalKey writes for the
  -- user key, s and kValueTypeForSeek; user_key() is the user key; memtable_key() is the internal
  -- key as PutLengthPrefixedSlice writes it, for a user key whose length plus 8 fits 32 bits.
  pub lookup_key_views :
      length u + 8 < 2 ^ 32
      → (internal_key (lookup_key little u s) ≡ append_internal_key little [] (sought u s))
        × (user_key (lookup_key little u s) ≡ u)
        × (memtable_key (lookup_key little u s)
            ≡ put_length_prefixed_slice [] (append_internal_key little [] (sought u s)))
  unfolding internal_key user_key memtable_key put_length_prefixed_slice put_varint32 entry prefix
  lookup_key_views small = (
    ap internal_key lookup_key-eq ∙ drop-append prefix entry,
    ap user_key lookup_key-eq ∙ user_part,
    ap memtable_key lookup_key-eq ∙ ap (λ l. l ++ entry) (written_length small),
  )

  -- For a user comparator as comparator.h describes it and sequence numbers up to
  -- kMaxSequenceNumber: in the internal order the key that LookupKey builds for a user key and a sequence number s
  -- stands after exactly those entries of the user key whose sequence number is above s: a seek to
  -- it passes exactly the writes later than s.
  pub lookup_key_seeks :
      (c : Comparator)
      → IsLawful c
      → (s' : ℕ) (t : ValueType) → s' ≤ max_sequence_number
      → (internal_compare little c
            (internal_key (lookup_key little u s))
            (append_internal_key little [] (record { user_key = u; sequence = s'; type = t }))
          ≡ some Ordering.gt)
        ↔ (s < s')
  unfolding internal_key entry prefix
  lookup_key_seeks c law s' t small =
      let e =
        ap
          (λ key.
            internal_compare little c key
              (append_internal_key little [] (record { user_key = u; sequence = s'; type = t })))
          (ap internal_key lookup_key-eq ∙ drop-append prefix entry)
        ∙ internal_compare-append little c (sought u s)
            (record { user_key = u; sequence = s'; type = t }) fits small
        ∙ ap (λ o. some (both o (both (descending s s') (descending 1 (type_code t)))))
            (law.same u) in
      (λ g. beyond s s' t (sym e ∙ g), λ h. e ∙ ap some (above s s' (descending 1 (type_code t)) h))
