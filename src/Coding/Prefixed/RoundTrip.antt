-- ===== src/Coding/Prefixed/RoundTrip.antt =====
-- Reading back a length-prefixed slice.
use terp_builder.Base.{ℕ, ◌%◌, ◌^◌, ◌<◌, ◌≡◌, ap, ap₂, ◌∙◌, arith, some}
use terp_builder.Base.{[], ◌++◌, length, take, drop, length-append, take-append, drop-append}
use terp_builder.Base.{append_assoc, leb, le→leb, true}
use terp_builder.Slice.{Slice}
use terp_builder.Coding.Varint.{put_varint32}
use terp_builder.Coding.Varint.RoundTrip.{get_varint32-put_varint32, get_varint32_ptr-put_varint32}
use terp_builder.Coding.Prefixed.{put_length_prefixed_slice, get_length_prefixed_slice}
use terp_builder.Coding.Prefixed.{get_length_prefixed_slice_ptr, prefixed, sized}

-- The length that PutLengthPrefixedSlice writes.
pub written : Slice → ℕ
written v = length v % 2 ^ 32

module _ (v rest : Slice) where
  put-eq : put_length_prefixed_slice [] v ++ rest ≡ put_varint32 [] (written v) ++ (v ++ rest)
  unfolding put_length_prefixed_slice written
  put-eq = append_assoc (put_varint32 [] (written v)) v rest

  small : written v < 2 ^ 32
  unfolding written
  small = omega arith

  fits : leb (written v) (length (v ++ rest)) ≡ true
  unfolding written
  fits = le→leb (length v % 2 ^ 32) (length (v ++ rest)) (omega (arith, length-append v rest))

  -- Both overloads of GetLengthPrefixedSlice take as many bytes as PutLengthPrefixedSlice wrote for
  -- the length, which is the slice's length modulo 2^32.
  pub get_length_prefixed_slice-written :
      (get_length_prefixed_slice (put_length_prefixed_slice [] v ++ rest)
        ≡ (some (take (written v) (v ++ rest)), drop (written v) (v ++ rest)))
      × (get_length_prefixed_slice_ptr (put_length_prefixed_slice [] v ++ rest)
          ≡ some (take (written v) (v ++ rest), drop (written v) (v ++ rest)))
  unfolding get_length_prefixed_slice get_length_prefixed_slice_ptr
  get_length_prefixed_slice-written = (
    rw put-eq (ap sized (get_varint32-put_varint32 (written v) (v ++ rest) small) ∙ rw fits),
    rw put-eq (ap prefixed (get_varint32_ptr-put_varint32 (written v) (v ++ rest) small) ∙ rw fits),
  )

  -- Both overloads of GetLengthPrefixedSlice read back the slice that PutLengthPrefixedSlice
  -- appended and advance past it, if the slice's length fits 32 bits.
  pub get_length_prefixed_slice-put :
      length v < 2 ^ 32
      → (get_length_prefixed_slice (put_length_prefixed_slice [] v ++ rest) ≡ (some v, rest))
        × (get_length_prefixed_slice_ptr (put_length_prefixed_slice [] v ++ rest) ≡ some (v, rest))
  unfolding written
  get_length_prefixed_slice-put h =
      let (a, b) = get_length_prefixed_slice-written in
      (a ∙ ap₂ (λ x y. (some x, y)) whole left, b ∙ ap₂ (λ x y. some (x, y)) whole left)
    where
      whole : take (length v % 2 ^ 32) (v ++ rest) ≡ v
      whole = ap (λ k. take k (v ++ rest)) {y = length v} (omega arith) ∙ take-append v rest

      left : drop (length v % 2 ^ 32) (v ++ rest) ≡ rest
      left = ap (λ k. drop k (v ++ rest)) {y = length v} (omega arith) ∙ drop-append v rest
