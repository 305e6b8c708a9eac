-- ===== src/Log/Fragment.antt =====
-- One physical record, read where it was written.
use terp_builder.Base.{
  ℕ, ◌+◌, ◌*◌, ◌/◌, ◌%◌, ◌^◌, ◌<◌, ◌≡◌, refl, sym, ap, ◌∙◌, arith, Bool, true, false, ◌&&◌,
}
use terp_builder.Base.{
  List, [], ◌∷◌, or_zero, ◌++◌, length, take, drop, get_or, bit_and, bit_or, length-append,
  take_exact, drop_exact, append_assoc,
}
use terp_builder.Base.{ltb, ◌==◌, ==_iff, le→ltb}
use terp_builder.Base.Bits.{bit_and_ones_eight, bit_or_disjoint}
use terp_builder.Slice.{Slice}
use terp_builder.Env.{SequentialFile}
use terp_builder.Coding.Fixed.{encode_fixed32, decode_fixed32, le_bytes}
use terp_builder.Coding.Fixed.Portable.{encode_fixed32_le}
use terp_builder.Coding.Fixed.RoundTrip.{decode_fixed32-encode_fixed32}
use terp_builder.Crc32c.{mask, unmask}
use terp_builder.Crc32c.Masking.{unmask-mask, mask-lt}
use terp_builder.Log.{IsChecksum}
use terp_builder.Log.Writer.{record_header, type_crc}
use terp_builder.Log.Reader.{Reader, parse_header, checked_crc, widened}

-- The type of a fragment.
abbrev pub IsFragment : ℕ → Type 0
IsFragment t = (0 < t) × (t < 5)

length_read : (l : ℕ) → l < 2 ^ 16 → bit_or (bit_and l 0xff) (l / 2 ^ 8 % 2 ^ 8 * 2 ^ 8) ≡ l
length_read l h = omega (
  arith,
  ap (λ x. bit_or x (l / 2 ^ 8 % 2 ^ 8 * 2 ^ 8)) (bit_and_ones_eight l),
  bit_or_disjoint 8 (l % 256) (l / 2 ^ 8 % 2 ^ 8),
)

and-false : (b : Bool) → (b && false) ≡ false
and-false true = refl
and-false false = refl

module _ (little : Bool) (extend : ℕ → Slice → ℕ) (cs : IsChecksum extend) where
  module _ (t : ℕ) (payload : Slice) (more : Slice) (is : IsFragment t)
      (short : length payload < 2 ^ 16) where
    abbrev stored_bytes : Slice
    stored_bytes = record_header little extend t payload ++ (payload ++ more)

    pub length-header : length (record_header little extend t payload) ≡ 7
    length-header = rw (encode_fixed32_le) (refl)

    length-stored_bytes : length stored_bytes ≡ 7 + length payload + length more
    length-stored_bytes = omega (
      arith,
      length-append (record_header little extend t payload) (payload ++ more),
      length-header,
      length-append payload more,
    )

    stored_bytes_eq :
        stored_bytes
        ≡ le_bytes 4 (mask (extend (type_crc little extend t) payload))
          ++ (bit_and (length payload) 0xff
              ∷ length payload / 2 ^ 8 % 2 ^ 8
              ∷ t
              ∷ (payload ++ more))
    stored_bytes_eq = rw (encode_fixed32_le) (refl)

    length_field :
        bit_or (get_or stored_bytes 4 0) (get_or stored_bytes 5 0 * 2 ^ 8) ≡ length payload
    length_field = rw (stored_bytes_eq) (length_read (length payload) short)

    type_field : widened (get_or stored_bytes 6 0) ≡ t
    type_field = rw (stored_bytes_eq) (ground arith)

    crc_field : checked_crc little extend stored_bytes (length payload) ≡ true
    crc_field = (==_iff _ _).1 (
        ap unmask (
          ap or_zero (
            ap (decode_fixed32 little)
              (append_assoc (encode_fixed32 little crc) _ (payload ++ more))
            ∙ decode_fixed32-encode_fixed32 little crc _ (mask-lt _)))
        ∙ (unmask-mask (extend (type_crc little extend t) payload) (cs.small _ _)).0
        ∙ cs.extends (t ∷ []) payload
        ∙ ap (extend 0) (
            sym (
              ap (λ l. take (1 + length payload) (drop 6 l)) stored_bytes_eq
              ∙ take_exact (1 + length payload) (t ∷ payload) more (omega arith))))
      where
        crc : ℕ
        crc = mask (extend (type_crc little extend t) payload)

    module _ {F : Type 0} (file_ops : SequentialFile F) (has_reporter checksum : Bool) where
      pub parse-stored_bytes :
          (r : Reader F)
          → r.buffer ≡ stored_bytes
          → parse_header little extend file_ops has_reporter checksum 0 r
            ≡ (t, payload, record r { buffer = more })
      unfolding parse_header
      parse-stored_bytes r e =
          rw (len, inside, type, nonzero, sum, unchecked, never, after)
            (ap (λ l. (t, l, record r { buffer = more })) payload_here)
        where
          len : bit_or (get_or r.buffer 4 0) (get_or r.buffer 5 0 * 2 ^ 8) ≡ length payload
          len = rw e length_field

          inside : ltb (length r.buffer) (7 + length payload) ≡ false
          inside = le→ltb _ _ (omega (arith, ap length e, length-stored_bytes))

          type : widened (get_or r.buffer 6 0) ≡ t
          type = rw e type_field

          nonzero : (t == 0) ≡ false
          nonzero = let p : 0 < t = is.0 in ground arith

          sum : checked_crc little extend r.buffer (length payload) ≡ true
          sum = rw e crc_field

          unchecked : (checksum && false) ≡ false
          unchecked = and-false checksum

          never : (x : ℕ) → ltb x 0 ≡ false
          never x = le→ltb x 0 (omega arith)

          header : List ℕ
          header = record_header little extend t payload

          after : drop (7 + length payload) r.buffer ≡ more
          after =
              ap (drop (7 + length payload)) (e ∙ sym (append_assoc header payload more))
              ∙ drop_exact (7 + length payload) (header ++ payload) more
                  (omega (arith, length-append header payload, length-header))

          payload_here : take (length payload) (drop 7 r.buffer) ≡ payload
          payload_here =
              ap (λ l. take (length payload) (drop 7 l)) e
              ∙ ap (take (length payload)) (drop_exact 7 header (payload ++ more) length-header)
              ∙ take_exact (length payload) payload more refl
