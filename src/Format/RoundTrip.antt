-- ===== src/Format/RoundTrip.antt =====
-- Footers are read as they were written.
use mathlib.Core.Option.{some-ne-none}
use terp_builder.Base.{
  ℕ, suc, ◌+◌, ◌-◌, ◌/◌, ◌%◌, ◌^◌, ◌≤◌, ◌≡◌, ◌≢◌, ◌↔◌, refl, sym, ◌∙◌, ap, arith, Bool, false, none,
  some,
}
use terp_builder.Base.{List, [], ◌∷◌, ◌++◌, length, drop, length-append, drop_exact, append_assoc}
use terp_builder.Base.{◌==◌, if◌then◌else◌}
use terp_builder.Slice.{Slice}
use terp_builder.Status.{ok}
use terp_builder.Coding.Fixed.{put_fixed32, encode_fixed32, decode_fixed32}
use terp_builder.Coding.Fixed.RoundTrip.{decode_fixed32-encode_fixed32}
use terp_builder.Format.{Footer, decode_handle, encode_footer, decode_footer}
use terp_builder.Format.{encoded_length, table_magic_number, zeros, resize}
use terp_builder.Format.{read_metaindex, read_index}
use terp_builder.Format.Handles.{
  IsAssigned, handle_text, encode_handle-text, decode_handle-text, length-handle, length-resize,
  resize-short, length-fixed32,
}

abbrev magic_lo : ℕ
magic_lo = table_magic_number % 2 ^ 32

abbrev magic_hi : ℕ
magic_hi = table_magic_number / 2 ^ 32

module _ (little : Bool) where
  abbrev body : Footer → List ℕ → List ℕ
  body f dst = dst ++ (handle_text f.metaindex_handle ++ handle_text f.index_handle)

  abbrev footer_text : Footer → List ℕ → List ℕ
  footer_text f dst =
      (resize 40 (body f dst) ++ encode_fixed32 little magic_lo) ++ encode_fixed32 little magic_hi

  length-footer_text : (f : Footer) (dst : List ℕ) → length (footer_text f dst) ≡ 48
  length-footer_text f dst = omega (
    arith,
    length-append (resize 40 (body f dst) ++ encode_fixed32 little magic_lo)
        (encode_fixed32 little magic_hi),
    length-append (resize 40 (body f dst)) (encode_fixed32 little magic_lo),
    length-resize 40 (body f dst),
    length-fixed32 little magic_lo,
    length-fixed32 little magic_hi,
  )

  -- Everything the function builds, before its assertion.
  encode_footer-text :
      (f : Footer) (dst : List ℕ)
      → IsAssigned f.metaindex_handle
      → IsAssigned f.index_handle
      → encode_footer little f dst
        ≡ (if 48 == length dst + 48 then some (footer_text f dst) else none)
  unfolding encode_footer put_fixed32
  encode_footer-text f dst v w =
      rw
        (
          encode_handle-text f.metaindex_handle dst v,
          encode_handle-text f.index_handle (dst ++ handle_text f.metaindex_handle) w,
          append_assoc dst (handle_text f.metaindex_handle) (handle_text f.index_handle),
          length-footer_text f dst,
        )
        (refl)

  at_head :
      (f f' : Footer) (rest input : Slice)
      → IsAssigned f.metaindex_handle
      → IsAssigned f.index_handle
      → (more : Slice)
      → input ≡ handle_text f.metaindex_handle ++ (handle_text f.index_handle ++ more)
      → drop encoded_length input ≡ rest
      → read_metaindex (drop encoded_length input) f' (decode_handle f'.metaindex_handle input)
        ≡ (f, ok, rest)
  at_head f f' rest input v w more e after =
      ap (λ i. read_metaindex (drop encoded_length input) f' (decode_handle f'.metaindex_handle i))
        e
      ∙ ap (read_metaindex (drop encoded_length input) f') (
          decode_handle-text f.metaindex_handle f'.metaindex_handle
            (handle_text f.index_handle ++ more) v)
      ∙ ap
          (read_index (drop encoded_length input)
            (record f' { metaindex_handle = f.metaindex_handle }))
          (decode_handle-text f.index_handle f'.index_handle more w)
      ∙ ap (λ l. (f, ok, l)) after

  abbrev low : List ℕ
  low = encode_fixed32 little magic_lo

  abbrev high : List ℕ
  high = encode_fixed32 little magic_hi

  -- The footer's text with something behind, in its parts.
  module _ (f : Footer) (rest : Slice) where
    abbrev handles : List ℕ
    handles = resize 40 (body f [])

    abbrev input : Slice
    input = footer_text f [] ++ rest

    input-parts : input ≡ handles ++ (low ++ (high ++ rest))
    input-parts = append_assoc (handles ++ low) high rest ∙ append_assoc handles low (high ++ rest)

    body-le : IsAssigned f.metaindex_handle → IsAssigned f.index_handle → length (body f []) ≤ 40
    body-le v w = omega (
      arith,
      length-append (handle_text f.metaindex_handle) (handle_text f.index_handle),
      length-handle f.metaindex_handle v,
      length-handle f.index_handle w,
    )

    input-handles :
        IsAssigned f.metaindex_handle
        → IsAssigned f.index_handle
        → input
          ≡ handle_text f.metaindex_handle
            ++ (handle_text f.index_handle
                ++ (zeros (40 - length (body f [])) ++ (low ++ (high ++ rest))))
    input-handles v w =
        input-parts
        ∙ ap (λ l. l ++ (low ++ (high ++ rest))) (resize-short 40 (body f []) (body-le v w))
        ∙ append_assoc (body f []) (zeros (40 - length (body f []))) (low ++ (high ++ rest))
        ∙ append_assoc (handle_text f.metaindex_handle) (handle_text f.index_handle) _

    low_word : decode_fixed32 little (drop (encoded_length - 8) input) ≡ some magic_lo
    low_word =
        ap (λ l. decode_fixed32 little (drop 40 l)) input-parts
        ∙ ap (decode_fixed32 little)
            (drop_exact 40 handles (low ++ (high ++ rest)) (length-resize 40 (body f [])))
        ∙ decode_fixed32-encode_fixed32 little magic_lo (high ++ rest) (omega arith)

    high_word : decode_fixed32 little (drop (encoded_length - 4) input) ≡ some magic_hi
    high_word =
        ap (λ l. decode_fixed32 little (drop 44 l)) (append_assoc (handles ++ low) high rest)
        ∙ ap (decode_fixed32 little) (
            drop_exact 44 (handles ++ low) (high ++ rest) (
              omega (
                arith,
                length-append handles low,
                length-resize 40 (body f []),
                length-fixed32 little magic_lo,
              )))
        ∙ decode_fixed32-encode_fixed32 little magic_hi rest (omega arith)

  -- A footer whose handles are set is written into an empty string, in 48 bytes, and DecodeFrom
  -- reads it back from them, whatever the object held before and whatever follows, leaving exactly
  -- what follows, on either kind of host.
  pub decode_footer-encode_footer :
      (f f' : Footer) (rest : Slice)
      → IsAssigned f.metaindex_handle
      → IsAssigned f.index_handle
      → (t : List ℕ) × (encode_footer little f [] ≡ some t)
        × (length t ≡ encoded_length)
        × (decode_footer little f' (t ++ rest) ≡ some (f, ok, rest))
  unfolding decode_footer
  decode_footer-encode_footer f f' rest v w = (
    footer_text f [],
    encode_footer-text f [] v w,
    length-footer_text f [],
    rw (low_word f rest, high_word f rest)
        (ap some (
          at_head f f' rest (input f rest) v w _ (input-handles f rest v w)
            (drop_exact encoded_length (footer_text f []) rest (length-footer_text f [])))),
  )

  -- Footer::EncodeTo with set handles passes its own assertion exactly where the string it appends
  -- to is empty.
  pub encode_footer_iff :
      (f : Footer) (dst : List ℕ)
      → IsAssigned f.metaindex_handle
      → IsAssigned f.index_handle
      → encode_footer little f dst ≢ none ↔ dst ≡ []
  encode_footer_iff f [] v w =
      (λ h. refl, λ h e. some-ne-none (footer_text f []) (sym (encode_footer-text f [] v w) ∙ e))
  encode_footer_iff f (x ∷ xs) v w =
      (λ h. absurd (h (encode_footer-text f (x ∷ xs) v w ∙ rw (too_long) (refl))), λ h. cc)
    where
      too_long : (48 == suc (length xs) + 48) ≡ false
      too_long = ground arith
