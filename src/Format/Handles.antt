-- ===== src/Format/Handles.antt =====
-- The text of a handle, written and read, and the padding of a footer.
use terp_builder.Base.{
  ℕ, zero, suc, ◌-◌, ◌^◌, ◌≤◌, ◌<◌, ◌≡◌, refl, ◌∙◌, ap, arith, Bool, false, some,
}
use terp_builder.Base.{List, [], ◌∷◌, ◌++◌, length, take, length-append, append_assoc}
use terp_builder.Base.{◌==◌, length-take}
use terp_builder.Slice.{Slice}
use terp_builder.Status.{ok}
use terp_builder.Coding.Fixed.{encode_fixed32}
use terp_builder.Coding.Fixed.Portable.{encode_fixed32_le}
use terp_builder.Coding.Varint.{put_varint64, get_varint64, encode_varint64}
use terp_builder.Coding.Varint.RoundTrip.{get_varint64-put_varint64}
use terp_builder.Coding.Varint.Encode.{encode_varint64-groups, length-groups}
use terp_builder.Format.{BlockHandle, unset, encode_handle, decode_handle}
use terp_builder.Format.{zeros, resize, read_offset, read_size}

-- Both fields are set.
pub record IsAssigned (h : BlockHandle) : Type 0 where
  pub offset_set : h.offset < unset
  pub size_set : h.size < unset

abbrev pub handle_text : BlockHandle → List ℕ
handle_text h = encode_varint64 h.offset ++ encode_varint64 h.size

pub encode_handle-text :
    (h : BlockHandle) (dst : List ℕ)
    → IsAssigned h
    → encode_handle h dst ≡ some (dst ++ handle_text h)
unfolding encode_handle put_varint64
encode_handle-text h dst v =
    rw (differs h.offset v.offset_set, differs h.size v.size_set)
      (ap some (append_assoc dst (encode_varint64 h.offset) (encode_varint64 h.size)))
  where
    differs : (n : ℕ) → n < unset → (n == unset) ≡ false
    differs n p = ground arith

pub decode_handle-text :
    (h h' : BlockHandle) (rest : Slice)
    → IsAssigned h
    → decode_handle h' (handle_text h ++ rest) ≡ (h, ok, rest)
unfolding decode_handle get_varint64 put_varint64
decode_handle-text h h' rest v =
    ap (λ l. read_offset h' (get_varint64 l))
      (append_assoc (encode_varint64 h.offset) (encode_varint64 h.size) rest)
    ∙ ap (read_offset h') (
        get_varint64-put_varint64 h.offset (encode_varint64 h.size ++ rest)
          (omega (arith, v.offset_set)))
    ∙ ap (read_size (record h' { offset = h.offset }))
        (get_varint64-put_varint64 h.size rest (omega (arith, v.size_set)))

length-varint64 : (n : ℕ) → n < 2 ^ 64 → length (encode_varint64 n) ≤ 10
length-varint64 n p = omega (arith, ap length (encode_varint64-groups n p), (length-groups 9 n).1)

pub length-handle : (h : BlockHandle) → IsAssigned h → length (handle_text h) ≤ 20
length-handle h v = omega (
  arith,
  length-append (encode_varint64 h.offset) (encode_varint64 h.size),
  length-varint64 h.offset (omega (arith, v.offset_set)),
  length-varint64 h.size (omega (arith, v.size_set)),
)

length-zeros : (n : ℕ) → length (zeros n) ≡ n
length-zeros zero = refl
length-zeros (suc n) = omega (arith, length-zeros n)

pub length-resize : (n : ℕ) (dst : List ℕ) → length (resize n dst) ≡ n
length-resize n dst = omega (
  arith,
  length-append (take n dst) (zeros (n - length dst)),
  length-take n dst,
  length-zeros (n - length dst),
)

-- resize with nothing to cut.
pub resize-short :
    (n : ℕ) (dst : List ℕ) → length dst ≤ n → resize n dst ≡ dst ++ zeros (n - length dst)
resize-short zero [] h = refl
resize-short (suc n) [] h = refl
resize-short zero (x ∷ xs) h = absurd (omega arith)
resize-short (suc n) (x ∷ xs) h =
    let e : suc n - suc (length xs) ≡ n - length xs = omega arith in
    rw e (ap (λ l. x ∷ l) (resize-short n xs (omega arith)))

pub length-fixed32 : (little : Bool) (v : ℕ) → length (encode_fixed32 little v) ≡ 4
length-fixed32 little v = rw (encode_fixed32_le) (refl)
