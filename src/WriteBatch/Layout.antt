-- ===== src/WriteBatch/Layout.antt =====
-- A batch as its sequence number and its list of operations, and the operations that write one.
use terp_builder.Base.{ℕ, ◌+◌, ◌%◌, ◌^◌, ◌<◌, ◌≡◌, refl, sym, ◌∙◌, ap, ap₂, arith, Bool, some}
use terp_builder.Base.{
  List, [], ◌∷◌, ◌++◌, length, drop, length-append, drop_exact, take_exact, append_assoc,
  append-nil,
}
use terp_builder.Base.{le→leb}
use terp_builder.Slice.{Slice}
use terp_builder.DbFormat.{deletion, value, type_code}
use terp_builder.Coding.Fixed.{encode_fixed32, encode_fixed64, decode_fixed32}
use terp_builder.Coding.Fixed.Portable.{encode_fixed32_le, encode_fixed64_le}
use terp_builder.Coding.Fixed.RoundTrip.{decode_fixed32-encode_fixed32}
use terp_builder.Coding.Varint.{put_varint32}
use terp_builder.Coding.Prefixed.{put_length_prefixed_slice}
use terp_builder.WriteBatch.{Op, put, delete, header_size, count, set_count}
use terp_builder.WriteBatch.{put_op, delete_op, append, cleared}

-- The format in the head comment of write_batch.cc.
abbrev pub op_record : Op → Slice
op_record (put k v) = 1 ∷ (put_length_prefixed_slice [] k ++ put_length_prefixed_slice [] v)
op_record (delete k) = 0 ∷ put_length_prefixed_slice [] k

abbrev pub records : List Op → Slice
records [] = []
records (op ∷ ops) = op_record op ++ records ops

records-append : (ops more : List Op) → records (ops ++ more) ≡ records ops ++ records more
records-append [] more = refl
records-append (op ∷ ops) more =
    ap (λ l. op_record op ++ l) (records-append ops more)
    ∙ sym (append_assoc (op_record op) (records ops) (records more))

put-onto : (dst v : Slice) → put_length_prefixed_slice dst v ≡ dst ++ put_length_prefixed_slice [] v
unfolding put_length_prefixed_slice put_varint32
put-onto dst v = append_assoc dst _ v

module _ (little : Bool) where
  -- A string with these header fields.
  abbrev pub laid : ℕ → ℕ → Slice → Slice
  laid seq n rest = encode_fixed64 little seq ++ (encode_fixed32 little n ++ rest)

  abbrev pub batch : ℕ → List Op → Slice
  batch seq ops = laid seq (length ops % 2 ^ 32) (records ops)

  length-fixed32 : (n : ℕ) → length (encode_fixed32 little n) ≡ 4
  length-fixed32 n = ap length (encode_fixed32_le little n)

  length-fixed64 : (n : ℕ) → length (encode_fixed64 little n) ≡ 8
  length-fixed64 n = ap length (encode_fixed64_le little n)

  pub length-laid : (seq n : ℕ) (rest : Slice) → length (laid seq n rest) ≡ 12 + length rest
  length-laid seq n rest = omega (
    arith,
    length-append (encode_fixed64 little seq) (encode_fixed32 little n ++ rest),
    length-append (encode_fixed32 little n) rest,
    length-fixed64 seq,
    length-fixed32 n,
  )

  drop_laid8 :
      (seq n : ℕ) (rest : Slice) → drop 8 (laid seq n rest) ≡ encode_fixed32 little n ++ rest
  drop_laid8 seq n rest =
      drop_exact 8 (encode_fixed64 little seq) (encode_fixed32 little n ++ rest)
        (length-fixed64 seq)

  pub drop-laid : (seq n : ℕ) (rest : Slice) → drop header_size (laid seq n rest) ≡ rest
  drop-laid seq n rest =
      ap (drop header_size)
        (sym (append_assoc (encode_fixed64 little seq) (encode_fixed32 little n) rest))
      ∙ drop_exact 12 (encode_fixed64 little seq ++ encode_fixed32 little n) rest (
          omega (
            arith,
            length-append (encode_fixed64 little seq) (encode_fixed32 little n),
            length-fixed64 seq,
            length-fixed32 n,
          ))

  pub count-laid : (seq n : ℕ) (rest : Slice) → n < 2 ^ 32 → count little (laid seq n rest) ≡ some n
  unfolding count
  count-laid seq n rest h =
      ap (decode_fixed32 little) (drop_laid8 seq n rest)
      ∙ decode_fixed32-encode_fixed32 little n rest h

  set_count-laid :
      (seq n m : ℕ) (rest : Slice)
      → set_count little m (laid seq n rest) ≡ laid seq (m % 2 ^ 32) rest
  unfolding set_count
  set_count-laid seq n m rest =
      ap₂ (λ a b. a ++ (encode_fixed32 little (m % 2 ^ 32) ++ b))
        (take_exact 8 (encode_fixed64 little seq) (encode_fixed32 little n ++ rest)
          (length-fixed64 seq))
        (drop-laid seq n rest)

  laid-append :
      (seq n : ℕ) (rest more : Slice) → laid seq n rest ++ more ≡ laid seq n (rest ++ more)
  laid-append seq n rest more =
      append_assoc (encode_fixed64 little seq) (encode_fixed32 little n ++ rest) more
      ∙ ap (λ l. encode_fixed64 little seq ++ l) (append_assoc (encode_fixed32 little n) rest more)

  -- What Put and Delete append.
  with_put :
      (rep k v : Slice)
      → put_length_prefixed_slice (put_length_prefixed_slice (rep ++ (type_code value ∷ [])) k) v
        ≡ rep ++ op_record (put k v)
  with_put rep k v =
      put-onto (put_length_prefixed_slice (rep ++ (1 ∷ [])) k) v
      ∙ ap (λ l. l ++ put_length_prefixed_slice [] v) (put-onto (rep ++ (1 ∷ [])) k)
      ∙ append_assoc (rep ++ (1 ∷ [])) (put_length_prefixed_slice [] k)
          (put_length_prefixed_slice [] v)
      ∙ append_assoc rep (1 ∷ []) (put_length_prefixed_slice [] k ++ put_length_prefixed_slice [] v)

  with_delete :
      (rep k : Slice)
      → put_length_prefixed_slice (rep ++ (type_code deletion ∷ [])) k ≡ rep ++ op_record (delete k)
  with_delete rep k =
      put-onto (rep ++ (0 ∷ [])) k ∙ append_assoc rep (0 ∷ []) (put_length_prefixed_slice [] k)

  -- A batch with one more record.
  one_more :
      (seq : ℕ) (ops : List Op) (op : Op)
      → set_count little (length ops % 2 ^ 32 + 1) (batch seq ops) ++ op_record op
        ≡ batch seq (ops ++ (op ∷ []))
  one_more seq ops op =
      ap (λ l. l ++ op_record op) (set_count-laid seq _ _ (records ops))
      ∙ laid-append seq _ (records ops) (op_record op)
      ∙ ap₂ (laid seq) (omega (arith, length-append ops (op ∷ []))) (
          ap (λ l. records ops ++ l) (sym (append-nil (op_record op)))
          ∙ sym (records-append ops (op ∷ [])))

  append-laid :
      (seq other n m : ℕ) (rest more : Slice)
      → n < 2 ^ 32
      → m < 2 ^ 32
      → append little (laid seq n rest) (laid other m more)
        ≡ some (laid seq ((n + m) % 2 ^ 32) (rest ++ more))
  unfolding append
  append-laid seq other n m rest more h k =
      rw
        (
          count-laid seq n rest h,
          count-laid other m more k,
          le→leb 12 (length (laid other m more)) (omega (arith, length-laid other m more)),
        )
        (ap some (
          ap₂ (λ a b. a ++ b) (set_count-laid seq n (n + m) rest) (drop-laid other m more)
          ∙ laid-append seq ((n + m) % 2 ^ 32) rest more))

  -- The operations of WriteBatch are those of a list of updates: Put and Delete add one at the end,
  -- Append adds those of the other batch, whatever its sequence number, and Clear leaves none. The
  -- header keeps the sequence number, and counts modulo 2^32.
  pub updates_lem :
      (seq other : ℕ) (ops more : List Op) (key v : Slice)
      → (put_op little key v (batch seq ops) ≡ some (batch seq (ops ++ (put key v ∷ []))))
        × (delete_op little key (batch seq ops) ≡ some (batch seq (ops ++ (delete key ∷ []))))
        × (append little (batch seq ops) (batch other more) ≡ some (batch seq (ops ++ more)))
        × (cleared ≡ batch 0 [])
  unfolding put_op delete_op
  updates_lem seq other ops more key v = (
    rw (count-laid seq (length ops % 2 ^ 32) (records ops) (omega arith))
        (ap some (with_put _ key v ∙ one_more seq ops (put key v))),
    rw (count-laid seq (length ops % 2 ^ 32) (records ops) (omega arith))
        (ap some (with_delete _ key ∙ one_more seq ops (delete key))),
    append-laid seq other _ _ (records ops) (records more) (omega arith) (omega arith)
        ∙ ap₂ (λ n rest. some (laid seq n rest)) (omega (arith, length-append ops more))
            (sym (records-append ops more)),
    sym (ap₂ (λ a b. a ++ (b ++ [])) (encode_fixed64_le little 0) (encode_fixed32_le little 0)),
  )
