-- ===== src/Log/Aligned/Parse.antt =====
-- A fragment that stands whole in the buffer.
use terp_builder.Base.{ℕ, ◌+◌, ◌-◌, ◌^◌, ◌≤◌, ◌<◌, ◌≡◌, refl, ap, ◌∙◌, arith, Bool, false}
use terp_builder.Base.{
  List, ◌++◌, length, take, drop, length-append, take_past, drop_past, length-take,
}
use terp_builder.Base.{ltb, le→ltb}
use terp_builder.Slice.{Slice}
use terp_builder.Env.{SequentialFile, IsReading}
use terp_builder.Log.{IsChecksum, block_size}
use terp_builder.Log.Writer.{record_header}
use terp_builder.Log.Reader.{Reader, parse_header, read_physical_record}
use terp_builder.Log.Fragment.{IsFragment, length-header, parse-stored_bytes}
use terp_builder.Log.Aligned.{IsAligned, physical}

module _ (little : Bool) (extend : ℕ → Slice → ℕ) (cs : IsChecksum extend) {F : Type 0}
    (file_ops : SequentialFile F) (left : F → List ℕ) (rd : IsReading file_ops left)
    (has_reporter checksum : Bool) where
  pub parse-IsAligned :
      (r : Reader F) (off t : ℕ) (payload rest : Slice)
      → IsFragment t
      → length payload < 2 ^ 16
      → off + 7 + length payload ≤ block_size
      → IsAligned left r off (record_header little extend t payload ++ (payload ++ rest))
      → (r' : Reader F) × (parse_header little extend file_ops has_reporter checksum 0 r
          ≡ (t, payload, r'))
        × IsAligned left r' (off + 7 + length payload) rest
  parse-IsAligned r off t payload rest is short inside al = (
    record r { buffer = more },
    parse-stored_bytes little extend cs t payload more is short file_ops has_reporter checksum r
        (al.buffered ∙ front),
    record {
      buffered = refl;
      behind = al.behind ∙ dropped;
      ended = al.ended ∙ ap (λ n. ltb n block_size) sizes;
      within = inside;
      synced = al.synced;
      quiet = al.quiet;
    },
  )
    where
      header : List ℕ
      header = record_header little extend t payload

      n : ℕ
      n = block_size - (off + 7 + length payload)

      more : List ℕ
      more = take n rest

      head : length header ≡ 7
      head = length-header little extend cs t payload rest is short

      front : take (block_size - off) (header ++ (payload ++ rest)) ≡ header ++ (payload ++ more)
      front =
          take_past (block_size - off) (length payload + n) header (payload ++ rest)
            (omega (arith, head, inside))
          ∙ ap (λ l. header ++ l) (take_past (length payload + n) n payload rest refl)

      dropped : drop (block_size - off) (header ++ (payload ++ rest)) ≡ drop n rest
      dropped =
          drop_past (block_size - off) (length payload + n) header (payload ++ rest)
            (omega (arith, head, inside))
          ∙ drop_past (length payload + n) n payload rest refl

      sizes : off + length r.buffer ≡ off + 7 + length payload + length more
      sizes = omega (
        arith,
        ap length (al.buffered ∙ front),
        length-append header (payload ++ more),
        length-append payload more,
        head,
      )

  pub far-fragment :
      (r : Reader F) (off t : ℕ) (payload rest : Slice)
      → IsFragment t
      → length payload < 2 ^ 16
      → off + 7 + length payload ≤ block_size
      → IsAligned left r off (record_header little extend t payload ++ (payload ++ rest))
      → (r' : Reader F) × (physical little extend cs file_ops left rd has_reporter checksum r
          ≡ (t, payload, r'))
        × IsAligned left r' (off + 7 + length payload) rest
  unfolding read_physical_record
  far-fragment r off t payload rest is short inside al =
      let parsed = parse-IsAligned r off t payload rest is short inside al in
      (parsed.0, rw enough parsed.1, parsed.2)
    where
      header : List ℕ
      header = record_header little extend t payload

      enough : ltb (length r.buffer) 7 ≡ false
      enough = le→ltb _ _ (
          omega (
            arith,
            ap length al.buffered,
            length-take (block_size - off) (header ++ (payload ++ rest)),
            length-append header (payload ++ rest),
            length-header little extend cs t payload rest is short,
          ))
