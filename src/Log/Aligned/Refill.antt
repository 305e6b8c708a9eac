-- ===== src/Log/Aligned/Refill.antt =====
-- A read of the next block, where the buffer holds less than a header.
use terp_builder.Base.{ℕ, ◌+◌, ◌-◌, ◌%◌, ◌^◌, ◌≤◌, ◌<◌, ◌≡◌, ap, ◌∙◌, arith, Bool, true, false}
use terp_builder.Base.{
  List, [], ◌++◌, length, take, drop, take_exact, drop_exact, length-append, length-take,
}
use terp_builder.Base.{ltb, if◌then◌else◌, le→ltb, lt→ltb}
use terp_builder.Slice.{Slice}
use terp_builder.Status.{ok}
use terp_builder.Env.{SequentialFile, IsReading}
use terp_builder.Log.{IsChecksum, block_size, log_header_size}
use terp_builder.Log.Writer.{record_header, trailer}
use terp_builder.Log.Reader.{Reader, Physical, parse_header, read_physical_record, refilled, at_end}
use terp_builder.Log.Fragment.{IsFragment, length-header}
use terp_builder.Log.Aligned.{length-trailer, IsAligned, physical}
use terp_builder.Log.Aligned.Parse.{parse-IsAligned}

module _ (little : Bool) (extend : ℕ → Slice → ℕ) (cs : IsChecksum extend) {F : Type 0}
    (file_ops : SequentialFile F) (left : F → List ℕ) (rd : IsReading file_ops left)
    (has_reporter checksum : Bool) where
  -- The read of a next block.
  refill :
      (r : Reader F)
      → refilled little extend file_ops has_reporter checksum 0 r (file_ops.read block_size r.file)
        ≡ refilled little extend file_ops has_reporter checksum 0 r
            (ok, take block_size (left r.file), (file_ops.read block_size r.file).2)
  refill r = λ i. refilled little extend file_ops has_reporter checksum 0 r (
    rd.read_ok block_size r.file i,
    rd.read_bytes block_size r.file i,
    (file_ops.read block_size r.file).2,
  )

  abbrev pub ended_at : Reader F → Physical F
  ended_at = at_end little extend file_ops has_reporter checksum 0

  abbrev pub next_block : Reader F → Physical F
  next_block r =
      refilled little extend file_ops has_reporter checksum 0 r (file_ops.read block_size r.file)

  pub short-read :
      (r : Reader F)
      → length r.buffer < 7
      → physical little extend cs file_ops left rd has_reporter checksum r
        ≡ (if r.eof then ended_at r else next_block r)
  unfolding read_physical_record
  short-read r few =
      ap
        (λ b.
          if b
          then (if r.eof then ended_at r else next_block r)
          else parse_header little extend file_ops has_reporter checksum 0 r)
        (lt→ltb (length r.buffer) 7 few)

  -- The buffer is refilled when it has less than a header and the last read was a full one.
  pub near-read :
      (r : Reader F) (off : ℕ) (stream : Slice)
      → length r.buffer < 7
      → r.eof ≡ false
      → left r.file ≡ stream
      → r.resyncing ≡ false
      → r.drops ≡ []
      → (r' : Reader F) × (physical little extend cs file_ops left rd has_reporter checksum r ≡ (
          if ltb (length r'.buffer) log_header_size
          then at_end little extend file_ops has_reporter checksum 0 r'
          else parse_header little extend file_ops has_reporter checksum 0 r'))
        × IsAligned left r' 0 stream
  near-read r off stream few going e synced quiet = (
    r',
    short-read r few ∙ ap (λ b. if b then ended_at r else next_block r) going ∙ refill r,
    record {
      buffered = ap (take block_size) e;
      behind = rd.read_left block_size r.file ∙ ap (drop block_size) e;
      ended = ground (arith, going);
      within = omega arith;
      synced = synced;
      quiet = quiet;
    },
  )
    where
      bytes : List ℕ
      bytes = take block_size (left r.file)

      r' : Reader F
      r' = record r {
        file = (file_ops.read block_size r.file).2;
        buffer = bytes;
        end_of_buffer_offset = (r.end_of_buffer_offset + length bytes) % 2 ^ 64;
        eof = if ltb (length bytes) block_size then true else r.eof;
      }

  pub near-fragment :
      (r : Reader F) (off t : ℕ) (payload rest : Slice)
      → IsFragment t
      → length payload < 2 ^ 16
      → 7 + length payload ≤ block_size
      → block_size - off < 7
      → IsAligned left r off (
          trailer (block_size - off)
          ++ (record_header little extend t payload ++ (payload ++ rest)))
      → (r' : Reader F) × (physical little extend cs file_ops left rd has_reporter checksum r
          ≡ (t, payload, r'))
        × IsAligned left r' (0 + 7 + length payload) rest
  near-fragment r off t payload rest is short inside few al =
      let next = near-read r off stream (omega (arith, few, size)) going here al.synced al.quiet in
      let parsed =
        parse-IsAligned little extend cs file_ops left rd has_reporter checksum next.0 0 t payload
          rest is short (omega arith) next.2 in
      (parsed.0, next.1 ∙ rw (enough next.0 next.2) parsed.1, parsed.2)
    where
      header : List ℕ
      header = record_header little extend t payload

      stream : List ℕ
      stream = header ++ (payload ++ rest)

      size : length r.buffer ≡ block_size - off
      size =
          ap length (
            al.buffered
            ∙ take_exact (block_size - off) (trailer (block_size - off)) stream
                (length-trailer (block_size - off)))
          ∙ length-trailer (block_size - off)

      going : r.eof ≡ false
      going = al.ended ∙ le→ltb _ _ (omega (arith, size))

      here : left r.file ≡ stream
      here =
          al.behind
          ∙ drop_exact (block_size - off) (trailer (block_size - off)) stream
              (length-trailer (block_size - off))

      enough : (r' : Reader F) → IsAligned left r' 0 stream → ltb (length r'.buffer) 7 ≡ false
      enough r' al' = le→ltb _ _ (
          omega (
            arith,
            ap length al'.buffered,
            length-take block_size stream,
            length-append header (payload ++ rest),
            length-header little extend cs t payload rest is short,
          ))
