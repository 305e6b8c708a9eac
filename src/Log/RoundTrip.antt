-- ===== src/Log/RoundTrip.antt =====
-- A log that is written in several sessions, and read.
use terp_builder.Base.{
  ℕ, suc, ◌+◌, ◌%◌, ◌≤◌, ◌≡◌, refl, sym, ap, ◌∙◌, arith, Bool, true, false, Option, some, inl, inr,
}
use terp_builder.Base.{
  List, [], ◌∷◌, ◌++◌, length, append_assoc, append-nil, length-append, ltb, ltb→lt, Bool-cases,
  ◌>>=◌,
}
use terp_builder.Slice.{Slice}
use terp_builder.Status.{Status, ok}
use terp_builder.Env.{WritableFile, IsWriting, SequentialFile, IsReading}
use terp_builder.Log.{IsChecksum, block_size}
use terp_builder.Log.Writer.{
  add_record, add_fragment, add_fragments, initial_block_offset, switch_block,
}
use terp_builder.Log.Reader.{Reader, reader}
use terp_builder.Log.Aligned.{IsAligned}
use terp_builder.Log.Rounds.Bytes.{one-round}
use terp_builder.Log.Session.{
  IsRead, all-IsRead, write_log, write_more, read_log, read_more, put_all, volume, at_log_end,
}

abbrev pub joined : List (List Slice) → List Slice
joined [] = []
joined (ss ∷ sss) = ss ++ joined sss

volume-append : (xs ys : List Slice) → volume (xs ++ ys) ≡ volume xs + volume ys
volume-append [] ys = omega arith
volume-append (x ∷ xs) ys = omega (arith, volume-append xs ys)

module _ (little : Bool) (extend : ℕ → Slice → ℕ) {W : Type 0} (file : WritableFile W) where
  abbrev pub next_session : (W → Option (Status × W)) → Status × W × ℕ → Option (Status × W)
  next_session later (ok, w, off) = later w
  next_session later (Status.error c msg, w, off) = some (Status.error c msg, w)

  -- A Writer for each list of records, on the file as it then is.
  abbrev pub write_sessions : (W → ℕ) → List (List Slice) → W → Option (Status × W)
  write_sessions size [] w = some (ok, w)
  write_sessions size (ss ∷ sss) w =
      write_log little extend file ss (w, initial_block_offset (size w))
      >>= next_session (write_sessions size sss)

module _ (little : Bool) (extend : ℕ → Slice → ℕ) (cs : IsChecksum extend) {W : Type 0}
    (file : WritableFile W) (holds : W → List ℕ) (wr : IsWriting file holds) {F : Type 0}
    (file_ops : SequentialFile F) (left : F → List ℕ) (rd : IsReading file_ops left)
    (has_reporter checksum : Bool) where
  turned_over :
      (w : W) → switch_block little extend file w 0 ≡ switch_block little extend file w block_size
  unfolding switch_block
  turned_over w = refl

  start-end :
      (s : Slice) (w : W)
      → add_record little extend file s (w, 0) ≡ add_record little extend file s (w, block_size)
  unfolding add_record
  start-end s w =
      rounds 0 (omega arith)
      ∙ ap
          (λ x.
            add_fragment little extend file (add_fragments little extend file (length s + 1) false)
              true s x)
          (turned_over w)
      ∙ sym (rounds block_size (omega arith))
    where
      rounds :
          (off : ℕ)
          → off ≤ block_size
          → add_fragments little extend file (length s + 2) true s (w, off)
            ≡ add_fragment little extend file
                (add_fragments little extend file (length s + 1) false)
                true
                s
                (switch_block little extend file w off)
      rounds off le =
          ap (λ n. add_fragments little extend file n true s (w, off)) {x = length s + 2}
            {y = suc (length s + 1)} (omega arith)
          ∙ one-round little extend cs file holds wr (length s + 1) true s w off le

  -- A Writer that is at the end of a block goes on as one at the start of the next.
  reopened :
      (ss : List Slice) (w : W) (off : ℕ) (later : W → Option (Status × W))
      → off ≤ block_size
      → (write_log little extend file ss (w, off % block_size)
          >>= next_session little extend file later)
        ≡ (write_log little extend file ss (w, off) >>= next_session little extend file later)
  reopened [] w off later le = refl
  reopened (s ∷ ss) w off later le = elim (Bool-cases (ltb off block_size)) [
    | inl inside ↦
        ap
          (λ o.
            write_log little extend file (s ∷ ss) (w, o) >>= next_session little extend file later)
          {x = off % block_size} {y = off} (omega (arith, ltb→lt _ _ inside))
    | inr full ↦
        let at : off ≡ block_size = ground (arith, le, full) in
        ap
          (λ o.
            write_log little extend file (s ∷ ss) (w, o) >>= next_session little extend file later)
          {x = off % block_size} {y = 0} (omega (arith, at))
        ∙ ap
            (λ o.
              o
              >>= write_more little extend file (write_log little extend file ss)
              >>= next_session little extend file later)
            (start-end s w)
        ∙ ap
            (λ o.
              write_log little extend file (s ∷ ss) (w, o)
              >>= next_session little extend file later)
            (sym at)
  ]

  record IsWhole (sss : List (List Slice)) (w : W) (off : ℕ) : Type 0 where
    dest : W
    text : List ℕ
    written : write_sessions little extend file (λ w. length (holds w)) sss w ≡ some (ok, dest)
    held : holds dest ≡ holds w ++ text
    read :
        (m : ℕ) (r : Reader F)
        → volume (joined sss) + 2 ≤ m
        → IsAligned left r off text
        → (r' : Reader F) × (read_log little extend file_ops has_reporter checksum m
              (suc (length (joined sss)))
              r
            ≡ some (joined sss, r'))
          × (r'.drops ≡ [])

  cons-IsWhole :
      (ss : List Slice) (sss : List (List Slice)) (w : W) (off : ℕ)
      → off ≤ block_size
      → length (holds w) % block_size ≡ off % block_size
      → (one : IsRead little extend cs file holds wr file_ops left rd has_reporter checksum ss w
          off)
      → IsWhole sss one.dest one.offset
      → IsWhole (ss ∷ sss) w off
  cons-IsWhole ss sss w off le e one rest = record {
    dest = rest.dest;
    text = one.text ++ rest.text;
    written =
        ap (λ o. write_log little extend file ss (w, o) >>= next_session little extend file more) e
        ∙ reopened ss w off more le
        ∙ ap (λ o. o >>= next_session little extend file more) one.written
        ∙ rest.written;
    held =
        rest.held ∙ ap (λ l. l ++ rest.text) one.held ∙ append_assoc (holds w) one.text rest.text;
    read = λ m r enough al.
        let head =
          one.read m (suc (length (joined sss))) r rest.text
            (omega (arith, enough, volume-append ss (joined sss))) al in
        let tail =
          rest.read m head.0 (omega (arith, enough, volume-append ss (joined sss))) head.2 in
        (
          tail.0,
          ap (λ n. read_log little extend file_ops has_reporter checksum m n r)
                {x = suc (length (ss ++ joined sss))} {y = length ss + suc (length (joined sss))}
                (omega (arith, length-append ss (joined sss)))
              ∙ head.1
              ∙ ap (λ o. o >>= put_all ss) tail.1,
          tail.2,
        );
  }
    where
      more : W → Option (Status × W)
      more = write_sessions little extend file (λ w. length (holds w)) sss

  all-IsWhole :
      (sss : List (List Slice)) (w : W) (off : ℕ)
      → off ≤ block_size
      → length (holds w) % block_size ≡ off % block_size
      → IsWhole sss w off
  all-IsWhole [] w off le e = record {
    dest = w;
    text = [];
    written = refl;
    held = sym (append-nil (holds w));
    read = λ m r enough al.
        let end =
          at_log_end little extend cs file holds wr file_ops left rd has_reporter checksum m r off
            (omega arith) al in
        (
          end.0,
          ap (λ o. o >>= read_more (read_log little extend file_ops has_reporter checksum m 0))
              end.1,
          end.2,
        );
  }
  all-IsWhole (ss ∷ sss) w off le e =
      let one =
        all-IsRead little extend cs file holds wr file_ops left rd has_reporter checksum ss w off
          le in
      cons-IsWhole ss sss w off le e one (
        all-IsWhole sss one.dest one.offset one.inside
          (omega (arith, ap length one.held, length-append (holds w) one.text, one.sized, e)))

  -- For a checksum that extends as crc32c.h says, a file that takes every write, and one whose reads
  -- give what was written: what one Writer after the other writes to an empty file, each going on at
  -- the file's length, a Reader from offset 0 reads back, whole and in order, and then finds the
  -- end; it reports nothing. Fuel of 2 more than the bytes of all records is enough for each record.
  pub read_log-write_sessions :
      (sss : List (List Slice)) (w : W) (reading : W → F)
      → holds w ≡ []
      → ((w' : W) → left (reading w') ≡ holds w')
      → (m : ℕ) → volume (joined sss) + 2 ≤ m
      → (w' : W) × (r : Reader F) × (write_sessions little extend file (λ w. length (holds w)) sss w
          ≡ some (ok, w'))
        × (read_log little extend file_ops has_reporter checksum m
              (suc (length (joined sss)))
              (reader little extend file_ops has_reporter checksum 0 (reading w'))
            ≡ some (joined sss, r))
        × (r.drops ≡ [])
  read_log-write_sessions sss w reading empty opens m enough =
      let whole = all-IsWhole sss w block_size (omega arith) (rw empty refl) in
      let r = reader little extend file_ops has_reporter checksum 0 (reading whole.dest) in
      let end = whole.read m r enough (record {
        buffered = refl;
        behind = opens whole.dest ∙ whole.held ∙ ap (λ l. l ++ whole.text) empty;
        ended = refl;
        within = omega arith;
        synced = refl;
        quiet = refl;
      }) in
      (whole.dest, end.0, whole.written, end.1, end.2)
