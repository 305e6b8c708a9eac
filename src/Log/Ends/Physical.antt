-- ===== src/Log/Ends/Physical.antt =====
-- What ReadPhysicalRecord leaves.
use terp_builder.Base.{
  ◌%◌, ℕ, ◌+◌, ◌*◌, ◌^◌, ◌≤◌, ◌≡◌, refl, arith, Bool, true, not, ◌&&◌, inl, inr,
}
use terp_builder.Base.{
  [], length, drop, length-drop, get_or, bit_or, ltb, ◌==◌, if◌then◌else◌, Bool-cases,
}
use terp_builder.Slice.{Slice}
use terp_builder.Status.{Status, ok}
use terp_builder.Env.{SequentialFile, IsFinite}
use terp_builder.Log.{zero_type, block_size, log_header_size}
use terp_builder.Log.Reader
use terp_builder.Log.Ends.Left.{remains, IsBelow, choose, IsShorter, ended, shorter, pick}

module _ (little : Bool) (extend : ℕ → Slice → ℕ) {F : Type 0} (file_ops : SequentialFile F)
    (left : F → ℕ) (fin : IsFinite file_ops left) (has_reporter checksum : Bool)
    (initial_offset : ℕ) where
  pub drop-remains :
      (n : ℕ) (reason : Status) (r : Reader.Reader F)
      → remains left (
          Reader.report_drop little extend file_ops has_reporter checksum initial_offset n reason r)
        ≡ remains left r
  unfolding Reader.report_drop
  drop-remains n reason r = ground arith

  pub corruption-remains :
      (n : ℕ) (reason : Status) (r : Reader.Reader F)
      → remains left (
          Reader.report_corruption little extend file_ops has_reporter checksum initial_offset n
            reason r)
        ≡ remains left r
  unfolding Reader.report_corruption
  corruption-remains n reason r = drop-remains n reason r

  physical-remains :
      (t len : ℕ) (header : Slice) (r : Reader.Reader F)
      → 7 ≤ length r.buffer
      → IsBelow left (remains left r) (
          Reader.physical_at little extend file_ops has_reporter checksum initial_offset t len
            header r)
  physical-remains t len header r enough = choose left (ltb start initial_offset) fewer fewer
    where
      rest : Slice
      rest = drop (log_header_size + len) r.buffer

      start : ℕ
      start =
          Reader.minus64
            (Reader.minus64 (Reader.minus64 r.end_of_buffer_offset (length rest)) log_header_size)
            len

      fewer : {t : ℕ} {s : Slice} → IsBelow left (remains left r) (t, s, record r { buffer = rest })
      fewer = record { fewer = omega (arith, length-drop (log_header_size + len) r.buffer, enough) }

  parse-remains :
      (r : Reader.Reader F)
      → 7 ≤ length r.buffer
      → IsBelow left
          (remains left r)
          (Reader.parse_header little extend file_ops has_reporter checksum initial_offset r)
  unfolding Reader.parse_header
  parse-remains r enough =
      choose left (ltb (length r.buffer) (log_header_size + len))
        (choose left r.eof emptied (reported _ _))
        (choose left ((type == zero_type) && (len == 0)) emptied (
          choose left (checksum && not (Reader.checked_crc little extend r.buffer len))
            (reported _ _) (physical-remains type len r.buffer r enough)))
    where
      len : ℕ
      len = bit_or (get_or r.buffer 4 0) (get_or r.buffer 5 0 * 2 ^ 8)

      type : ℕ
      type = Reader.widened (get_or r.buffer 6 0)

      cleared : Reader.Reader F
      cleared = record r { buffer = [] }

      emptied : {t : ℕ} {s : Slice} → IsBelow left (remains left r) (t, s, cleared)
      emptied = record { fewer = omega (arith, enough) }

      reported :
          {t : ℕ} {s : Slice} (n : ℕ) (reason : Status)
          → IsBelow left (remains left r) (
            t,
            s,
            Reader.report_corruption little extend file_ops has_reporter checksum initial_offset n
                reason cleared,
          )
      reported n reason = record {
        fewer = omega (arith, corruption-remains n reason cleared, enough);
      }

  parse-IsShorter :
      (n : ℕ) (r : Reader.Reader F)
      → remains left r ≤ n
      → IsShorter left n (
          if ltb (length r.buffer) log_header_size
          then Reader.at_end little extend file_ops has_reporter checksum initial_offset r
          else Reader.parse_header little extend file_ops has_reporter checksum initial_offset r)
  parse-IsShorter n r le = elim (Bool-cases (ltb (length r.buffer) log_header_size)) [
    | inl short ↦ rw short (ended refl)
    | inr enough ↦ rw enough (
        shorter
          (record { fewer = omega (arith, (parse-remains r (ground (arith, enough))).fewer, le) }))
  ]

  -- A read that does not go well ends the reading.
  refilled-IsShorter :
      (r : Reader.Reader F) (x : Status × Slice × F)
      → length x.1 + left x.2 ≤ left r.file
      → IsShorter left
          (remains left r)
          (Reader.refilled little extend file_ops has_reporter checksum initial_offset r x)
  refilled-IsShorter r (ok, bytes, file) le =
      parse-IsShorter (remains left r)
        (record r {
          file = file;
          buffer = bytes;
          end_of_buffer_offset = (r.end_of_buffer_offset + length bytes) % 2 ^ 64;
          eof = if ltb (length bytes) block_size then true else r.eof;
        })
        (omega (arith, le))
  refilled-IsShorter r (Status.error c msg, bytes, file) le = ended refl

  pub read-IsShorter :
      (r : Reader.Reader F)
      → IsShorter left (remains left r) (
          Reader.read_physical_record little extend file_ops has_reporter checksum initial_offset r)
  unfolding Reader.read_physical_record
  read-IsShorter r = elim (Bool-cases (ltb (length r.buffer) log_header_size)) [
    | inl short ↦ rw short (
        pick left r.eof (ended refl) (
          refilled-IsShorter r (file_ops.read block_size r.file)
            (fin.read_within block_size r.file)))
    | inr enough ↦ rw enough (shorter (parse-remains r (ground (arith, enough))))
  ]
