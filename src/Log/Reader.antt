-- ===== src/Log/Reader.antt =====
-- Terp_Builder/Pods/leveldb-library/db/log_reader.h and log_reader.cc: log::Reader, with file_ as the state F of a
-- SequentialFile, and the calls of the reporter as a list. `extend` is crc32c::Extend. Unsigned
-- subtraction wraps around.
use terp_builder.Base.{
  ℕ, zero, suc, ◌+◌, ◌-◌, ◌*◌, ◌%◌, ◌^◌, Bool, true, false, not, ◌&&◌, Option, none, some,
}
use terp_builder.Base.{
  List, [], ◌∷◌, or_zero, ◌++◌, length, take, drop, get_or, bit_or, ltb, leb, ◌==◌, if◌then◌else◌,
}
use terp_builder.Base.Text.{bytes}
use terp_builder.Slice.{Slice}
use terp_builder.Status.{Status, ok, corrupt, status, corruption}
use terp_builder.Env.{SequentialFile}
use terp_builder.Coding.Fixed.{decode_fixed32}
use terp_builder.Crc32c.{unmask}
use terp_builder.Logging.{llu}
use terp_builder.Log.{
  zero_type, full_type, first_type, middle_type, last_type, max_record_type, block_size,
  log_header_size,
}

-- What ReadPhysicalRecord returns besides the types in the file.
abbrev pub eof_type : ℕ
eof_type = max_record_type + 1

abbrev pub bad_record : ℕ
bad_record = max_record_type + 2

pub record Reader (F : Type 0) : Type 0 where
  pub file : F
  pub buffer : Slice
  pub eof : Bool
  pub last_record_offset : ℕ
  pub end_of_buffer_offset : ℕ
  pub resyncing : Bool
  pub drops : List (ℕ × Status)

abbrev pub minus64 : ℕ → ℕ → ℕ
minus64 a b = (a + (2 ^ 64 - b % 2 ^ 64)) % 2 ^ 64

-- The type and the fragment that ReadPhysicalRecord gives; where it sets none, the empty slice
-- stands here, which is not looked at.
abbrev pub Physical : Type 0 → Type 0
Physical F = ℕ × Slice × Reader F

-- `header[6]`, a signed char as an unsigned int.
abbrev pub widened : ℕ → ℕ
widened type = if ltb type 0x80 then type else type + (2 ^ 32 - 2 ^ 8)

-- The variables of ReadRecord's loop.
pub record Partial : Type 0 where
  pub in_fragmented_record : Bool
  pub scratch : Slice
  pub prospective_record_offset : ℕ

-- How a round ends: with a return, and *record, or with the loop going on.
pub data Turn (F : Type 0) : Type 0 where
  stop : Bool → Slice → Reader F → Turn F
  next : Partial → Reader F → Turn F

abbrev pub no_partial : Partial
no_partial = record { in_fragmented_record = false; scratch = []; prospective_record_offset = 0 }

-- The checksum in a header, which its payload follows.
abbrev pub checked_crc : Bool → (ℕ → Slice → ℕ) → Slice → ℕ → Bool
checked_crc little extend header len =
    unmask (or_zero (decode_fixed32 little header)) == extend 0 (take (1 + len) (drop 6 header))

module _ (little : Bool) (extend : ℕ → Slice → ℕ) {F : Type 0} (file_ops : SequentialFile F) where
  module _ (has_reporter checksum : Bool) (initial_offset : ℕ) where
    abbrev pub reader : F → Reader F
    reader file = record {
      file = file;
      buffer = [];
      eof = false;
      last_record_offset = 0;
      end_of_buffer_offset = 0;
      resyncing = ltb 0 initial_offset;
      drops = [];
    }

    unfoldable pub report_drop : ℕ → Status → Reader F → Reader F
    report_drop n reason r =
        if has_reporter
          && leb initial_offset (minus64 (minus64 r.end_of_buffer_offset (length r.buffer)) n)
        then record r { drops = r.drops ++ ((n, reason) ∷ []) }
        else r

    unfoldable pub report_corruption : ℕ → Status → Reader F → Reader F
    report_corruption n reason r = report_drop n reason r

    abbrev pub skipped : ℕ → Reader F → Status × F → Bool × Reader F
    skipped location r (ok, file) = (true, record r { file = file })
    skipped location r (Status.error c msg, file) =
        (false, report_drop location (Status.error c msg) (record r { file = file }))

    unfoldable pub skip_to_initial_block : Reader F → Bool × Reader F
    skip_to_initial_block r =
        let offset_in_block = initial_offset % block_size in
        let start = initial_offset - offset_in_block in
        let location = if ltb (block_size - 6) offset_in_block then start + block_size else start in
        let r' = record r { end_of_buffer_offset = location } in
        let there = skipped location r' (file_ops.skip location r.file) in
        if ltb 0 location then there else (true, r')

    abbrev pub physical_at : ℕ → ℕ → Slice → Reader F → Physical F
    physical_at type len header r =
        let r' = record r { buffer = drop (log_header_size + len) r.buffer } in
        let start =
          minus64 (minus64 (minus64 r.end_of_buffer_offset (length r'.buffer)) log_header_size)
            len in
        if ltb start initial_offset
        then (bad_record, [], r')
        else (type, take len (drop log_header_size header), r')

    unfoldable pub parse_header : Reader F → Physical F
    parse_header r =
        let header = r.buffer in
        let len = bit_or (get_or header 4 0) (get_or header 5 0 * 2 ^ 8) in
        let type = widened (get_or header 6 0) in
        let cleared = record r { buffer = [] } in
        if ltb (length r.buffer) (log_header_size + len)
        then (if r.eof then (eof_type, [], cleared) else (
          bad_record,
          [],
          report_corruption (length header) (corrupt "bad record length") cleared,
        ))
        else if (type == zero_type) && (len == 0)
        then (bad_record, [], cleared)
        else if checksum && not (checked_crc little extend header len)
        then (
          bad_record,
          [],
          report_corruption (length header) (corrupt "checksum mismatch") cleared,
        )
        else physical_at type len header r

    abbrev pub at_end : Reader F → Physical F
    at_end r = (eof_type, [], record r { buffer = [] })

    -- The round after a read that went well: a buffer that is short is the last, since eof_ is set.
    abbrev pub refilled : Reader F → Status × Slice × F → Physical F
    refilled r (ok, buffer, file) =
        let r' = record r {
          file = file;
          buffer = buffer;
          end_of_buffer_offset = (r.end_of_buffer_offset + length buffer) % 2 ^ 64;
          eof = if ltb (length buffer) block_size then true else r.eof;
        } in
        let parsed = parse_header r' in
        if ltb (length buffer) log_header_size then at_end r' else parsed
    refilled r (Status.error c msg, buffer, file) =
        let r' = record r {
          file = file;
          buffer = [];
          end_of_buffer_offset = (r.end_of_buffer_offset + length buffer) % 2 ^ 64;
        } in
        let r'' = report_drop block_size (Status.error c msg) r' in
        (eof_type, [], record r'' { eof = true })

    unfoldable pub read_physical_record : Reader F → Physical F
    read_physical_record r =
        let filled = refilled r (file_ops.read block_size r.file) in
        let parsed = parse_header r in
        if ltb (length r.buffer) log_header_size
        then (if r.eof then at_end r else filled)
        else parsed

    -- A record that begins while another has no end.
    abbrev pub report_unended : Status → Partial → Reader F → Reader F
    report_unended reason p r =
        if p.in_fragmented_record && not (length p.scratch == 0)
        then report_corruption (length p.scratch) reason r
        else r

    abbrev pub on_full : Slice → ℕ → Partial → Reader F → Turn F
    on_full fragment offset p r =
        stop true fragment (record (report_unended (corrupt "partial record without end(1)") p r) {
          last_record_offset = offset;
        })

    abbrev pub on_first : Slice → ℕ → Partial → Reader F → Turn F
    on_first fragment offset p r =
        next
          (record {
            in_fragmented_record = true;
            scratch = fragment;
            prospective_record_offset = offset;
          })
          (report_unended (corrupt "partial record without end(2)") p r)

    abbrev pub on_middle : Slice → Partial → Reader F → Turn F
    on_middle fragment p r =
        if p.in_fragmented_record
        then next (record p { scratch = p.scratch ++ fragment }) r
        else next p (
            report_corruption (length fragment) (corrupt "missing start of fragmented record(1)") r)

    abbrev pub on_last : Slice → Partial → Reader F → Turn F
    on_last fragment p r =
        if p.in_fragmented_record
        then stop true (p.scratch ++ fragment)
            (record r { last_record_offset = p.prospective_record_offset })
        else next p (
            report_corruption (length fragment) (corrupt "missing start of fragmented record(2)") r)

    abbrev pub on_bad : Partial → Reader F → Turn F
    on_bad p r =
        if p.in_fragmented_record
        then next (record p { in_fragmented_record = false; scratch = [] })
            (report_corruption (length p.scratch) (corrupt "error in middle of record") r)
        else next p r

    abbrev pub on_unknown : ℕ → Slice → Partial → Reader F → Turn F
    on_unknown type fragment p r =
        next (record p { in_fragmented_record = false; scratch = [] })
          (report_corruption
            (length fragment + (if p.in_fragmented_record then length p.scratch else 0))
            (status corruption (bytes "unknown record type " ++ llu type) []) r)

    -- The switch on the type.
    unfoldable pub on_type : ℕ → Slice → ℕ → Partial → Reader F → Turn F
    on_type type fragment offset p r =
        if type == full_type
        then on_full fragment offset p r
        else if type == first_type
        then on_first fragment offset p r
        else if type == middle_type
        then on_middle fragment p r
        else if type == last_type
        then on_last fragment p r
        else if type == eof_type
        then stop false [] r
        else if type == bad_record
        then on_bad p r
        else on_unknown type fragment p r

    -- A round: resyncing passes over the fragments of a record that began before.
    unfoldable pub read_round : Partial → Physical F → Turn F
    read_round p (type, fragment, r) =
        let offset =
          minus64 (minus64 (minus64 r.end_of_buffer_offset (length r.buffer)) log_header_size)
            (length fragment) in
        if r.resyncing && (type == middle_type)
        then next p r
        else if r.resyncing && (type == last_type)
        then next p (record r { resyncing = false })
        else on_type type fragment offset p (record r { resyncing = false })

    abbrev pub turned :
        (Partial → Reader F → Option (Bool × Slice × Reader F))
        → Turn F
        → Option (Bool × Slice × Reader F)
    turned go (stop returned fragment r) = some (returned, fragment, r)
    turned go (next p r) = go p r

    -- The loop, `none` where the fuel runs out.
    unfoldable pub read_rounds : ℕ → Partial → Reader F → Option (Bool × Slice × Reader F)
    read_rounds zero p r = none
    read_rounds (suc n) p r = turned (read_rounds n) (read_round p (read_physical_record r))

    -- `ReadRecord`: what it returns, and *record.
    unfoldable pub read_record : ℕ → Reader F → Option (Bool × Slice × Reader F)
    read_record n r =
        let (there, r') = skip_to_initial_block r in
        if ltb r.last_record_offset initial_offset
        then (if there then read_rounds n no_partial r' else some (false, [], r'))
        else read_rounds n no_partial r
