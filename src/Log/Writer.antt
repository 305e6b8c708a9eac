-- ===== src/Log/Writer.antt =====
-- Terp_Builder/Pods/leveldb-library/db/log_writer.cc: log::Writer, with dest_ as the state W of a WritableFile and block_offset_
-- beside it. `extend` is crc32c::Extend. An assertion is `none`.
use terp_builder.Base.{
  ℕ, zero, suc, ◌+◌, ◌-◌, ◌/◌, ◌%◌, ◌^◌, Bool, true, false, ◌&&◌, Option, none, some,
}
use terp_builder.Base.{
  [], ◌∷◌, ◌++◌, length, take, drop, bit_and, ltb, leb, ◌==◌, if◌then◌else◌, ◌>>=◌,
}
use terp_builder.Slice.{Slice}
use terp_builder.Status.{Status, ok}
use terp_builder.Env.{WritableFile}
use terp_builder.Coding.Fixed.{encode_fixed32}
use terp_builder.Crc32c.{mask}
use terp_builder.Log.{full_type, first_type, middle_type, last_type, block_size, log_header_size}

abbrev pub trailer : ℕ → Slice
trailer zero = []
trailer (suc n) = 0 ∷ trailer n

-- The type of a fragment that begins or ends the record.
abbrev pub fragment_type : Bool → Bool → ℕ
fragment_type true true = full_type
fragment_type true false = first_type
fragment_type false true = last_type
fragment_type false false = middle_type

module _ (little : Bool) (extend : ℕ → Slice → ℕ) where
  -- `type_crc_[t]`, which InitTypeCrc fills in.
  abbrev pub type_crc : ℕ → ℕ
  type_crc t = extend 0 (t ∷ [])

  abbrev pub record_header : ℕ → Slice → Slice
  record_header t payload =
      encode_fixed32 little (mask (extend (type_crc t) payload))
      ++ (bit_and (length payload) 0xff ∷ length payload / 2 ^ 8 % 2 ^ 8 ∷ t ∷ [])

  module _ {W : Type 0} (file : WritableFile W) where
    abbrev pub after_payload : Status × W → Status × W
    after_payload (ok, w) = file.flush w
    after_payload (Status.error c msg, w) = (Status.error c msg, w)

    abbrev pub after_header : Slice → Status × W → Status × W
    after_header payload (ok, w) = after_payload (file.append payload w)
    after_header payload (Status.error c msg, w) = (Status.error c msg, w)

    -- `EmitPhysicalRecord`: the status, and dest_ and block_offset_ afterwards.
    unfoldable pub emit_physical_record : ℕ → Slice → W → ℕ → Option (Status × W × ℕ)
    emit_physical_record t payload w block_offset =
        let (s, w') = after_header payload (file.append (record_header t payload) w) in
        if leb (length payload) 0xffff
          && leb (block_offset + log_header_size + length payload) block_size
        then some (s, w', block_offset + log_header_size + length payload)
        else none

    -- The switch to a new block, whose Append is not checked.
    unfoldable pub switch_block : W → ℕ → W × ℕ
    switch_block w block_offset =
        let leftover = block_size - block_offset in
        if ltb leftover log_header_size
        then ((if ltb 0 leftover then (file.append (trailer leftover) w).1 else w), 0)
        else (w, block_offset)

    abbrev pub go_on :
        (Slice → W × ℕ → Option (Status × W × ℕ)) → Slice → Status × W × ℕ → Option (Status × W × ℕ)
    go_on next rest (ok, w, block_offset) =
        let more = next rest (w, block_offset) in
        if ltb 0 (length rest) then more else some (ok, w, block_offset)
    go_on next rest (Status.error c msg, w, block_offset) =
        some (Status.error c msg, w, block_offset)

    -- One round of the loop of AddRecord, in a block with place for a header, and what follows it.
    unfoldable pub add_fragment :
        (Slice → W × ℕ → Option (Status × W × ℕ)) → Bool → Slice → W × ℕ → Option (Status × W × ℕ)
    add_fragment next begin left (w, block_offset) =
        let avail = block_size - block_offset - log_header_size in
        let fragment_length = if ltb (length left) avail then length left else avail in
        let end = length left == fragment_length in
        emit_physical_record (fragment_type begin end) (take fragment_length left) w block_offset
        >>= go_on next (drop fragment_length left)

    -- The loop; `none` is also that the fuel ran out. leftover is not negative.
    unfoldable pub add_fragments : ℕ → Bool → Slice → W × ℕ → Option (Status × W × ℕ)
    add_fragments zero begin left (w, block_offset) = none
    add_fragments (suc n) begin left (w, block_offset) =
        let added = add_fragment (add_fragments n false) begin left (switch_block w block_offset) in
        if leb block_offset block_size then added else none

    -- A round takes a byte of the record, but for one that only has place for a header.
    unfoldable pub add_record : Slice → W × ℕ → Option (Status × W × ℕ)
    add_record s (w, block_offset) = add_fragments (length s + 2) true s (w, block_offset)

-- The constructor with the length of the file.
abbrev pub initial_block_offset : ℕ → ℕ
initial_block_offset dest_length = dest_length % block_size
