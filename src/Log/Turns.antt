-- ===== src/Log/Turns.antt =====
-- What the loop of ReadRecord makes of the fragments of one record.
use terp_builder.Base.{ℕ, ◌≡◌, refl, sym, ap, ◌∙◌, Bool, true, false, not, ◌&&◌}
use terp_builder.Base.{List, [], ◌++◌, length, ◌==◌, if◌then◌else◌}
use terp_builder.Slice.{Slice}
use terp_builder.Env.{SequentialFile}
use terp_builder.Log.{full_type, first_type, middle_type, last_type, log_header_size}
use terp_builder.Log.Writer.{fragment_type}
use terp_builder.Log.Reader.{
  Reader, Partial, Turn, stop, next, Physical, read_round, on_type, minus64,
}
use terp_builder.Log.Aligned.{IsAligned}

-- A record has begun, or not, and what there is of it.
pub record IsPartial (begin : Bool) (p : Partial) : Type 0 where
  pub fragmented : p.in_fragmented_record ≡ not begin
  pub empty : begin ≡ true → p.scratch ≡ []

abbrev pub moved_on : {F : Type 0} → ℕ → Reader F → Reader F
moved_on offset r = record r { resyncing = false; last_record_offset = offset }

moved_on-IsAligned :
    {F : Type 0} (left : F → List ℕ) (r : Reader F) (off : ℕ) (stream : List ℕ) (offset : ℕ)
    → IsAligned left r off stream
    → IsAligned left (moved_on offset r) off stream
moved_on-IsAligned left r off stream offset al = record {
  buffered = al.buffered;
  behind = al.behind;
  ended = al.ended;
  within = al.within;
  synced = refl;
  quiet = al.quiet;
}

module _ (little : Bool) (extend : ℕ → Slice → ℕ) {F : Type 0} (file_ops : SequentialFile F)
    (left : F → List ℕ) (has_reporter checksum : Bool) where
  abbrev round : Partial → Physical F → Turn F
  round = read_round little extend file_ops has_reporter checksum 0

  round-on_type :
      (p : Partial) (t : ℕ) (payload : Slice) (r : Reader F)
      → r.resyncing ≡ false
      → (offset : ℕ) × (round p (t, payload, r)
          ≡ on_type little extend file_ops has_reporter checksum 0 t payload offset p
              (record r { resyncing = false }))
  unfolding read_round
  round-on_type p t payload r synced = (
    offset,
    ap
        (λ b.
          if b && (t == middle_type)
          then next p r
          else if b && (t == last_type)
          then next p (record r { resyncing = false })
          else on_type little extend file_ops has_reporter checksum 0 t payload offset p
              (record r { resyncing = false }))
        synced,
  )
    where
      offset : ℕ
      offset =
          minus64 (minus64 (minus64 r.end_of_buffer_offset (length r.buffer)) log_header_size)
            (length payload)

  -- The fragment that ends a record.
  pub round_end :
      (begin : Bool) (p : Partial) (payload : Slice) (r : Reader F) (off : ℕ) (rest : List ℕ)
      → IsPartial begin p
      → IsAligned left r off rest
      → (r' : Reader F) × (round p (fragment_type begin true, payload, r)
          ≡ stop true (p.scratch ++ payload) r')
        × IsAligned left r' off rest
  unfolding on_type
  round_end true p payload r off rest part al =
      let first = round-on_type p full_type payload r al.synced in
      (
        moved_on first.0 r,
        first.1 ∙ rw (part.fragmented, part.empty refl) (refl),
        moved_on-IsAligned left r off rest first.0 al,
      )
  round_end false p payload r off rest part al =
      let first = round-on_type p last_type payload r al.synced in
      (
        moved_on p.prospective_record_offset r,
        first.1 ∙ rw (part.fragmented) (refl),
        moved_on-IsAligned left r off rest p.prospective_record_offset al,
      )

  -- A fragment that does not.
  pub round_more :
      (begin : Bool) (p : Partial) (payload : Slice) (r : Reader F) (off : ℕ) (rest : List ℕ)
      → IsPartial begin p
      → IsAligned left r off rest
      → (p' : Partial) × (r' : Reader F) × (round p (fragment_type begin false, payload, r)
          ≡ next p' r')
        × IsPartial false p'
        × (p'.scratch ≡ p.scratch ++ payload)
        × IsAligned left r' off rest
  unfolding on_type
  round_more true p payload r off rest part al =
      let first = round-on_type p first_type payload r al.synced in
      (
        record {
          in_fragmented_record = true;
          scratch = payload;
          prospective_record_offset = first.0;
        },
        moved_on r.last_record_offset r,
        first.1 ∙ rw (part.fragmented) (refl),
        record { fragmented = refl; empty = λ e. absurd (cc e) },
        ap (λ l. l ++ payload) (sym (part.empty refl)),
        moved_on-IsAligned left r off rest r.last_record_offset al,
      )
  round_more false p payload r off rest part al =
      let first = round-on_type p middle_type payload r al.synced in
      (
        record p { scratch = p.scratch ++ payload },
        moved_on r.last_record_offset r,
        first.1 ∙ rw (part.fragmented) (refl),
        record { fragmented = part.fragmented; empty = λ e. absurd (cc e) },
        refl,
        moved_on-IsAligned left r off rest r.last_record_offset al,
      )
