-- ===== src/Log/Aligned/Read.antt =====
-- The physical record that an aligned reader reads next.
use terp_builder.Base.{
  ℕ, zero, suc, ◌+◌, ◌-◌, ◌^◌, ◌≤◌, ◌<◌, ◌≡◌, refl, ap, ◌∙◌, arith, Bool, false, inl, inr,
}
use terp_builder.Base.{List, [], ◌++◌, length, drop, ltb→lt, length-take}
use terp_builder.Base.{ltb, if◌then◌else◌, lt→ltb, Bool-cases}
use terp_builder.Slice.{Slice}
use terp_builder.Env.{SequentialFile, IsReading}
use terp_builder.Log.{IsChecksum, block_size, log_header_size}
use terp_builder.Log.Writer.{record_header}
use terp_builder.Log.Reader.{Reader, parse_header, eof_type}
use terp_builder.Log.Fragment.{IsFragment}
use terp_builder.Log.Aligned.{begins, IsAligned, padding, physical}
use terp_builder.Log.Aligned.Refill.{short-read, ended_at, next_block, near-read, near-fragment}
use terp_builder.Log.Aligned.Parse.{far-fragment}

module _ (little : Bool) (extend : ℕ → Slice → ℕ) (cs : IsChecksum extend) {F : Type 0}
    (file_ops : SequentialFile F) (left : F → List ℕ) (rd : IsReading file_ops left)
    (has_reporter checksum : Bool) where
  pub read-fragment :
      (r : Reader F) (off t : ℕ) (payload rest : Slice)
      → IsFragment t
      → length payload < 2 ^ 16
      → begins off + 7 + length payload ≤ block_size
      → IsAligned left r off
          (padding off ++ (record_header little extend t payload ++ (payload ++ rest)))
      → (r' : Reader F) × (physical little extend cs file_ops left rd has_reporter checksum r
          ≡ (t, payload, r'))
        × IsAligned left r' (begins off + 7 + length payload) rest
  read-fragment r off t payload rest is short inside al =
      elim (Bool-cases (ltb (block_size - off) log_header_size)) [
        | inl near ↦ rw near (
            near-fragment little extend cs file_ops left rd has_reporter checksum r off t payload
              rest is short (omega (arith, rw near at inside)) (ltb→lt _ _ near) (rw near at al))
        | inr far ↦ rw far (
            far-fragment little extend cs file_ops left rd has_reporter checksum r off t payload
              rest is short (rw far at inside) (rw far at al))
      ]

  -- A reader with nothing left.
  pub read-end :
      (r : Reader F) (off : ℕ)
      → IsAligned left r off []
      → (r' : Reader F) × (physical little extend cs file_ops left rd has_reporter checksum r
          ≡ (eof_type, [], r'))
        × (r'.drops ≡ [])
        × (r'.resyncing ≡ false)
  read-end r off al = elim (Bool-cases r.eof) [
    | inl over ↦ (
      record r { buffer = [] },
      short-read little extend cs file_ops left rd has_reporter checksum r few
          ∙ ap
              (λ b.
                if b
                then ended_at little extend cs file_ops left rd has_reporter checksum r
                else next_block little extend cs file_ops left rd has_reporter checksum r)
              over,
      al.quiet,
      al.synced,
    )
    | inr going ↦
        let next =
          near-read little extend cs file_ops left rd has_reporter checksum r off [] few going
            (al.behind ∙ drop-nil (block_size - off)) al.synced al.quiet in
        (
          record next.0 { buffer = [] },
          next.1
              ∙ ap
                  (λ b.
                    if b
                    then ended_at little extend cs file_ops left rd has_reporter checksum next.0
                    else parse_header little extend file_ops has_reporter checksum 0 next.0)
                  (lt→ltb _ 7
                    (omega (arith, ap length next.2.buffered, length-take block_size nothing))),
          next.2.quiet,
          next.2.synced,
        )
  ]
    where
      nothing : List ℕ
      nothing = []

      few : length r.buffer < 7
      few = omega (arith, ap length al.buffered, length-take (block_size - off) nothing)

      drop-nil : (n : ℕ) → drop n nothing ≡ []
      drop-nil zero = refl
      drop-nil (suc n) = refl
