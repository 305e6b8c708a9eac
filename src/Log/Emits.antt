-- ===== src/Log/Emits.antt =====
-- What the rounds of AddRecord write to a file that takes every write.
use terp_builder.Base.{ℕ, ◌+◌, ◌-◌, ◌≤◌, ◌≡◌, refl, sym, ap, ◌∙◌, arith, Bool, some, inl, inr}
use terp_builder.Base.{List, ◌++◌, length, append_assoc, append-nil, ltb, le→leb, Bool-cases}
use terp_builder.Slice.{Slice}
use terp_builder.Status.{ok}
use terp_builder.Env.{WritableFile, IsWriting}
use terp_builder.Log.{block_size, log_header_size}
use terp_builder.Log.Writer.{
  record_header, trailer, after_header, after_payload, emit_physical_record, switch_block,
}
use terp_builder.Log.Aligned.{padding, begins}

module _ (little : Bool) (extend : ℕ → Slice → ℕ) {W : Type 0} (file : WritableFile W)
    (holds : W → List ℕ) (wr : IsWriting file holds) where
  appended : (s : Slice) (w : W) → file.append s w ≡ (ok, (file.append s w).1)
  appended s w = λ i. (wr.append_ok s w i, (file.append s w).1)

  -- The file after the two writes and the flush.
  abbrev after : ℕ → Slice → W → W
  after t payload w =
      (file.flush
        ((file.append payload ((file.append (record_header little extend t payload) w).1)).1)).1

  writes :
      (t : ℕ) (payload : Slice) (w : W)
      → after_header little extend file payload
          (file.append (record_header little extend t payload) w)
        ≡ (ok, after t payload w)
  writes t payload w =
      ap (after_header little extend file payload)
        (appended (record_header little extend t payload) w)
      ∙ ap (after_payload little extend file) (appended payload _)
      ∙ (λ i. (
        wr.flush_ok
            ((file.append payload ((file.append (record_header little extend t payload) w).1)).1) i,
        after t payload w,
      ))

  pub emit-bytes :
      (t : ℕ) (payload : Slice) (w : W) (off : ℕ)
      → length payload ≤ 0xffff
      → off + 7 + length payload ≤ block_size
      → (w' : W) × (emit_physical_record little extend file t payload w off
          ≡ some (ok, w', off + 7 + length payload))
        × (holds w' ≡ holds w ++ (record_header little extend t payload ++ payload))
  unfolding emit_physical_record
  emit-bytes t payload w off short inside = (
    after t payload w,
    rw
        (
          writes t payload w,
          le→leb (length payload) 0xffff short,
          le→leb (off + 7 + length payload) block_size inside,
        )
        (refl),
    wr.flush_holds _
        ∙ wr.append_holds payload _
        ∙ ap (λ l. l ++ payload) (wr.append_holds (record_header little extend t payload) w)
        ∙ append_assoc (holds w) (record_header little extend t payload) payload,
  )

  pub switch-bytes :
      (w : W) (off : ℕ)
      → (w' : W) × (switch_block little extend file w off ≡ (w', begins off))
        × (holds w' ≡ holds w ++ padding off)
  unfolding switch_block
  switch-bytes w off = elim (Bool-cases (ltb (block_size - off) log_header_size)) [
    | inl near ↦ elim (Bool-cases (ltb 0 (block_size - off))) [
      | inl some_left ↦ (
        (file.append (trailer (block_size - off)) w).1,
        rw (near, some_left) refl,
        rw near (wr.append_holds (trailer (block_size - off)) w),
      )
      | inr none_left ↦ (
        w,
        rw (near, none_left) refl,
        rw near (
            sym (append-nil (holds w))
            ∙ ap (λ n. holds w ++ trailer n) {x = 0} {y = block_size - off}
                (ground (arith, none_left))),
      )
    ]
    | inr far ↦ (w, rw far refl, rw far (sym (append-nil (holds w))))
  ]
