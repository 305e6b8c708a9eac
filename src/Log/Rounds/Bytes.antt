-- ===== src/Log/Rounds/Bytes.antt =====
-- One round of AddRecord: where it cuts the record and the bytes that it stores.
use terp_builder.Base.{
  ℕ, suc, ◌+◌, ◌-◌, ◌%◌, ◌≤◌, ◌≡◌, refl, ap, ◌∙◌, arith, Bool, true, false, Option, none, inl, inr,
}
use terp_builder.Base.{
  List, [], ◌∷◌, ◌++◌, length, take, drop, append_assoc, ltb, ◌>>=◌, ◌==◌, if◌then◌else◌, le→leb,
  Bool-cases, length-take,
}
use terp_builder.Slice.{Slice}
use terp_builder.Status.{Status, ok}
use terp_builder.Env.{WritableFile, IsWriting}
use terp_builder.Log.{IsChecksum, block_size, log_header_size}
use terp_builder.Log.Writer.{
  record_header, add_fragments, add_fragment, go_on, fragment_type, emit_physical_record,
  switch_block,
}
use terp_builder.Log.Fragment.{IsFragment}
use terp_builder.Log.Aligned.{padding, begins, length-trailer}
use terp_builder.Log.Emits.{emit-bytes, switch-bytes}

pub fragment_type-IsFragment : (begin end : Bool) → IsFragment (fragment_type begin end)
fragment_type-IsFragment true true = (omega arith, omega arith)
fragment_type-IsFragment true false = (omega arith, omega arith)
fragment_type-IsFragment false true = (omega arith, omega arith)
fragment_type-IsFragment false false = (omega arith, omega arith)

pub take_all : (xs : List ℕ) → take (length xs) xs ≡ xs
take_all [] = refl
take_all (x ∷ xs) = ap (λ l. x ∷ l) (take_all xs)

pub drop_all : (xs : List ℕ) → drop (length xs) xs ≡ []
drop_all [] = refl
drop_all (x ∷ xs) = drop_all xs

-- There is place for a header where a record begins.
pub begins-le : (off : ℕ) → off ≤ block_size → begins off + 7 ≤ block_size
begins-le off h = ground arith

-- The padding brings a record to where it begins, in this block or the next.
pub padded_block :
    (off : ℕ)
    → off ≤ block_size
    → (off + length (padding off)) % block_size ≡ begins off % block_size
padded_block off le = elim (Bool-cases (ltb (block_size - off) log_header_size)) [
  | inl near ↦ rw near (omega (arith, length-trailer (block_size - off), le))
  | inr far ↦ rw far (omega arith)
]

abbrev pub room : ℕ → ℕ
room off = block_size - begins off - log_header_size

abbrev pub cut : ℕ → Slice → ℕ
cut off s = if ltb (length s) (room off) then length s else room off

module _ (little : Bool) (extend : ℕ → Slice → ℕ) (cs : IsChecksum extend) {W : Type 0}
    (file : WritableFile W) (holds : W → List ℕ) (wr : IsWriting file holds) where
  cut-fragment :
      (later : Slice → W × ℕ → Option (Status × W × ℕ)) (begin : Bool) (s : Slice) (w : W) (off : ℕ)
      (end : Bool) (k : ℕ)
      → (length s == cut off s) ≡ end
      → cut off s ≡ k
      → add_fragment little extend file later begin s (w, begins off) ≡ (
          emit_physical_record little extend file
            (fragment_type begin end)
            (take k s)
            w
            (begins off)
          >>= go_on little extend file later (drop k s))
  unfolding add_fragment
  cut-fragment later begin s w off end k ends cuts = rw (ends, cuts) refl

  fragment-bytes :
      (later : Slice → W × ℕ → Option (Status × W × ℕ)) (begin : Bool) (s : Slice) (w : W) (off : ℕ)
      → off ≤ block_size
      → (end : Bool) (k : ℕ) → (length s == cut off s) ≡ end
      → cut off s ≡ k
      → k ≤ room off
      → (w' : W) × (add_fragment little extend file later begin s (w, begins off)
          ≡ go_on little extend file later (drop k s) (ok, w', begins off + 7 + length (take k s)))
        × (holds w'
            ≡ holds w
              ++ (record_header little extend (fragment_type begin end) (take k s) ++ take k s))
  fragment-bytes later begin s w off le end k ends cuts fits =
      let em =
        emit-bytes little extend file holds wr (fragment_type begin end) (take k s) w (begins off)
          (omega (arith, length-take k s, fits))
          (omega (arith, length-take k s, fits, begins-le off le)) in
      (
        em.0,
        cut-fragment later begin s w off end k ends cuts
            ∙ ap (λ o. o >>= go_on little extend file later (drop k s)) em.1,
        em.2,
      )

  pub one-round :
      (n : ℕ) (begin : Bool) (s : Slice) (w : W) (off : ℕ)
      → off ≤ block_size
      → add_fragments little extend file (suc n) begin s (w, off)
        ≡ add_fragment little extend file
            (add_fragments little extend file n false)
            begin
            s
            (switch_block little extend file w off)
  unfolding add_fragments
  one-round n begin s w off le =
      ap
        (λ b.
          if b
          then add_fragment little extend file (add_fragments little extend file n false) begin s
              (switch_block little extend file w off)
          else none)
        (le→leb off block_size le)

  pub round-bytes :
      (n : ℕ) (begin : Bool) (s : Slice) (w : W) (off : ℕ)
      → off ≤ block_size
      → (end : Bool) (k : ℕ) → (length s == cut off s) ≡ end
      → cut off s ≡ k
      → k ≤ room off
      → (w' : W) × (add_fragments little extend file (suc n) begin s (w, off)
          ≡ go_on little extend file
              (add_fragments little extend file n false)
              (drop k s)
              (ok, w', begins off + 7 + length (take k s)))
        × (holds w'
            ≡ holds w
              ++ (padding off
                  ++ (record_header little extend (fragment_type begin end) (take k s)
                      ++ take k s)))
  round-bytes n begin s w off le end k ends cuts fits =
      let sw = switch-bytes little extend file holds wr w off in
      let later = add_fragments little extend file n false in
      let fr = fragment-bytes later begin s sw.0 off le end k ends cuts fits in
      (
        fr.0,
        one-round n begin s w off le
            ∙ ap (add_fragment little extend file later begin s) sw.1
            ∙ fr.1,
        fr.2
            ∙ ap
                (λ l.
                  l
                  ++ (record_header little extend (fragment_type begin end) (take k s) ++ take k s))
                sw.2
            ∙ append_assoc (holds w) (padding off) _,
      )
