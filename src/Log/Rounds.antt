-- ===== src/Log/Rounds.antt =====
-- The rounds of AddRecord over one record, and those of ReadRecord over what they wrote.
pub mod Bytes
pub mod Copied
use mathlib.Core.Path.{subst}
use terp_builder.Base.{
  ℕ, zero, suc, ◌+◌, ◌-◌, ◌%◌, ◌≤◌, ◌<◌, ◌≡◌, ◌⊎◌, refl, ap, ◌∙◌, arith, Bool, true, false, some,
  inl, inr,
}
use terp_builder.Base.{
  List, [], ◌++◌, length, take, drop, append_assoc, ltb, if◌then◌else◌, lt→ltb, ltb→lt, Bool-cases,
  length-take, length-drop, length-append,
}
use terp_builder.Slice.{Slice}
use terp_builder.Status.{ok}
use terp_builder.Env.{WritableFile, IsWriting, SequentialFile, IsReading}
use terp_builder.Log.{IsChecksum, block_size}
use terp_builder.Log.Writer.{record_header, add_fragments, go_on, fragment_type}
use terp_builder.Log.Fragment.{length-header}
use terp_builder.Log.Aligned.{IsAligned, padding, begins}
use terp_builder.Log.Rounds.Bytes.{
  fragment_type-IsFragment, take_all, drop_all, begins-le, padded_block, room, round-bytes,
}
use terp_builder.Log.Rounds.Copied.{IsCopied, last_copied, more_copied}

module _ (little : Bool) (extend : ℕ → Slice → ℕ) (cs : IsChecksum extend) {W : Type 0}
    (file : WritableFile W) (holds : W → List ℕ) (wr : IsWriting file holds) where
  module _ {F : Type 0} (file_ops : SequentialFile F) (left : F → List ℕ)
      (rd : IsReading file_ops left) (has_reporter checksum : Bool) where
    last_round :
        (n : ℕ) (begin : Bool) (s : Slice) (w : W) (off : ℕ)
        → off ≤ block_size
        → length s ≤ room off
        → IsCopied little extend cs file holds wr file_ops left rd has_reporter checksum
            (suc n)
            begin
            s
            w
            off
    last_round n begin s w off le fits =
        let rb =
          round-bytes little extend cs file holds wr n begin s w off le true (length s)
            (ground (arith, fits)) (ground (arith, fits)) fits in
        let t = fragment_type begin true in
        let header = record_header little extend t s in
        record {
          dest = rb.0;
          offset = begins off + 7 + length s;
          text = padding off ++ (header ++ s);
          written = rb.1 ∙ rw (drop_all s, take_all s) refl;
          held =
              rb.2
              ∙ ap (λ l. holds w ++ (padding off ++ (record_header little extend t l ++ l)))
                  (take_all s);
          inside = omega (arith, fits, begins-le off le);
          sized =
              ap (λ n. (off + n) % block_size)
                (length-append (padding off) (header ++ s)
                  ∙ ap (λ n. length (padding off) + n) (length-append header s))
              ∙ ap (λ n. (off + (length (padding off) + (n + length s))) % block_size)
                  (length-header little extend cs t s [] (fragment_type-IsFragment begin true)
                    (omega (arith, fits)))
              ∙ omega (arith, padded_block off le);
          copied = λ m p r rest enough part al.
              last_copied little extend cs file holds wr file_ops left rd has_reporter checksum n
                begin s off le fits m p r rest enough part
                (subst (IsAligned left r off)
                  (append_assoc (padding off) (header ++ s) rest
                    ∙ ap (λ l. padding off ++ l) (append_assoc header s rest))
                  al);
        }

    module _ (n : ℕ) (begin : Bool) (s : Slice) (w : W) (off : ℕ) (le : off ≤ block_size)
        (long : room off < length s) where
      abbrev front : Slice
      front = take (room off) s

      abbrev back : Slice
      back = drop (room off) s

      abbrev header : Slice
      header = record_header little extend (fragment_type begin false) front

      first_bytes :
          (w' : W) × (add_fragments little extend file (suc n) begin s (w, off)
            ≡ go_on little extend file
                (add_fragments little extend file n false)
                back
                (ok, w', begins off + 7 + length front))
          × (holds w' ≡ holds w ++ (padding off ++ (header ++ front)))
      first_bytes =
          round-bytes little extend cs file holds wr n begin s w off le false (room off)
            (ground (arith, long)) (ground (arith, long)) (omega arith)

      full : begins off + 7 + length front ≡ block_size
      full = omega (arith, length-take (room off) s, long, begins-le off le)

      module _
          (rest : IsCopied little extend cs file holds wr file_ops left rd has_reporter checksum n
            false back first_bytes.0 block_size) where
        abbrev more_text : List ℕ
        more_text = padding off ++ ((header ++ front) ++ rest.text)

        more_written :
            add_fragments little extend file (suc n) begin s (w, off)
            ≡ some (ok, rest.dest, rest.offset)
        more_written =
            first_bytes.1
            ∙ ap
                (λ o.
                  go_on little extend file (add_fragments little extend file n false) back
                    (ok, first_bytes.0, o))
                full
            ∙ ap
                (λ b.
                  if b
                  then add_fragments little extend file n false back (first_bytes.0, block_size)
                  else some (ok, first_bytes.0, block_size))
                (lt→ltb 0 (length back) (omega (arith, length-drop (room off) s, long)))
            ∙ rest.written

        more_held : holds rest.dest ≡ holds w ++ more_text
        more_held =
            rest.held
            ∙ ap (λ l. l ++ rest.text) first_bytes.2
            ∙ append_assoc (holds w) (padding off ++ (header ++ front)) rest.text
            ∙ ap (λ l. holds w ++ l) (append_assoc (padding off) (header ++ front) rest.text)

        more_sized : (off + length more_text) % block_size ≡ rest.offset % block_size
        more_sized = omega (
          arith,
          length-append (padding off) ((header ++ front) ++ rest.text),
          length-append (header ++ front) rest.text,
          length-append header front,
          length-header little extend cs (fragment_type begin false) front []
              (fragment_type-IsFragment begin false) (omega (arith, length-take (room off) s)),
          padded_block off le,
          full,
          rest.sized,
        )

        more_assoc :
            (stream : List ℕ)
            → more_text ++ stream ≡ padding off ++ (header ++ (front ++ (rest.text ++ stream)))
        more_assoc stream =
            append_assoc (padding off) ((header ++ front) ++ rest.text) stream
            ∙ ap (λ l. padding off ++ l)
                (append_assoc (header ++ front) rest.text stream
                  ∙ append_assoc header front (rest.text ++ stream))

        more_rounds :
            IsCopied little extend cs file holds wr file_ops left rd has_reporter checksum
              (suc n)
              begin
              s
              w
              off
        more_rounds = record {
          dest = rest.dest;
          offset = rest.offset;
          text = more_text;
          written = more_written;
          held = more_held;
          inside = rest.inside;
          sized = more_sized;
          copied = λ m p r stream enough part al.
              more_copied little extend cs file holds wr file_ops left rd has_reporter checksum n
                begin s off le long rest.offset rest.text rest.copied m p r stream enough part
                (subst (IsAligned left r off) (more_assoc stream) al);
        }

    pub all_rounds :
        (n : ℕ) (begin : Bool) (s : Slice) (w : W) (off : ℕ)
        → off ≤ block_size
        → length s + 1 ≤ n
        → (off ≡ block_size) ⊎ (length s + 2 ≤ n)
        → IsCopied little extend cs file holds wr file_ops left rd has_reporter checksum n begin s w
            off
    all_rounds zero begin s w off le few enough = absurd (omega arith)
    all_rounds (suc n) begin s w off le few enough = elim (Bool-cases (ltb (room off) (length s))) [
      | inl long ↦
          let fits = ltb→lt _ _ long in
          more_rounds n begin s w off le fits (
            all_rounds n false (drop (room off) s) (first_bytes n begin s w off le fits).0
              block_size (omega arith) (ground (arith, length-drop (room off) s, enough, long))
              (inl refl))
      | inr short ↦ last_round n begin s w off le (ground (arith, short))
    ]
