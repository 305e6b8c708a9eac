-- ===== src/Log/Session.antt =====
-- The records that one Writer writes to a log, and that a Reader finds there.
use mathlib.Core.Path.{subst}
use terp_builder.Base.{
  ◌%◌, ℕ, zero, suc, ◌+◌, ◌≤◌, ◌≡◌, refl, sym, ap, ◌∙◌, arith, Bool, true, false, Option, none,
  some, inr,
}
use terp_builder.Base.{
  List, [], ◌∷◌, ◌++◌, length, append_assoc, append-nil, length-append, ◌>>=◌, if◌then◌else◌,
  le→ltb,
}
use terp_builder.Slice.{Slice}
use terp_builder.Status.{Status, ok}
use terp_builder.Env.{WritableFile, IsWriting, SequentialFile, IsReading}
use terp_builder.Log.{IsChecksum, block_size}
use terp_builder.Log.Writer.{add_record}
use terp_builder.Log.Reader.{
  Reader, no_partial, read_record, skip_to_initial_block, read_rounds, read_round, on_type, turned,
}
use terp_builder.Log.Aligned.{IsAligned}
use terp_builder.Log.Aligned.Read.{read-end}
use terp_builder.Log.Rounds.{all_rounds}
use terp_builder.Log.Rounds.Copied.{IsCopied}

module _ (little : Bool) (extend : ℕ → Slice → ℕ) {W : Type 0} (file : WritableFile W) where
  abbrev pub write_more :
      (W × ℕ → Option (Status × W × ℕ)) → Status × W × ℕ → Option (Status × W × ℕ)
  write_more later (ok, w, off) = later (w, off)
  write_more later (Status.error c msg, w, off) = some (Status.error c msg, w, off)

  -- Records one after the other, until one is refused.
  abbrev pub write_log : List Slice → W × ℕ → Option (Status × W × ℕ)
  write_log [] (w, off) = some (ok, w, off)
  write_log (s ∷ ss) (w, off) =
      add_record little extend file s (w, off) >>= write_more (write_log ss)

abbrev pub put_first : {F : Type 0} → Slice → List Slice × Reader F → Option (List Slice × Reader F)
put_first s (ss, r) = some (s ∷ ss, r)

abbrev pub put_all :
    {F : Type 0} → List Slice → List Slice × Reader F → Option (List Slice × Reader F)
put_all front (ss, r) = some (front ++ ss, r)

put-twice :
    {F : Type 0} (s : Slice) (ss : List Slice) (o : Option (List Slice × Reader F))
    → (o >>= put_all ss >>= put_first s) ≡ (o >>= put_all (s ∷ ss))
put-twice s ss none = refl
put-twice s ss (some (more, r)) = refl

put-none : {F : Type 0} (o : Option (List Slice × Reader F)) → o ≡ (o >>= put_all [])
put-none none = refl
put-none (some (ss, r)) = refl

abbrev pub read_more :
    {F : Type 0}
    → (Reader F → Option (List Slice × Reader F))
    → Bool × Slice × Reader F
    → Option (List Slice × Reader F)
read_more later (true, s, r) = later r >>= put_first s
read_more later (false, s, r) = some ([], r)

module _ (little : Bool) (extend : ℕ → Slice → ℕ) {F : Type 0} (file_ops : SequentialFile F)
    (has_reporter checksum : Bool) (fuel : ℕ) where
  -- Records until there is none, or as many as the number.
  abbrev pub read_log : ℕ → Reader F → Option (List Slice × Reader F)
  read_log zero r = none
  read_log (suc n) r =
      read_record little extend file_ops has_reporter checksum 0 fuel r >>= read_more (read_log n)

abbrev pub volume : List Slice → ℕ
volume [] = 0
volume (s ∷ ss) = length s + volume ss

module _ (little : Bool) (extend : ℕ → Slice → ℕ) (cs : IsChecksum extend) {W : Type 0}
    (file : WritableFile W) (holds : W → List ℕ) (wr : IsWriting file holds) {F : Type 0}
    (file_ops : SequentialFile F) (left : F → List ℕ) (rd : IsReading file_ops left)
    (has_reporter checksum : Bool) where
  read-rounds :
      (m : ℕ) (r : Reader F)
      → read_record little extend file_ops has_reporter checksum 0 m r
        ≡ read_rounds little extend file_ops has_reporter checksum 0 m no_partial r
  unfolding read_record
  read-rounds m r =
      ap
        (λ b.
          if b
          then (if (skip_to_initial_block little extend file_ops has_reporter checksum 0 r).0
              then read_rounds little extend file_ops has_reporter checksum 0 m no_partial
                  ((skip_to_initial_block little extend file_ops has_reporter checksum 0 r).1)
              else some (
                false,
                [],
                (skip_to_initial_block little extend file_ops has_reporter checksum 0 r).1,
              ))
          else read_rounds little extend file_ops has_reporter checksum 0 m no_partial r)
        (le→ltb r.last_record_offset 0 (omega arith))

  pub at_log_end :
      (m : ℕ) (r : Reader F) (off : ℕ)
      → 1 ≤ m
      → IsAligned left r off []
      → (r' : Reader F) × (read_record little extend file_ops has_reporter checksum 0 m r
          ≡ some (false, [], r'))
        × (r'.drops ≡ [])
  unfolding read_rounds read_round on_type
  at_log_end zero r off le al = absurd (omega arith)
  at_log_end (suc m) r off le al =
      let end = read-end little extend cs file_ops left rd has_reporter checksum r off al in
      (
        record end.0 { resyncing = false },
        read-rounds (suc m) r
            ∙ ap
                (λ x.
                  turned little extend file_ops has_reporter checksum 0
                    (read_rounds little extend file_ops has_reporter checksum 0 m)
                    (read_round little extend file_ops has_reporter checksum 0 no_partial x))
                end.1
            ∙ rw end.3 refl,
        end.2,
      )

  -- What a Writer writes from here is read from here.
  pub record IsRead (ss : List Slice) (w : W) (off : ℕ) : Type 0 where
    pub dest : W
    pub offset : ℕ
    pub text : List ℕ
    pub written : write_log little extend file ss (w, off) ≡ some (ok, dest, offset)
    pub held : holds dest ≡ holds w ++ text
    pub inside : offset ≤ block_size
    pub sized : (off + length text) % block_size ≡ offset % block_size
    pub read :
        (m k : ℕ) (r : Reader F) (rest : List ℕ)
        → volume ss + 2 ≤ m
        → IsAligned left r off (text ++ rest)
        → (r' : Reader F) × (read_log little extend file_ops has_reporter checksum m
              (length ss + k)
              r
            ≡ (read_log little extend file_ops has_reporter checksum m k r' >>= put_all ss))
          × IsAligned left r' offset rest

  cons-IsRead :
      (s : Slice) (ss : List Slice) (w : W) (off : ℕ)
      (first : IsCopied little extend cs file holds wr file_ops left rd has_reporter checksum
        (length s + 2)
        true
        s
        w
        off)
      → IsRead ss first.dest first.offset
      → IsRead (s ∷ ss) w off
  unfolding add_record
  cons-IsRead s ss w off first rest = record {
    dest = rest.dest;
    offset = rest.offset;
    text = first.text ++ rest.text;
    written =
        ap (λ o. o >>= write_more little extend file (write_log little extend file ss))
          first.written
        ∙ rest.written;
    held =
        rest.held
        ∙ ap (λ l. l ++ rest.text) first.held
        ∙ append_assoc (holds w) first.text rest.text;
    inside = rest.inside;
    sized = omega (arith, length-append first.text rest.text, first.sized, rest.sized);
    read = λ m k r more enough al.
        let head =
          first.copied m no_partial r (rest.text ++ more) (omega (arith, enough))
            (record { fragmented = refl; empty = λ e. refl })
            (subst (IsAligned left r off) (append_assoc first.text rest.text more) al) in
        let tail = rest.read m k head.0 more (omega (arith, enough)) head.2 in
        (
          tail.0,
          ap (λ n. read_log little extend file_ops has_reporter checksum m n r)
                {x = suc (length ss) + k} {y = suc (length ss + k)} (omega arith)
              ∙ ap
                  (λ o.
                    o
                    >>= read_more
                        (read_log little extend file_ops has_reporter checksum m (length ss + k)))
                  (read-rounds m r ∙ head.1)
              ∙ ap (λ o. o >>= put_first s) tail.1
              ∙ put-twice s ss (read_log little extend file_ops has_reporter checksum m k tail.0),
          tail.2,
        );
  }

  pub all-IsRead : (ss : List Slice) (w : W) (off : ℕ) → off ≤ block_size → IsRead ss w off
  all-IsRead [] w off le = record {
    dest = w;
    offset = off;
    text = [];
    written = refl;
    held = sym (append-nil (holds w));
    inside = le;
    sized = omega arith;
    read = λ m k r rest enough al. (
      r,
      ap (λ n. read_log little extend file_ops has_reporter checksum m n r) {x = 0 + k} {y = k}
            (omega arith)
          ∙ put-none (read_log little extend file_ops has_reporter checksum m k r),
      al,
    );
  }
  all-IsRead (s ∷ ss) w off le =
      let first =
        all_rounds little extend cs file holds wr file_ops left rd has_reporter checksum
          (length s + 2) true s w off le (omega arith) (inr (omega arith)) in
      cons-IsRead s ss w off first (all-IsRead ss first.dest first.offset first.inside)
