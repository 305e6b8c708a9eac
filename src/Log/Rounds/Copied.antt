-- ===== src/Log/Rounds/Copied.antt =====
-- The rounds of ReadRecord on the bytes of a round of AddRecord.
use mathlib.Core.Path.{subst}
use terp_builder.Base.{
  ℕ, zero, suc, ◌+◌, ◌%◌, ◌≤◌, ◌<◌, ◌≡◌, ap, ◌∙◌, arith, Bool, true, false, Option, some,
}
use terp_builder.Base.{List, ◌++◌, length, take, drop, append_assoc, length-take, take-append-drop}
use terp_builder.Slice.{Slice}
use terp_builder.Status.{ok}
use terp_builder.Env.{WritableFile, IsWriting, SequentialFile, IsReading}
use terp_builder.Log.{IsChecksum, block_size}
use terp_builder.Log.Writer.{record_header, add_fragments, fragment_type}
use terp_builder.Log.Reader.{Reader, Partial, read_rounds, read_round, turned}
use terp_builder.Log.Aligned.{IsAligned, padding, begins}
use terp_builder.Log.Aligned.Read.{read-fragment}
use terp_builder.Log.Turns.{IsPartial, round_end, round_more}
use terp_builder.Log.Rounds.Bytes.{fragment_type-IsFragment, begins-le, room}

module _ (little : Bool) (extend : ℕ → Slice → ℕ) (cs : IsChecksum extend) {W : Type 0}
    (file : WritableFile W) (holds : W → List ℕ) (wr : IsWriting file holds) where
  module _ {F : Type 0} (file_ops : SequentialFile F) (left : F → List ℕ)
      (rd : IsReading file_ops left) (has_reporter checksum : Bool) where
    abbrev pub rounds : ℕ → Partial → Reader F → Option (Bool × Slice × Reader F)
    rounds = read_rounds little extend file_ops has_reporter checksum 0

    -- The rounds of the writer return, and those of the reader read from what they wrote the rest of
    -- the record.
    pub record IsCopied (n : ℕ) (begin : Bool) (s : Slice) (w : W) (off : ℕ) : Type 0 where
      pub dest : W
      pub offset : ℕ
      pub text : List ℕ
      pub written : add_fragments little extend file n begin s (w, off) ≡ some (ok, dest, offset)
      pub held : holds dest ≡ holds w ++ text
      pub inside : offset ≤ block_size
      pub sized : (off + length text) % block_size ≡ offset % block_size
      pub copied :
          (m : ℕ) (p : Partial) (r : Reader F) (rest : List ℕ)
          → n ≤ m
          → IsPartial begin p
          → IsAligned left r off (text ++ rest)
          → (r' : Reader F) × (rounds m p r ≡ some (true, p.scratch ++ s, r'))
            × IsAligned left r' offset rest

    pub last_copied :
        (n : ℕ) (begin : Bool) (s : Slice) (off : ℕ)
        → off ≤ block_size
        → length s ≤ room off
        → (m : ℕ) (p : Partial) (r : Reader F) (rest : List ℕ) → suc n ≤ m
        → IsPartial begin p
        → IsAligned left r off (
            padding off
            ++ (record_header little extend (fragment_type begin true) s ++ (s ++ rest)))
        → (r' : Reader F) × (rounds m p r ≡ some (true, p.scratch ++ s, r'))
          × IsAligned left r' (begins off + 7 + length s) rest
    unfolding read_rounds
    last_copied n begin s off le fits zero p r rest enough part al = absurd (omega arith)
    last_copied n begin s off le fits (suc m) p r rest enough part al =
        let rf =
          read-fragment little extend cs file_ops left rd has_reporter checksum r off
            (fragment_type begin true) s rest (fragment_type-IsFragment begin true)
            (omega (arith, fits)) (omega (arith, fits, begins-le off le)) al in
        let re =
          round_end little extend file_ops left has_reporter checksum begin p s rf.0
            (begins off + 7 + length s) rest part rf.2 in
        (
          re.0,
          ap
                (λ x.
                  turned little extend file_ops has_reporter checksum 0 (rounds m)
                    (read_round little extend file_ops has_reporter checksum 0 p x))
                rf.1
              ∙ ap (turned little extend file_ops has_reporter checksum 0 (rounds m)) re.1,
          re.2,
        )

    pub more_copied :
        (n : ℕ) (begin : Bool) (s : Slice) (off : ℕ)
        → off ≤ block_size
        → room off < length s
        → (offset : ℕ) (text : List ℕ)
        → ((m : ℕ) (p : Partial) (r : Reader F) (rest : List ℕ)
            → n ≤ m
            → IsPartial false p
            → IsAligned left r block_size (text ++ rest)
            → (r' : Reader F) × (rounds m p r ≡ some (true, p.scratch ++ drop (room off) s, r'))
              × IsAligned left r' offset rest)
        → (m : ℕ) (p : Partial) (r : Reader F) (rest : List ℕ) → suc n ≤ m
        → IsPartial begin p
        → IsAligned left r off (
            padding off
            ++ (record_header little extend (fragment_type begin false) (take (room off) s)
                ++ (take (room off) s ++ (text ++ rest))))
        → (r' : Reader F) × (rounds m p r ≡ some (true, p.scratch ++ s, r'))
          × IsAligned left r' offset rest
    unfolding read_rounds
    more_copied n begin s off le long offset text later zero p r rest enough part al =
        absurd (omega arith)
    more_copied n begin s off le long offset text later (suc m) p r rest enough part al =
        let front = take (room off) s in
        let rf =
          read-fragment little extend cs file_ops left rd has_reporter checksum r off
            (fragment_type begin false) front (text ++ rest) (fragment_type-IsFragment begin false)
            (omega (arith, length-take (room off) s))
            (omega (arith, length-take (room off) s, begins-le off le)) al in
        let rm =
          round_more little extend file_ops left has_reporter checksum begin p front rf.0
            (begins off + 7 + length front) (text ++ rest) part rf.2 in
        let aligned =
          subst (λ o. IsAligned left rm.1 o (text ++ rest)) {x = begins off + 7 + length front}
            {y = block_size} (omega (arith, length-take (room off) s, long, begins-le off le))
            rm.5 in
        let rl = later m rm.0 rm.1 rest (omega arith) rm.3 aligned in
        (
          rl.0,
          ap
                (λ x.
                  turned little extend file_ops has_reporter checksum 0 (rounds m)
                    (read_round little extend file_ops has_reporter checksum 0 p x))
                rf.1
              ∙ ap (turned little extend file_ops has_reporter checksum 0 (rounds m)) rm.2
              ∙ rl.1
              ∙ ap (λ l. some (true, l, rl.0))
                  (ap (λ l. l ++ drop (room off) s) rm.4
                    ∙ append_assoc p.scratch front (drop (room off) s)
                    ∙ ap (λ l. p.scratch ++ l) (take-append-drop (room off) s)),
          rl.2,
        )
