-- ===== src/Tests/Logs.antt =====
-- Runs of the log: a file that is a list of bytes, and a checksum that adds.
use terp_builder.Base.{ℕ, suc, ◌+◌, ◌%◌, ◌^◌, ◌≡◌, refl, arith, Bool, true, some}
use terp_builder.Base.{
  List, [], ◌∷◌, ◌++◌, length, take, drop, length-take, length-drop, ltb, if◌then◌else◌, Bool-cases,
  inl, inr,
}
use terp_builder.Base.{get_or, ◌==◌, sym, take-append-drop}
use terp_builder.Slice.{Slice}
use terp_builder.Status.{Status, ok, io_error}
use terp_builder.Env.{WritableFile, IsWriting, SequentialFile, IsReading, IsFinite, IsSequential}
use terp_builder.Env.Text.{read_file_to_string, read_file_to_string_lem, IsText}
use terp_builder.Log.{IsChecksum}
use terp_builder.Log.Reader.{Reader, reader, read_record}
use terp_builder.Log.Session.{read_log}
use terp_builder.Log.RoundTrip.{write_sessions, joined, read_log-write_sessions}
use terp_builder.Log.Ends.{read_record-Returns}

abbrev total : Slice → ℕ
total [] = 0
total (b ∷ s) = b + total s

abbrev adding : ℕ → Slice → ℕ
adding crc s = (crc + total s) % 2 ^ 32

total-append : (s t : Slice) → total (s ++ t) ≡ total s + total t
total-append [] t = omega arith
total-append (b ∷ s) t = omega (arith, total-append s t)

adding-IsChecksum : IsChecksum adding
adding-IsChecksum = record {
  extends = λ s t. omega (arith, total-append s t);
  small = λ crc s. omega arith;
}

abbrev growing : WritableFile (List ℕ)
growing = record {
  append = λ s w. (ok, w ++ s);
  close = λ w. (ok, w);
  flush = λ w. (ok, w);
  sync = λ w. (ok, w);
}

growing-IsWriting : IsWriting growing (λ w. w)
growing-IsWriting = record {
  append_ok = λ s w. refl;
  append_holds = λ s w. refl;
  flush_ok = λ w. refl;
  flush_holds = λ w. refl;
}

abbrev shrinking : SequentialFile (List ℕ)
shrinking = record { read = λ n f. (ok, take n f, drop n f); skip = λ n f. (ok, drop n f) }

shrinking-IsReading : IsReading shrinking (λ f. f)
shrinking-IsReading = record {
  read_ok = λ n f. refl;
  read_bytes = λ n f. refl;
  read_left = λ n f. refl;
  skip_ok = λ n f. refl;
  skip_left = λ n f. refl;
}

-- Two sessions, with an empty record.
abbrev sessions : List (List Slice)
sessions = ((1 ∷ 2 ∷ []) ∷ [] ∷ []) ∷ ((3 ∷ []) ∷ []) ∷ []

read_log-write_sessions_example :
    (w' : List ℕ) × (r : Reader (List ℕ)) × (write_sessions true adding growing
        (λ w. length w)
        sessions
        []
      ≡ some (ok, w'))
    × (read_log true adding shrinking true true 9
          (suc (length (joined sessions)))
          (reader true adding shrinking true true 0 w')
        ≡ some (joined sessions, r))
    × (r.drops ≡ [])
read_log-write_sessions_example =
    read_log-write_sessions true adding adding-IsChecksum growing (λ w. w) growing-IsWriting
      shrinking (λ f. f) shrinking-IsReading true true sessions [] (λ w. w) refl (λ w. refl) 9
      (omega arith)

-- A file that fails where less than eight bytes are left, and cannot be skipped.
abbrev failed : Status
failed = Status.error io_error []

abbrev failing : SequentialFile (List ℕ)
failing = record {
  read = λ n f. if ltb (length f) 8 then (failed, [], f) else (ok, take n f, drop n f);
  skip = λ n f. (failed, f);
}

failing-IsFinite : IsFinite failing length
failing-IsFinite = record {
  read_within = λ n f. elim (Bool-cases (ltb (length f) 8)) [
    | inl few ↦ rw few (omega arith)
    | inr enough ↦ rw enough (omega (arith, length-take n f, length-drop n f))
  ];
  skip_within = λ n f. omega arith;
}

-- Eight bytes that are no log.
read_record-Returns_example :
    (result : Bool × Slice × Reader (List ℕ)) × (read_record true adding failing true true 0 9
        (reader true adding failing true true 0 (1 ∷ 2 ∷ 3 ∷ 4 ∷ 5 ∷ 0 ∷ 1 ∷ 9 ∷ []))
      ≡ some result)
read_record-Returns_example =
    read_record-Returns true adding failing length failing-IsFinite true true 0 9
      (reader true adding failing true true 0 (1 ∷ 2 ∷ 3 ∷ 4 ∷ 5 ∷ 0 ∷ 1 ∷ 9 ∷ [])) (omega arith)

-- A file that gives a byte at a time, and fails at a zero.
abbrev dripping : SequentialFile (List ℕ)
dripping = record {
  read = λ n f. if get_or f 0 1 == 0 then (failed, [], f) else (ok, take 1 f, drop 1 f);
  skip = λ n f. (ok, drop n f);
}

dripping-IsSequential : IsSequential dripping (λ f. f)
dripping-IsSequential = record {
  reads = λ n f. elim (Bool-cases (get_or f 0 1 == 0)) [
    | inl zero_next ↦ rw zero_next tt
    | inr other ↦ rw other (
      sym (take-append-drop 1 f),
      λ positive some_left. omega (arith, length-take 1 f, some_left),
    )
  ];
}

read_file_to_string_lem_example :
    (result : Status × List ℕ) × (read_file_to_string dripping
        (λ fname (s : List ℕ). (ok, s))
        5
        []
        (7 ∷ 8 ∷ 0 ∷ 9 ∷ [])
      ≡ some result)
    × IsText dripping (λ f. f) dripping-IsSequential (ok, 7 ∷ 8 ∷ 0 ∷ 9 ∷ []) result
read_file_to_string_lem_example =
    read_file_to_string_lem dripping (λ f. f) dripping-IsSequential (λ fname (s : List ℕ). (ok, s))
      5 [] (7 ∷ 8 ∷ 0 ∷ 9 ∷ []) (omega arith)
