-- ===== src/Env/Text.antt =====
-- Terp_Builder/Pods/leveldb-library/util/env.cc: ReadFileToString, with the files of an unknown file system S.
use terp_builder.Base.{
  ℕ, zero, suc, ◌<◌, ◌≡◌, refl, sym, ap, ◌∙◌, arith, false, Option, none, some, inl, inr,
}
use terp_builder.Base.{
  List, [], ◌∷◌, ◌++◌, length, append_assoc, append-nil, length-append, Bool-cases, ◌==◌,
  if◌then◌else◌, ==_iff,
}
use terp_builder.Slice.{Slice}
use terp_builder.Status.{Status, ok}
use terp_builder.Env.{SequentialFile, IsSequential, IsRead}

abbrev pub buffer_size : ℕ
buffer_size = 8192

positive : (n : ℕ) → (n == 0) ≡ false → 0 < n
positive n h = ground arith

nil_all : (xs : List ℕ) → length xs ≡ 0 → xs ≡ []
nil_all [] h = refl
nil_all (x ∷ xs) h = absurd (omega (arith, h))

module _ {F : Type 0} (file : SequentialFile F) where
  -- What a read makes of the string so far: an error ends the loop, and so does an empty fragment.
  abbrev pub after_read :
      List ℕ
      → (List ℕ → F → Option (Status × List ℕ))
      → Status × Slice × F
      → Option (Status × List ℕ)
  after_read text again (ok, fragment, f) =
      let more = again (text ++ fragment) f in
      if length fragment == 0 then some (ok, text ++ fragment) else more
  after_read text again (Status.error c msg, fragment, f) = some (Status.error c msg, text)

  -- The loop; `none` where the fuel runs out.
  unfoldable pub read_all : ℕ → List ℕ → F → Option (Status × List ℕ)
  read_all zero text f = none
  read_all (suc n) text f = after_read text (read_all n) (file.read buffer_size f)

  abbrev pub read_opened : ℕ → Status × F → Option (Status × List ℕ)
  read_opened n (ok, f) = read_all n [] f
  read_opened n (Status.error c msg, f) = some (Status.error c msg, [])

  -- `open_file` is NewSequentialFile of the Env.
  unfoldable pub read_file_to_string :
      {S : Type 0} → (List ℕ → S → Status × F) → ℕ → List ℕ → S → Option (Status × List ℕ)
  read_file_to_string open_file n fname s = read_opened n (open_file fname s)

  module _ (left : F → List ℕ) (seq : IsSequential file left) where
    -- What a reading that ends gives: all that was left, with a good status; or the status of a read
    -- that failed, with what stands before some rest.
    abbrev pub Gives : List ℕ → List ℕ → Status × List ℕ → Type 0
    Gives text bytes (ok, contents) = contents ≡ text ++ bytes
    Gives text bytes (Status.error c msg, contents) =
        (failed : F) × (before : List ℕ) × (rest : List ℕ) × ((file.read buffer_size failed).0
          ≡ Status.error c msg)
        × (contents ≡ text ++ before)
        × (bytes ≡ before ++ rest)

    longer-Gives :
        (text fragment bytes later : List ℕ) (result : Status × List ℕ)
        → bytes ≡ fragment ++ later
        → Gives (text ++ fragment) later result
        → Gives text bytes result
    longer-Gives text fragment bytes later (ok, contents) e given =
        given ∙ append_assoc text fragment later ∙ ap (λ l. text ++ l) (sym e)
    longer-Gives text fragment bytes later (Status.error c msg, contents) e given =
        let (failed, before, rest, status, whose, whole) = given in
        (
          failed,
          fragment ++ before,
          rest,
          status,
          whose ∙ append_assoc text fragment before,
          e ∙ ap (λ l. fragment ++ l) whole ∙ sym (append_assoc fragment before rest),
        )

    Returns : ℕ → List ℕ → F → Type 0
    Returns n text f =
        (result : Status × List ℕ) × (read_all n text f ≡ some result) × Gives text (left f) result

    by_read :
        (n : ℕ) (text : List ℕ) (f : F) (x : Status × Slice × F)
        → (file.read buffer_size f).0 ≡ x.0
        → IsRead left buffer_size (left f) x
        → ((text : List ℕ) (f' : F) → length (left f') < n → Returns n text f')
        → length (left f) < suc n
        → (result : Status × List ℕ) × (after_read text (read_all n) x ≡ some result)
          × Gives text (left f) result
    unfolding Returns
    by_read n text f (Status.error c msg, fragment, f') e is later enough =
        ((Status.error c msg, text), refl, (f, [], left f, e, sym (append-nil text), refl))
    by_read n text f (ok, fragment, f') e is later enough =
        elim (Bool-cases (length fragment == 0)) [
          | inl empty ↦
              let none_read : length fragment ≡ 0 = (==_iff (length fragment) 0).0 empty in
              let none_left : length (left f) ≡ 0 = elim (Bool-cases (length (left f) == 0)) [
                | inl over ↦ (==_iff (length (left f)) 0).0 over
                | inr more ↦ absurd (omega (arith, none_read, is.1 (omega arith) (positive _ more)))
              ] in
              (
                (ok, text ++ fragment),
                rw empty refl,
                ap (λ l. text ++ l) (nil_all fragment none_read ∙ sym (nil_all (left f) none_left)),
              )
          | inr more ↦
              let (result, run, given) = later (text ++ fragment) f' (
                omega (
                  arith,
                  enough,
                  ap length is.0,
                  length-append fragment (left f'),
                  positive _ more,
                )) in
              (result, rw more run, longer-Gives text fragment (left f) (left f') result is.0 given)
        ]

    read_all-Returns : (n : ℕ) (text : List ℕ) (f : F) → length (left f) < n → Returns n text f
    unfolding read_all Returns
    read_all-Returns zero text f enough = absurd (omega (arith, enough))
    read_all-Returns (suc n) text f enough =
        by_read n text f (file.read buffer_size f) refl (seq.reads buffer_size f)
          (read_all-Returns n) enough

    -- The same of ReadFileToString, for what NewSequentialFile has given.
    abbrev pub IsText : Status × F → Status × List ℕ → Type 0
    IsText (ok, f) result = Gives [] (left f) result
    IsText (Status.error c msg, f) result = result ≡ (Status.error c msg, [])

    -- ReadFileToString returns, for a file whose reads take bytes off its front, may give fewer than
    -- are asked for and may fail: a good status and all that the file held, or the status of a read
    -- that failed and what stands before some rest of what the file held. A file that is not opened
    -- gives the status of that and the empty string. A round for each byte of the file, and one
    -- more, is enough.
    pub read_file_to_string_lem :
        {S : Type 0} (open_file : List ℕ → S → Status × F) (n : ℕ) (fname : List ℕ) (s : S)
        → length (left ((open_file fname s).1)) < n
        → (result : Status × List ℕ) × (read_file_to_string open_file n fname s ≡ some result)
          × IsText (open_file fname s) result
    unfolding read_file_to_string Returns
    read_file_to_string_lem open_file n fname s enough = opened (open_file fname s) enough
      where
        opened :
            (x : Status × F)
            → length (left x.1) < n
            → (result : Status × List ℕ) × (read_opened n x ≡ some result) × IsText x result
        opened (ok, f) h = read_all-Returns n [] f h
        opened (Status.error c msg, f) h = ((Status.error c msg, []), refl, refl)
