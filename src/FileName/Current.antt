-- ===== src/FileName/Current.antt =====
-- SetCurrentFile, over the file system of an Env.
use terp_builder.Base.{
  ℕ, ◌+◌, ◌≤◌, ◌<◌, ◌^◌, ◌≡◌, ◌≢◌, refl, sym, ap, ◌∙◌, arith, true, false, Option, none, some, List,
  [], ◌∷◌, ◌++◌, length, if◌then◌else◌, ◌>>=◌, ◌==◌, drop, drop_exact, append_assoc, length-append,
}
use terp_builder.Base.Text.{bytes}
use terp_builder.Slice.{starts_with, remove_prefix, remove_prefix-drop}
use terp_builder.Slice.Lexical.{starts_with_iff}
use terp_builder.FileName.Made.{parsed_below, parse_file_name-made, parse_file_name-fixed}
use terp_builder.Status.{Status, ok, is_ok}
use terp_builder.Env.System.{Env, IsFileSystem}
use terp_builder.Env.Whole.{
  if_ok, if_not_ok, write_string_to_file_sync, do_write_string_to_file_lem,
  do_write_string_to_file_beside,
}
use terp_builder.FileName.{
  FileType, temp_file, current_file, descriptor_file_name, temp_file_name, current_file_name,
  make_file_name, llu_06,
}

temp-current :
    (n : ℕ) (o : Option (Option (ℕ × FileType)))
    → o ≡ some (some (n, temp_file))
    → o ≢ some (some (0, current_file))
temp-current n o h k = cc (h, k)

module _ {S H : Type 0} (env : Env S H) where
  abbrev pub set_from : List ℕ → List ℕ → List ℕ → S → Option (Status × S)
  set_from dbname manifest tmp s = remove_prefix (length dbname + 1) manifest >>= λ contents. some (
      if_not_ok env (env.delete_file tmp) (
        if_ok (env.rename_file tmp (current_file_name dbname))
          (write_string_to_file_sync env (contents ++ (10 ∷ [])) tmp s)))

  -- `none` is a failed assertion.
  unfoldable pub set_current_file : List ℕ → ℕ → S → Option (Status × S)
  set_current_file dbname descriptor_number s =
      descriptor_file_name dbname descriptor_number >>= λ manifest.
      (if starts_with manifest (dbname ++ (47 ∷ []))
        then temp_file_name dbname descriptor_number
        else none)
      >>= λ tmp. set_from dbname manifest tmp s

  module _ (contents : S → List ℕ → Option (List ℕ)) where
    -- How SetCurrentFile leaves CURRENT: with `now`, as it was, or as a failed rename left it that was
    -- to replace it by a temporary file with `now`; the temporary file is then deleted.
    pub data IsOutcome (tmp current now : List ℕ) (s : S) (status : Status) (s' : S) : Type 0 where
      installed :
          status ≡ ok → contents s' current ≡ some now → IsOutcome tmp current now s status s'
      not_written :
          is_ok status ≡ false
          → contents s' current ≡ contents s current
          → IsOutcome tmp current now s status s'
      not_renamed :
          (written : S)
          → is_ok status ≡ false
          → contents written tmp ≡ some now
          → contents written current ≡ contents s current
          → (env.rename_file tmp current written).0 ≡ status
          → s' ≡ (env.delete_file tmp ((env.rename_file tmp current written).1)).1
          → contents s' current ≡ contents ((env.rename_file tmp current written).1) current
          → IsOutcome tmp current now s status s'

  module _ (contents : S → List ℕ → Option (List ℕ)) (name_of : H → List ℕ)
      (fs : IsFileSystem env contents name_of) (dbname : List ℕ) (n : ℕ) (positive : 0 < n)
      (small : n < 2 ^ 64) (s : S) where
    abbrev now : List ℕ
    now = bytes "MANIFEST-" ++ (llu_06 n ++ (10 ∷ []))

    current : List ℕ
    current = current_file_name dbname

    rename-IsOutcome :
        (tmp : List ℕ) (written : S) (renamed : Status × S)
        → current ≢ tmp
        → contents written tmp ≡ some now
        → contents written current ≡ contents s current
        → env.rename_file tmp current written ≡ renamed
        → let left = if_not_ok env (env.delete_file tmp) renamed in
          IsOutcome contents tmp current now s left.0 left.1
    rename-IsOutcome tmp written (ok, s') apart there same run = installed refl (
        ap (λ r. contents r.1 current) (sym run)
        ∙ fs.renamed tmp current written (ap (λ r. r.0) run)
        ∙ there)
    rename-IsOutcome tmp written (Status.error c msg, s') apart there same run =
        not_renamed written refl there same (ap (λ r. r.0) run)
          (ap (λ r. (env.delete_file tmp r.1).1) (sym run))
          (fs.deleted_beside tmp current s' apart ∙ ap (λ r. contents r.1 current) (sym run))

    saved-IsOutcome :
        (tmp : List ℕ) (x : Status × S)
        → current ≢ tmp
        → (x.0 ≡ ok → contents x.1 tmp ≡ some now)
        → contents x.1 current ≡ contents s current
        → let left = if_not_ok env (env.delete_file tmp) (if_ok (env.rename_file tmp current) x) in
          IsOutcome contents tmp current now s left.0 left.1
    saved-IsOutcome tmp (ok, written) apart there same =
        rename-IsOutcome tmp written (env.rename_file tmp current written) apart (there refl) same
          refl
    saved-IsOutcome tmp (Status.error c msg, s') apart there same =
        not_written refl (fs.deleted_beside tmp current s' apart ∙ same)

    tmp_name : List ℕ
    tmp_name = make_file_name dbname n (bytes "dbtmp")

    given : (n == 0) ≡ false
    given = ground (arith, positive)

    tmp-parsed : parsed_below dbname tmp_name ≡ some (some (n, temp_file))
    unfolding temp_file_name tmp_name
    tmp-parsed =
        ap (λ b. (if b then none else some tmp_name) >>= parsed_below dbname) (sym given)
        ∙ (parse_file_name-made dbname n positive small).4

    tmp-apart : current ≢ tmp_name
    unfolding current
    tmp-apart e =
        temp-current n (parsed_below dbname tmp_name) tmp-parsed
          (ap (parsed_below dbname) (sym e) ∙ (parse_file_name-fixed dbname).0)

    manifest : List ℕ
    manifest = dbname ++ (bytes "/MANIFEST-" ++ llu_06 n)

    manifest-front : starts_with manifest (dbname ++ (47 ∷ [])) ≡ true
    unfolding manifest
    manifest-front = (starts_with_iff manifest (dbname ++ (47 ∷ []))).1 (
      bytes "MANIFEST-" ++ llu_06 n,
      sym (append_assoc dbname (47 ∷ []) (bytes "MANIFEST-" ++ llu_06 n)),
    )

    manifest-back : drop (length dbname + 1) manifest ++ (10 ∷ []) ≡ now
    unfolding manifest
    manifest-back =
        ap (λ l. l ++ (10 ∷ []))
          (ap (drop (length dbname + 1))
              (sym (append_assoc dbname (47 ∷ []) (bytes "MANIFEST-" ++ llu_06 n)))
            ∙ drop_exact (length dbname + 1) (dbname ++ (47 ∷ [])) (bytes "MANIFEST-" ++ llu_06 n)
                (length-append dbname (47 ∷ [])))
        ∙ append_assoc (bytes "MANIFEST-") (llu_06 n) (10 ∷ [])

    -- On a file system as env.h describes it, for a positive uint64, SetCurrentFile gives a status. If
    -- it is good, CURRENT holds the name of the manifest and a newline. If not, either CURRENT is what
    -- it was, or it is what a failed rename left, and that status is the rename's: before the rename
    -- CURRENT was what it had been and the temporary file held the name and the newline, and after it
    -- the temporary file was deleted.
    pub set_current_file_lem :
        (status : Status) × (s' : S) × (set_current_file dbname n s ≡ some (status, s'))
        × IsOutcome contents
            (make_file_name dbname n (bytes "dbtmp"))
            (current_file_name dbname)
            (bytes "MANIFEST-" ++ (llu_06 n ++ (10 ∷ [])))
            s
            status
            s'
    unfolding set_current_file descriptor_file_name temp_file_name manifest tmp_name current
    set_current_file_lem =
        let done =
          if_not_ok env (env.delete_file tmp_name)
            (if_ok (env.rename_file tmp_name current) saved) in
        (
          done.0,
          done.1,
          rw (given, manifest-front, remove_prefix-drop (length dbname + 1) manifest long) refl,
          saved-IsOutcome tmp_name saved tmp-apart
              (λ good.
                do_write_string_to_file_lem env contents name_of fs text tmp_name true s good
                ∙ ap some manifest-back)
              (do_write_string_to_file_beside env contents name_of fs text tmp_name true s current
                tmp-apart),
        )
      where
        long : length dbname + 1 ≤ length manifest
        long = omega (arith, length-append dbname (bytes "/MANIFEST-" ++ llu_06 n))

        text : List ℕ
        text = drop (length dbname + 1) manifest ++ (10 ∷ [])

        saved : Status × S
        saved = write_string_to_file_sync env text tmp_name s
