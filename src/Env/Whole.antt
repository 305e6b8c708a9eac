-- ===== src/Env/Whole.antt =====
-- Terp_Builder/Pods/leveldb-library/util/env.cc: a string written as a whole file.
use terp_builder.Base.{
  ℕ, ◌≡◌, ◌≢◌, refl, sym, ap, ◌∙◌, Bool, true, false, Option, some, List, [], if◌then◌else◌,
}
use mathlib.Core.Path.{subst}
use terp_builder.Slice.{Slice}
use terp_builder.Status.{Status, ok}
use terp_builder.Env.System.{Env, IsFileSystem}

-- `if (s.ok()) s = next`
abbrev pub if_ok : {S : Type 0} → (S → Status × S) → Status × S → Status × S
if_ok next (ok, s) = next s
if_ok next (Status.error c msg, s) = (Status.error c msg, s)

module _ {S H : Type 0} (env : Env S H) where
  -- `if (!s.ok()) next`, whose status is not looked at.
  abbrev pub if_not_ok : (S → Status × S) → Status × S → Status × S
  if_not_ok next (ok, s) = (ok, s)
  if_not_ok next (Status.error c msg, s) = (Status.error c msg, (next s).1)

  abbrev pub discard_after : H → Status × S → Status × S
  discard_after file (status, s) = (status, env.discard file s)

  abbrev pub synced_if : Bool → H → S → Status × S
  synced_if should_sync file s = if should_sync then env.sync file s else (ok, s)

  abbrev pub write_opened : Slice → List ℕ → Bool → Status × H × S → Status × S
  write_opened text fname should_sync (ok, file, s) = if_not_ok (env.delete_file fname) (
      discard_after file
        (if_ok (env.close file) (if_ok (synced_if should_sync file) (env.append file text s))))
  write_opened text fname should_sync (Status.error c msg, file, s) = (Status.error c msg, s)

  unfoldable pub do_write_string_to_file : Slice → List ℕ → Bool → S → Status × S
  do_write_string_to_file text fname should_sync s =
      write_opened text fname should_sync (env.new_writable_file fname s)

  abbrev pub write_string_to_file : Slice → List ℕ → S → Status × S
  write_string_to_file text fname s = do_write_string_to_file text fname false s

  abbrev pub write_string_to_file_sync : Slice → List ℕ → S → Status × S
  write_string_to_file_sync text fname s = do_write_string_to_file text fname true s

  module _ (contents : S → List ℕ → Option (List ℕ)) (name_of : H → List ℕ)
      (fs : IsFileSystem env contents name_of) where
    if_ok-good :
        (next : S → Status × S) (name : List ℕ) (c : Option (List ℕ)) (x : Status × S)
        → ((s : S) → (next s).0 ≡ ok → contents ((next s).1) name ≡ contents s name)
        → (x.0 ≡ ok → contents x.1 name ≡ c)
        → (if_ok next x).0 ≡ ok
        → contents ((if_ok next x).1) name ≡ c
    if_ok-good next name c (ok, s) keeps good h = keeps s h ∙ good refl
    if_ok-good next name c (Status.error code msg, s) keeps good h = cc h

    pub if_ok-keeps :
        (next : S → Status × S) (name : List ℕ) (c : Option (List ℕ)) (x : Status × S)
        → ((s : S) → contents ((next s).1) name ≡ contents s name)
        → contents x.1 name ≡ c
        → contents ((if_ok next x).1) name ≡ c
    if_ok-keeps next name c (ok, s) keeps same = keeps s ∙ same
    if_ok-keeps next name c (Status.error code msg, s) keeps same = same

    if_not_ok-good :
        (next : S → Status × S) (name : List ℕ) (c : Option (List ℕ)) (x : Status × S)
        → (x.0 ≡ ok → contents x.1 name ≡ c)
        → (if_not_ok next x).0 ≡ ok
        → contents ((if_not_ok next x).1) name ≡ c
    if_not_ok-good next name c (ok, s) good h = good refl
    if_not_ok-good next name c (Status.error code msg, s) good h = cc h

    pub if_not_ok-keeps :
        (next : S → Status × S) (name : List ℕ) (c : Option (List ℕ)) (x : Status × S)
        → ((s : S) → contents ((next s).1) name ≡ contents s name)
        → contents x.1 name ≡ c
        → contents ((if_not_ok next x).1) name ≡ c
    if_not_ok-keeps next name c (ok, s) keeps same = same
    if_not_ok-keeps next name c (Status.error code msg, s) keeps same = keeps s ∙ same

    close-keeps :
        (file : H) (name : List ℕ)
        → name_of file ≡ name
        → (s : S) → (env.close file s).0 ≡ ok
        → contents ((env.close file s).1) name ≡ contents s name
    close-keeps file name named s good =
        subst (λ n. contents ((env.close file s).1) n ≡ contents s n) named (fs.closed file s good)

    sync-keeps :
        (should_sync : Bool) (file : H) (name : List ℕ)
        → name_of file ≡ name
        → (s : S) → (synced_if should_sync file s).0 ≡ ok
        → contents ((synced_if should_sync file s).1) name ≡ contents s name
    sync-keeps true file name named s good =
        subst (λ n. contents ((env.sync file s).1) n ≡ contents s n) named (fs.synced file s good)
    sync-keeps false file name named s good = refl

    sync-beside :
        (should_sync : Bool) (file : H) (other : List ℕ)
        → other ≢ name_of file
        → (s : S) → contents ((synced_if should_sync file s).1) other ≡ contents s other
    sync-beside true file other apart s = fs.synced_beside file other s apart
    sync-beside false file other apart s = refl

    opened-good :
        (text : Slice) (fname : List ℕ) (should_sync : Bool) (x : Status × H × S)
        → (x.0 ≡ ok → name_of x.1 ≡ fname)
        → (x.0 ≡ ok → contents x.2 fname ≡ some [])
        → (write_opened text fname should_sync x).0 ≡ ok
        → contents ((write_opened text fname should_sync x).1) fname ≡ some text
    opened-good text fname should_sync (Status.error c msg, file, s) named empty h = cc h
    opened-good text fname should_sync (ok, file, s) named empty closed =
        if_not_ok-good (env.delete_file fname) fname (some text) _
          (λ good.
            fs.discarded file fname _
            ∙ if_ok-good (env.close file) fname (some text) _ (close-keeps file fname (named refl))
                (if_ok-good (synced_if should_sync file) fname (some text) (env.append file text s)
                  (sync-keeps should_sync file fname (named refl))
                  (λ added.
                    ap (contents ((env.append file text s).1)) (sym (named refl))
                    ∙ fs.appended file text [] s added (ap (contents s) (named refl) ∙ empty refl)))
                good)
          closed

    opened-beside :
        (text : Slice) (fname : List ℕ) (should_sync : Bool) (x : Status × H × S) (other : List ℕ)
        (c : Option (List ℕ))
        → (x.0 ≡ ok → name_of x.1 ≡ fname)
        → other ≢ fname
        → contents x.2 other ≡ c
        → contents ((write_opened text fname should_sync x).1) other ≡ c
    opened-beside text fname should_sync (Status.error code msg, file, s) other c named apart same =
        same
    opened-beside text fname should_sync (ok, file, s) other c named apart same =
        let far : other ≢ name_of file = λ e. apart (e ∙ named refl) in
        if_not_ok-keeps (env.delete_file fname) other c _
          (λ s'. fs.deleted_beside fname other s' apart)
          (fs.discarded file other _
            ∙ if_ok-keeps (env.close file) other c _ (λ s'. fs.closed_beside file other s' far)
                (if_ok-keeps (synced_if should_sync file) other c (env.append file text s)
                  (sync-beside should_sync file other far)
                  (fs.appended_beside file text other s far ∙ same)))

    -- A good status of WriteStringToFile, with a sync or without, says that the file holds the text.
    pub do_write_string_to_file_lem :
        (text : Slice) (fname : List ℕ) (should_sync : Bool) (s : S)
        → (do_write_string_to_file text fname should_sync s).0 ≡ ok
        → contents ((do_write_string_to_file text fname should_sync s).1) fname ≡ some text
    unfolding do_write_string_to_file
    do_write_string_to_file_lem text fname should_sync s =
        opened-good text fname should_sync (env.new_writable_file fname s) (fs.created_name fname s)
          (fs.created fname s)

    -- And in any case no other file has changed.
    pub do_write_string_to_file_beside :
        (text : Slice) (fname : List ℕ) (should_sync : Bool) (s : S) (other : List ℕ)
        → other ≢ fname
        → contents ((do_write_string_to_file text fname should_sync s).1) other ≡ contents s other
    unfolding do_write_string_to_file
    do_write_string_to_file_beside text fname should_sync s other apart =
        opened-beside text fname should_sync (env.new_writable_file fname s) other _
          (fs.created_name fname s) apart (fs.created_beside fname other s apart)
