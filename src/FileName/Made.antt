-- ===== src/FileName/Made.antt =====
-- The names that the makers give, read by ParseFileName.
use terp_builder.Base.{
  ℕ, zero, suc, ◌-◌, ◌^◌, ◌<◌, ◌≡◌, refl, sym, ◌∙◌, ap, arith, false, Option, some,
}
use terp_builder.Base.{
  List, [], ◌∷◌, ◌++◌, length, drop, append_assoc, drop_exact, length-append, All, All-append,
}
use terp_builder.Base.{◌==◌, ◌>>=◌}
use terp_builder.Base.Text.{bytes}
use terp_builder.Logging.{llu}
use terp_builder.Logging.Numbers.{
  IsDigit, number_from, decimal-IsDigit, length-llu, number_from-llu, number_from-append,
}
use terp_builder.FileName.{
  FileType, log_file, db_lock_file, table_file, descriptor_file, current_file, temp_file,
  info_log_file,
}
use terp_builder.FileName.{zero_digits, llu_06, parse_file_name, checked, make_file_name}
use terp_builder.FileName.{
  log_file_name, table_file_name, sst_table_file_name, descriptor_file_name, temp_file_name,
}
use terp_builder.FileName.{
  current_file_name, lock_file_name, info_log_file_name, old_info_log_file_name,
}
use terp_builder.FileName.Owned.{IsNumber, IsSuffix, IsOwned, IsOwned-parsed}

zeros-IsDigit : (k : ℕ) → All IsDigit (zero_digits k)
zeros-IsDigit zero = tt
zeros-IsDigit (suc k) = (refl, zeros-IsDigit k)

number_from-zeros : (k : ℕ) → number_from 0 (zero_digits k) ≡ 0
number_from-zeros zero = refl
number_from-zeros (suc k) = number_from-zeros k

longer : (xs ys : List ℕ) → (length ys == 0) ≡ false → (length (xs ++ ys) == 0) ≡ false
longer xs ys h = ground (arith, length-append xs ys)

llu_06-IsNumber : (n : ℕ) → n < 2 ^ 64 → IsNumber (llu_06 n) n
llu_06-IsNumber n h = record {
  digits =
      All-append IsDigit pad (llu n) (zeros-IsDigit (6 - length (llu n))) (decimal-IsDigit 20 n);
  some_digits = longer pad (llu n) (length-llu n);
  value =
      number_from-append 0 pad (llu n)
      ∙ ap (λ v. number_from v (llu n)) (number_from-zeros (6 - length (llu n)))
      ∙ number_from-llu n h;
  small = h;
}
  where
    pad : List ℕ
    pad = zero_digits (6 - length (llu n))

-- What ParseFileName says of a name below the directory.
abbrev pub parsed_below : List ℕ → List ℕ → Option (Option (ℕ × FileType))
parsed_below dbname name = parse_file_name (drop (suc (length dbname)) name)

below :
    (dbname text : List ℕ) {n : ℕ} {t : FileType}
    → IsOwned text n t
    → parsed_below dbname (dbname ++ (47 ∷ text)) ≡ some (some (n, t))
below dbname text o = ap parse_file_name cut ∙ IsOwned-parsed o
  where
    cut : drop (suc (length dbname)) (dbname ++ (47 ∷ text)) ≡ text
    cut =
        ap (drop (suc (length dbname))) (sym (append_assoc dbname (47 ∷ []) text))
        ∙ drop_exact (suc (length dbname)) (dbname ++ (47 ∷ [])) text
            (omega (arith, length-append dbname (47 ∷ [])))

module _ (dbname : List ℕ) (n : ℕ) (positive : 0 < n) (small : n < 2 ^ 64) where
  made_numbered :
      (suffix : List ℕ) (t : FileType)
      → IsSuffix (46 ∷ suffix) t
      → (checked n (make_file_name dbname n suffix) >>= parsed_below dbname) ≡ some (some (n, t))
  made_numbered suffix t s =
      let given : (n == 0) ≡ false = ground arith in
      rw given
        (below dbname (llu_06 n ++ (46 ∷ suffix)) (IsOwned.numbered (llu_06-IsNumber n small) s))

  -- For a positive uint64 each of the makers of numbered names gives a name, and ParseFileName reads
  -- from it, less the directory and the slash, that number and the type of the file: a log, a table
  -- by either suffix, a descriptor and a temporary file.
  pub parse_file_name-made :
      ((log_file_name dbname n >>= parsed_below dbname) ≡ some (some (n, log_file)))
      × ((table_file_name dbname n >>= parsed_below dbname) ≡ some (some (n, table_file)))
      × ((sst_table_file_name dbname n >>= parsed_below dbname) ≡ some (some (n, table_file)))
      × ((descriptor_file_name dbname n >>= parsed_below dbname) ≡ some (some (n, descriptor_file)))
      × ((temp_file_name dbname n >>= parsed_below dbname) ≡ some (some (n, temp_file)))
  unfolding log_file_name table_file_name sst_table_file_name descriptor_file_name temp_file_name
  parse_file_name-made = (
    made_numbered (bytes "log") log_file IsSuffix.log,
    made_numbered (bytes "ldb") table_file IsSuffix.ldb,
    made_numbered (bytes "sst") table_file IsSuffix.sst,
    let given : (n == 0) ≡ false = ground arith in
        rw given (
          below dbname (bytes "MANIFEST-" ++ llu_06 n)
            (IsOwned.manifest (llu_06-IsNumber n small))),
    made_numbered (bytes "dbtmp") temp_file IsSuffix.dbtmp,
  )

-- ParseFileName reads from the names of the files that have no number, less the directory and the
-- slash, the number 0 and the type of the file.
pub parse_file_name-fixed :
    (dbname : List ℕ)
    → (parsed_below dbname (current_file_name dbname) ≡ some (some (0, current_file)))
      × (parsed_below dbname (lock_file_name dbname) ≡ some (some (0, db_lock_file)))
      × (parsed_below dbname (info_log_file_name dbname) ≡ some (some (0, info_log_file)))
      × (parsed_below dbname (old_info_log_file_name dbname) ≡ some (some (0, info_log_file)))
unfolding current_file_name lock_file_name info_log_file_name old_info_log_file_name
parse_file_name-fixed dbname = (
  below dbname (bytes "CURRENT") IsOwned.current,
  below dbname (bytes "LOCK") IsOwned.lock,
  below dbname (bytes "LOG") IsOwned.info_log,
  below dbname (bytes "LOG.old") IsOwned.old_info_log,
)
