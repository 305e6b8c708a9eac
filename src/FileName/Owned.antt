-- ===== src/FileName/Owned.antt =====
-- The form of the names of a database's files, and that ParseFileName takes them.
use terp_builder.Base.{◌>>=◌, ◌==◌, not}
use terp_builder.Base.{ℕ, ◌^◌, ◌<◌, ◌≤◌, ◌≡◌, ◌≢◌, refl, sym, ◌∙◌, ap, arith}
use terp_builder.Base.{true, false, not, some, inl, inr}
use terp_builder.Base.{List, [], ◌∷◌, ◌++◌, length, append-nil, All}
use terp_builder.Base.{Bool-cases, ◌==◌, if◌then◌else◌}
use terp_builder.Base.Text.{bytes}
use terp_builder.Slice.{Slice, equals, starts_with, remove_prefix, remove_prefix-drop, memcmp}
use terp_builder.Slice.Lexical.{equals_iff, starts_with_iff}
use terp_builder.Logging.{consume_decimal_number}
use terp_builder.Logging.Numbers.{IsDigit, IsEnd, number_from, consume-digits}
use terp_builder.FileName.{
  FileType, log_file, db_lock_file, table_file, descriptor_file, current_file, temp_file,
  info_log_file,
}
use terp_builder.FileName.{parse_file_name, parse_descriptor, parse_suffix}

-- The digits of a number below 2^64, zeros before them or not.
pub record IsNumber (ds : List ℕ) (n : ℕ) : Type 0 where
  pub digits : All IsDigit ds
  pub some_digits : (length ds == 0) ≡ false
  pub value : number_from 0 ds ≡ n
  pub small : n < 2 ^ 64

pub data IsSuffix : List ℕ → FileType → Type 0 where
  log : IsSuffix (bytes ".log") log_file
  sst : IsSuffix (bytes ".sst") table_file
  ldb : IsSuffix (bytes ".ldb") table_file
  dbtmp : IsSuffix (bytes ".dbtmp") temp_file

-- The names of a database's files, with their numbers and types.
pub data IsOwned : List ℕ → ℕ → FileType → Type 0 where
  current : IsOwned (bytes "CURRENT") 0 current_file
  lock : IsOwned (bytes "LOCK") 0 db_lock_file
  info_log : IsOwned (bytes "LOG") 0 info_log_file
  old_info_log : IsOwned (bytes "LOG.old") 0 info_log_file
  manifest :
      {ds : List ℕ} {n : ℕ} → IsNumber ds n → IsOwned (bytes "MANIFEST-" ++ ds) n descriptor_file
  numbered :
      {ds suffix : List ℕ} {n : ℕ} {t : FileType}
      → IsNumber ds n
      → IsSuffix suffix t
      → IsOwned (ds ++ suffix) n t

abbrev first : List ℕ → ℕ
first [] = 0
first (b ∷ x) = b

equals-differs : (x y : Slice) → first x ≢ first y → equals x y ≡ false
equals-differs x y d = elim (Bool-cases (equals x y)) [
  | inl e ↦ absurd (d (ap first ((equals_iff x y).0 e)))
  | inr e ↦ e
]

starts_with-differs : (x : Slice) (b : ℕ) (y : Slice) → first x ≢ b → starts_with x (b ∷ y) ≡ false
starts_with-differs x b y d = elim (Bool-cases (starts_with x (b ∷ y))) [
  | inl e ↦ let t = (starts_with_iff x (b ∷ y)).0 e in absurd (d (ap first (t.1)))
  | inr e ↦ e
]

first-digit :
    (ds rest : List ℕ) → All IsDigit ds → (length ds == 0) ≡ false → first (ds ++ rest) ≤ 57
first-digit [] rest h e = ground arith
first-digit (d ∷ ds) rest h e = let low : IsDigit d = h.0 in ground arith

-- A suffix begins with a dot.
suffix-IsEnd : {suffix : List ℕ} {t : FileType} → IsSuffix suffix t → IsEnd suffix
suffix-IsEnd IsSuffix.log = refl
suffix-IsEnd IsSuffix.sst = refl
suffix-IsEnd IsSuffix.ldb = refl
suffix-IsEnd IsSuffix.dbtmp = refl

parse_suffix-lem :
    {suffix : List ℕ} {t : FileType} (n : ℕ)
    → IsSuffix suffix t
    → parse_suffix (true, n, suffix) ≡ some (n, t)
unfolding equals memcmp
parse_suffix-lem n IsSuffix.log = refl
parse_suffix-lem n IsSuffix.sst = refl
parse_suffix-lem n IsSuffix.ldb = refl
parse_suffix-lem n IsSuffix.dbtmp = refl

consume-IsNumber :
    (ds rest : List ℕ) (n : ℕ)
    → IsNumber ds n
    → IsEnd rest
    → consume_decimal_number (ds ++ rest) 0 ≡ some (true, n, rest)
consume-IsNumber ds rest n v stop =
    consume-digits ds n rest 0 v.digits v.value v.small stop
    ∙ ap (λ b. some (not b, n, rest)) v.some_digits

-- Past the four fixed names.
parse-numbered :
    (r : List ℕ)
    → first r ≢ 67
    → first r ≢ 76
    → parse_file_name r ≡ (
        if starts_with r (bytes "MANIFEST-")
        then (remove_prefix 9 r >>= λ stripped.
            consume_decimal_number stripped 0 >>= λ res. some (parse_descriptor res))
        else consume_decimal_number r 0 >>= λ res. some (parse_suffix res))
unfolding parse_file_name
parse-numbered r c l =
    rw
      (
        equals-differs r (bytes "CURRENT") c,
        equals-differs r (bytes "LOCK") l,
        equals-differs r (bytes "LOG") l,
        equals-differs r (bytes "LOG.old") l,
      )
      (refl)

manifest-parsed :
    (ds : List ℕ) (n : ℕ)
    → IsNumber ds n
    → parse_file_name (bytes "MANIFEST-" ++ ds) ≡ some (some (n, descriptor_file))
manifest-parsed ds n v =
    parse-numbered (bytes "MANIFEST-" ++ ds) (λ e. omega arith) (λ e. omega arith)
    ∙ rw
        (
          (starts_with_iff (bytes "MANIFEST-" ++ ds) (bytes "MANIFEST-")).1 (ds, refl),
          remove_prefix-drop 9 (bytes "MANIFEST-" ++ ds) (omega arith),
        )
        (ap (λ l. consume_decimal_number l 0 >>= λ res. some (parse_descriptor res))
            (sym (append-nil ds))
          ∙ ap (λ o. o >>= λ res. some (parse_descriptor res)) (consume-IsNumber ds [] n v tt))

numbered-parsed :
    (ds suffix : List ℕ) (n : ℕ) (t : FileType)
    → IsNumber ds n
    → IsSuffix suffix t
    → parse_file_name (ds ++ suffix) ≡ some (some (n, t))
numbered-parsed ds suffix n t v s =
    let low : first (ds ++ suffix) ≤ 57 = first-digit ds suffix v.digits v.some_digits in
    parse-numbered (ds ++ suffix) (λ e. omega arith) (λ e. omega arith)
    ∙ rw (starts_with-differs (ds ++ suffix) 77 (bytes "ANIFEST-") (λ e. omega arith)) (
        ap (λ o. o >>= λ res. some (parse_suffix res))
          (consume-IsNumber ds suffix n v (suffix-IsEnd s))
        ∙ ap some (parse_suffix-lem n s))

pub IsOwned-parsed :
    {r : List ℕ} {n : ℕ} {t : FileType} → IsOwned r n t → parse_file_name r ≡ some (some (n, t))
unfolding parse_file_name equals memcmp
IsOwned-parsed IsOwned.current = refl
IsOwned-parsed IsOwned.lock = refl
IsOwned-parsed IsOwned.info_log = refl
IsOwned-parsed IsOwned.old_info_log = refl
IsOwned-parsed (IsOwned.manifest {ds} {n} v) = manifest-parsed ds n v
IsOwned-parsed (IsOwned.numbered {ds} {suffix} {n} {t} v s) = numbered-parsed ds suffix n t v s
