-- ===== src/FileName/Parse.antt =====
-- Which names ParseFileName accepts.
use mathlib.Core.Bool.{not-not}
use mathlib.Core.Option.{none-ne-some}
use terp_builder.Base.{◌>>=◌, ◌==◌, ltb, not, ◌||◌, if◌then◌else◌, length-append}
use terp_builder.Base.{ℕ, ◌^◌, ◌<◌, ◌≡◌, ◌≢◌, ◌↔◌, refl, sym, ◌∙◌, ap, arith}
use terp_builder.Base.{Bool, true, false, not, Option, some, inl, inr, some_inj}
use terp_builder.Base.{List, [], ◌∷◌, ◌++◌, length, drop, append-nil, All}
use terp_builder.Base.{Bool-cases, ltb→lt, ltb, ◌==◌}
use terp_builder.Base.Text.{bytes}
use terp_builder.Slice.{Slice, equals, starts_with, remove_prefix, remove_prefix-drop}
use terp_builder.Slice.Lexical.{equals_iff, starts_with_iff}
use terp_builder.Logging.{consume_decimal_number}
use terp_builder.Logging.Numbers.{
  is_digit, leading-trailing, IsDigit, number_from, leading, trailing, consume_decimal_number-lem,
}
use terp_builder.FileName.{
  FileType, log_file, db_lock_file, table_file, descriptor_file, current_file, temp_file,
  info_log_file,
}
use terp_builder.FileName.{current_file, db_lock_file, info_log_file}
use terp_builder.FileName.{parse_file_name, parse_descriptor, parse_suffix}
use terp_builder.FileName.Owned.{IsNumber, IsSuffix, IsOwned, IsOwned-parsed}

leading-IsDigit : (s : Slice) → All IsDigit (leading s)
leading-IsDigit [] = tt
leading-IsDigit (ch ∷ s) = elim (Bool-cases (is_digit ch)) [
  | inl e ↦ rw e (e, leading-IsDigit s)
  | inr e ↦ rw e tt
]

-- What a successful read of a number at the front of a text says of the text.
read-IsNumber :
    (r : List ℕ) (n : ℕ) (rest : Slice)
    → consume_decimal_number r 0 ≡ some (true, n, rest)
    → (ds : List ℕ) × IsNumber ds n × (r ≡ ds ++ rest)
read-IsNumber r n rest e = elim (Bool-cases (ltb (number_from 0 (leading r)) (2 ^ 64))) [
  | inl b ↦ found (some_inj (rw b at (sym (consume_decimal_number-lem r 0) ∙ e))) (ltb→lt _ _ b)
  | inr b ↦ absurd (overflow (some_inj (rw b at (sym (consume_decimal_number-lem r 0) ∙ e))))
]
  where
    overflow : ◌≢◌ {A = Bool × ℕ × Slice} (false, 0, r) (true, n, rest)
    overflow h = cc (ap (λ p. p.0) h)

    found :
        ◌≡◌ {A = Bool × ℕ × Slice}
          (not (length (leading r) == 0), number_from 0 (leading r), trailing r)
          (true, n, rest)
        → number_from 0 (leading r) < 2 ^ 64
        → (ds : List ℕ) × IsNumber ds n × (r ≡ ds ++ rest)
    found h b =
        let value : number_from 0 (leading r) ≡ n = ap (λ p. p.1) h in
        (
          leading r,
          record {
            digits = leading-IsDigit r;
            some_digits = sym (not-not (length (leading r) == 0)) ∙ ap (λ p. not p.0) h;
            value = value;
            small = omega arith;
          },
          sym (leading-trailing r) ∙ ap (λ p. leading r ++ p.2) h,
        )

read-suffix :
    (suffix : List ℕ) (m n : ℕ) (t : FileType)
    → parse_suffix (true, m, suffix) ≡ some (n, t)
    → IsSuffix suffix t × (m ≡ n)
read-suffix suffix m n t e = elim (Bool-cases (equals suffix (bytes ".log"))) [
  | inl c ↦ is suffix (bytes ".log") log_file c IsSuffix.log (rw c at e)
  | inr c ↦ elim (Bool-cases (equals suffix (bytes ".sst"))) [
    | inl d ↦ is suffix (bytes ".sst") table_file d IsSuffix.sst (rw (c, d) at e)
    | inr d ↦ elim (Bool-cases (equals suffix (bytes ".ldb"))) [
      | inl f ↦ is suffix (bytes ".ldb") table_file f IsSuffix.ldb (rw (c, d, f) at e)
      | inr f ↦ elim (Bool-cases (equals suffix (bytes ".dbtmp"))) [
        | inl g ↦ is suffix (bytes ".dbtmp") temp_file g IsSuffix.dbtmp (rw (c, d, f, g) at e)
        | inr g ↦ absurd (none-ne-some (n, t) (rw (c, d, f, g) at e))
      ]
    ]
  ]
]
  where
    is :
        (suffix x : List ℕ) (u : FileType)
        → equals suffix x ≡ true
        → IsSuffix x u
        → ◌≡◌ {A = Option (ℕ × FileType)} (some (m, u)) (some (n, t))
        → IsSuffix suffix t × (m ≡ n)
    is suffix x u c s h =
        let same = some_inj h in
        let text = (equals_iff suffix x).0 c in
        let type : u ≡ t = ap (λ p. p.1) same in (rw (text, sym type) s, ap (λ p. p.0) same)

module _ (r : List ℕ) (n : ℕ) (t : FileType) where
  parsed_fixed :
      (x : List ℕ) (u : FileType)
      → equals r x ≡ true
      → IsOwned x 0 u
      → ◌≡◌ {A = Option (Option (ℕ × FileType))} (some (some (0, u))) (some (some (n, t)))
      → IsOwned r n t
  parsed_fixed x u c o h =
      let same = some_inj (some_inj h) in
      let text = (equals_iff r x).0 c in
      let number : 0 ≡ n = ap (λ p. p.0) same in
      let type : u ≡ t = ap (λ p. p.1) same in rw (text, sym number, sym type) o

  parsed_descriptor :
      (res : Bool × ℕ × Slice) (s : Slice)
      → consume_decimal_number s 0 ≡ some res
      → r ≡ bytes "MANIFEST-" ++ s
      → parse_descriptor res ≡ some (n, t)
      → IsOwned r n t
  parsed_descriptor (false, m, rest) s c text h = absurd (none-ne-some (n, t) h)
  parsed_descriptor (true, m, ch ∷ rest) s c text h = absurd (none-ne-some (n, t) h)
  parsed_descriptor (true, m, []) s c text h =
      let got = read-IsNumber s m [] c in
      let whole : r ≡ bytes "MANIFEST-" ++ got.0 =
        text ∙ ap (λ l. bytes "MANIFEST-" ++ l) (got.2 ∙ append-nil got.0) in
      let same = some_inj h in
      let number : m ≡ n = ap (λ p. p.0) same in
      let type : descriptor_file ≡ t = ap (λ p. p.1) same in
      rw (whole, sym number, sym type) (IsOwned.manifest (got.1))

  parsed_numbered :
      (res : Bool × ℕ × Slice)
      → consume_decimal_number r 0 ≡ some res
      → parse_suffix res ≡ some (n, t)
      → IsOwned r n t
  parsed_numbered (false, m, rest) c h = absurd (none-ne-some (n, t) h)
  parsed_numbered (true, m, rest) c h =
      let got = read-IsNumber r m rest c in
      let tail = read-suffix rest m n t h in
      rw (got.2, sym (tail.1)) (IsOwned.numbered (got.1) (tail.0))

  -- What ConsumeDecimalNumber answers.
  abbrev answer : Slice → Bool × ℕ × Slice
  answer s =
      if ltb (number_from 0 (leading s)) (2 ^ 64)
      then (not (length (leading s) == 0), number_from 0 (leading s), trailing s)
      else (false, 0, s)

  manifest_prefix : starts_with r (bytes "MANIFEST-") ≡ true → remove_prefix 9 r ≡ some (drop 9 r)
  manifest_prefix k =
      let s = (starts_with_iff r (bytes "MANIFEST-")).0 k in
      remove_prefix-drop 9 r
        (omega (arith, ap length (s.1), length-append (bytes "MANIFEST-") (s.0)))

  parse_file_name-returns : (o : Option (ℕ × FileType)) × (parse_file_name r ≡ some o)
  unfolding parse_file_name
  parse_file_name-returns =
      returns_if (equals r (bytes "CURRENT")) (some (0, current_file), refl)
        (returns_if (equals r (bytes "LOCK")) (some (0, db_lock_file), refl)
          (returns_if (equals r (bytes "LOG") || equals r (bytes "LOG.old"))
            (some (0, info_log_file), refl) (by_prefix (starts_with r (bytes "MANIFEST-")) refl)))
    where
      returns_if :
          (b : Bool) {x y : Option (Option (ℕ × FileType))}
          → (o : Option (ℕ × FileType)) × (x ≡ some o)
          → (o : Option (ℕ × FileType)) × (y ≡ some o)
          → (o : Option (ℕ × FileType)) × ((if b then x else y) ≡ some o)
      returns_if true hx hy = hx
      returns_if false hx hy = hy

      by_prefix :
          (b : Bool)
          → starts_with r (bytes "MANIFEST-") ≡ b
          → (o : Option (ℕ × FileType)) × ((if b
                then (remove_prefix 9 r >>= λ stripped.
                    consume_decimal_number stripped 0 >>= λ res. some (parse_descriptor res))
                else consume_decimal_number r 0 >>= λ res. some (parse_suffix res))
              ≡ some o)
      by_prefix true k = (
        parse_descriptor (answer (drop 9 r)),
        rw (manifest_prefix k, consume_decimal_number-lem (drop 9 r) 0) refl,
      )
      by_prefix false k = (parse_suffix (answer r), rw (consume_decimal_number-lem r 0) refl)

  parsed-IsOwned : parse_file_name r ≡ some (some (n, t)) → IsOwned r n t
  unfolding parse_file_name
  parsed-IsOwned e = elim (Bool-cases (equals r (bytes "CURRENT"))) [
    | inl c ↦ parsed_fixed (bytes "CURRENT") current_file c IsOwned.current (rw c at e)
    | inr c ↦ elim (Bool-cases (equals r (bytes "LOCK"))) [
      | inl d ↦ parsed_fixed (bytes "LOCK") db_lock_file d IsOwned.lock (rw (c, d) at e)
      | inr d ↦ elim (Bool-cases (equals r (bytes "LOG"))) [
        | inl f ↦ parsed_fixed (bytes "LOG") info_log_file f IsOwned.info_log (rw (c, d, f) at e)
        | inr f ↦ elim (Bool-cases (equals r (bytes "LOG.old"))) [
          | inl g ↦
              parsed_fixed (bytes "LOG.old") info_log_file g IsOwned.old_info_log
                (rw (c, d, f, g) at e)
          | inr g ↦ elim (Bool-cases (starts_with r (bytes "MANIFEST-"))) [
            | inl k ↦
                let s = (starts_with_iff r (bytes "MANIFEST-")).0 k in
                parsed_descriptor (answer (drop 9 r)) (drop 9 r)
                  (consume_decimal_number-lem (drop 9 r) 0)
                  (s.1 ∙ ap (λ l. bytes "MANIFEST-" ++ drop 9 l) (sym (s.1)))
                  (some_inj (
                    rw (c, d, f, g, k, manifest_prefix k, consume_decimal_number-lem (drop 9 r) 0)
                      at e))
            | inr k ↦
                parsed_numbered (answer r) (consume_decimal_number-lem r 0)
                  (some_inj (rw (c, d, f, g, k, consume_decimal_number-lem r 0) at e))
          ]
        ]
      ]
    ]
  ]

  -- ParseFileName meets its assertions on every name. It takes a name with a number and a type exactly where the name has the form that
  -- owned files have: CURRENT, LOCK, LOG or LOG.old, with number 0; or digits of a number below
  -- 2^64, zeros before them or not, after "MANIFEST-" or before ".log", ".sst", ".ldb" or ".dbtmp".
  pub parse_file_name_iff :
      (o : Option (ℕ × FileType)) × (parse_file_name r ≡ some o)
      × ((o ≡ some (n, t)) ↔ IsOwned r n t)
  parse_file_name_iff =
      let (o, e) = parse_file_name-returns in
      (
        o,
        e,
        (λ h. parsed-IsOwned (e ∙ ap some h), λ owned. some_inj (sym e ∙ IsOwned-parsed owned)),
      )
