-- ===== src/Version/Inputs/Scan.antt =====
-- Each search of GetOverlappingInputs ends or widens the range.
use Prim.Native.Nat.{Ordering}
use mathlib.Core.Path.{subst}
use terp_builder.Base.{
  ℕ, ◌≡◌, refl, sym, ap, ◌∙◌, Bool, true, false, ◌&&◌, Option, none, some, inl, inr,
}
use terp_builder.Base.{List, [], ◌∷◌, ◌++◌, All, ◌==◌, ◌>>=◌, Bool-cases, append_assoc, append-nil}
use terp_builder.Slice.{Slice}
use terp_builder.Comparator.{Comparator, IsLawful}
use terp_builder.DbFormat.{extract_user_key, is_lt}
use terp_builder.VersionEdit.{FileMetaData}
use terp_builder.Version.{Visit, kept, widened, visit, scan, scanned, is_against, is_gt}
use terp_builder.Version.Counts.{count-first, count-more}
use terp_builder.Version.Bounds.{lt-is_lt, gt-is_gt, above}
use terp_builder.Version.Inputs.{
  start_of, limit_of, IsKeyed, is_early, is_late, overlapping, IsInside, Scanned, settled, earlier,
  later,
}

module _ (user : Comparator) (law : IsLawful user) where
  early_on :
      (s k : Slice)
      → user.compare s k ≡ Ordering.lt
      → (f : FileMetaData) → is_early user (some s) f ≡ true
      → is_early user (some k) f ≡ true
  early_on s k less f h = ap is_lt (law.ordered (start_of f) s k (lt-is_lt _ h) less)

  late_on :
      (s k : Slice)
      → user.compare s k ≡ Ordering.gt
      → (f : FileMetaData) → is_late user (some s) f ≡ true
      → is_late user (some k) f ≡ true
  late_on s k more f h = ap is_gt (above user law (limit_of f) s k (gt-is_gt _ h) more)

  passed :
      (level : ℕ) (begin end : Option Slice) (inputs files : List FileMetaData) (f : FileMetaData)
      (o : Option Visit)
      → overlapping user begin end (f ∷ files) ≡ overlapping user begin end files
      → Scanned user level begin end inputs files o
      → Scanned user level begin end inputs (f ∷ files) o
  passed level begin end inputs files f o same (settled e inside) =
      settled (e ∙ ap (λ l. some (kept (inputs ++ l))) (sym same))
        (λ h. subst (IsInside user begin end) (sym same) (inside h))
  passed level begin end inputs files f o same (earlier s k top at less fewer e) =
      earlier s k top at less
        (count-more (is_early user (some s)) (is_early user begin) f files
          (λ g h. ap (λ b. is_early user b g) at ∙ early_on s k less g h) fewer)
        e
  passed level begin end inputs files f o same (later s k top at more fewer e) =
      later s k top at more
        (count-more (is_late user (some s)) (is_late user end) f files
          (λ g h. ap (λ b. is_late user b g) at ∙ late_on s k more g h) fewer)
        e

  took :
      (level : ℕ) (begin end : Option Slice) (inputs files : List FileMetaData) (f : FileMetaData)
      (o : Option Visit)
      → overlapping user begin end (f ∷ files) ≡ f ∷ overlapping user begin end files
      → ((level == 0) ≡ true → (is_early user begin f ≡ false) × (is_late user end f ≡ false))
      → Scanned user level begin end (inputs ++ (f ∷ [])) files o
      → Scanned user level begin end inputs (f ∷ files) o
  took level begin end inputs files f o same within (settled e inside) =
      settled
        (e
          ∙ ap (λ l. some (kept l))
              (append_assoc inputs (f ∷ []) (overlapping user begin end files))
          ∙ ap (λ l. some (kept (inputs ++ l))) (sym same))
        (λ h. subst (IsInside user begin end) (sym same) (within h, inside h))
  took level begin end inputs files f o same within (earlier s k top at less fewer e) =
      earlier s k top at less
        (count-more (is_early user (some s)) (is_early user begin) f files
          (λ g h. ap (λ b. is_early user b g) at ∙ early_on s k less g h) fewer)
        e
  took level begin end inputs files f o same within (later s k top at more fewer e) =
      later s k top at more
        (count-more (is_late user (some s)) (is_late user end) f files
          (λ g h. ap (λ b. is_late user b g) at ∙ late_on s k more g h) fewer)
        e

  -- The bound that a file goes beyond.
  bound :
      (test : Ordering → Bool) (key : Option Slice) (s : Slice)
      → is_against test user key s ≡ true
      → (k : Slice) × (key ≡ some k) × (test (user.compare s k) ≡ true)
  bound test none s h = cc h
  bound test (some k) s h = (k, refl, h)

  widens_begin :
      (level : ℕ) (begin end : Option Slice) (inputs files : List FileMetaData) (f : FileMetaData)
      → (level == 0) ≡ true
      → is_early user begin f ≡ true
      → Scanned user level begin end inputs (f ∷ files) (some (widened (some (start_of f)) end))
  widens_begin level begin end inputs files f top early =
      let (k, at, less) = bound is_lt begin (start_of f) early in
      earlier (start_of f) k top at (lt-is_lt _ less)
        (count-first (is_early user (some (start_of f))) (is_early user begin) f files
          (λ g h. ap (λ b. is_early user b g) at ∙ early_on (start_of f) k (lt-is_lt _ less) g h)
          (ap is_lt (law.same (start_of f))) early)
        refl

  widens_end :
      (level : ℕ) (begin end : Option Slice) (inputs files : List FileMetaData) (f : FileMetaData)
      → (level == 0) ≡ true
      → is_late user end f ≡ true
      → Scanned user level begin end inputs (f ∷ files) (some (widened begin (some (limit_of f))))
  widens_end level begin end inputs files f top late =
      let (k, at, more) = bound is_gt end (limit_of f) late in
      later (limit_of f) k top at (gt-is_gt _ more)
        (count-first (is_late user (some (limit_of f))) (is_late user end) f files
          (λ g h. ap (λ b. is_late user b g) at ∙ late_on (limit_of f) k (gt-is_gt _ more) g h)
          (ap is_gt (law.same (limit_of f))) late)
        refl

  one_visit :
      (level : ℕ) (begin end : Option Slice) (inputs files : List FileMetaData) (f : FileMetaData)
      (v : Visit)
      → IsKeyed f
      → visit user level begin end inputs f (start_of f) (limit_of f) ≡ v
      → scanned (λ more. scan user level begin end more files) v
        ≡ scan user level begin end inputs (f ∷ files)
  unfolding scan
  one_visit level begin end inputs files f v keyed e = sym (
      ap
        (λ o. o >>= λ start. extract_user_key f.largest >>= λ limit.
          scanned (λ more. scan user level begin end more files)
            (visit user level begin end inputs f start limit))
        keyed.0
      ∙ ap
          (λ o. o >>= λ limit.
            scanned (λ more. scan user level begin end more files)
              (visit user level begin end inputs f (start_of f) limit))
          keyed.1
      ∙ ap (scanned (λ more. scan user level begin end more files)) e)

  and-true : (a b : Bool) → (a && b) ≡ true → (a ≡ true) × (b ≡ true)
  and-true true b h = (refl, h)
  and-true false b h = cc h

  and-false : (a b : Bool) → (a && b) ≡ false → a ≡ true → b ≡ false
  and-false true b h e = h
  and-false false b h e = cc e

  pub scan-Scanned :
      (level : ℕ) (begin end : Option Slice) (inputs files : List FileMetaData)
      → All IsKeyed files
      → Scanned user level begin end inputs files (scan user level begin end inputs files)
  unfolding scan
  scan-Scanned level begin end inputs [] keyed =
      settled (ap (λ l. some (kept l)) (sym (append-nil inputs))) (λ h. tt)
  scan-Scanned level begin end inputs (f ∷ files) keyed =
      elim (Bool-cases (is_against is_lt user begin (limit_of f))) [
        | inl before ↦ goes_on (kept inputs) (rw before refl) (
            passed level begin end inputs files f _ (rw before refl)
              (scan-Scanned level begin end inputs files keyed.1))
        | inr reaches ↦ elim (Bool-cases (is_against is_gt user end (start_of f))) [
          | inl after ↦ goes_on (kept inputs) (rw (reaches, after) refl) (
              passed level begin end inputs files f _ (rw (reaches, after) refl)
                (scan-Scanned level begin end inputs files keyed.1))
          | inr meets ↦ elim (Bool-cases ((level == 0) && is_early user begin f)) [
            | inl early ↦
                let (top, first) = and-true _ _ early in
                goes_on (widened (some (start_of f)) end) (rw (reaches, meets, early) refl)
                  (widens_begin level begin end inputs files f top first)
            | inr not_early ↦ elim (Bool-cases ((level == 0) && is_late user end f)) [
              | inl late ↦
                  let (top, last) = and-true _ _ late in
                  goes_on (widened begin (some (limit_of f)))
                    (rw (reaches, meets, not_early, late) refl)
                    (widens_end level begin end inputs files f top last)
              | inr not_late ↦
                  goes_on (kept (inputs ++ (f ∷ [])))
                    (rw (reaches, meets, not_early, not_late) refl)
                    (took level begin end inputs files f _ (rw (reaches, meets) refl)
                      (λ top. (and-false _ _ not_early top, and-false _ _ not_late top))
                      (scan-Scanned level begin end (inputs ++ (f ∷ [])) files keyed.1))
            ]
          ]
        ]
      ]
    where
      goes_on :
          (v : Visit)
          → visit user level begin end inputs f (start_of f) (limit_of f) ≡ v
          → Scanned user level begin end inputs
              (f ∷ files)
              (scanned (λ more. scan user level begin end more files) v)
          → Scanned user level begin end inputs
              (f ∷ files)
              (scan user level begin end inputs (f ∷ files))
      goes_on v e =
          subst (Scanned user level begin end inputs (f ∷ files))
            (one_visit level begin end inputs files f v keyed.0 e)
