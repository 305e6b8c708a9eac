-- ===== src/Version/Ranges.antt =====
-- The range that GetOverlappingInputs ends with.
use Prim.Native.Nat.{Ordering}
use terp_builder.Base.{
  ℕ, zero, suc, ◌+◌, ◌*◌, ◌<◌, ◌≡◌, refl, sym, ap, ◌∙◌, arith, true, Option, some, inl, inr, ◌⊎◌,
  some_inj,
}
use terp_builder.Base.{List, [], length, get_elem?, All, ◌==◌, ==_iff, ◌>>=◌}
use terp_builder.Slice.{Slice}
use terp_builder.Comparator.{Comparator, IsLawful}
use terp_builder.VersionEdit.{FileMetaData}
use terp_builder.Version.{found, inputs_from, get_overlapping_inputs, user_part}
use terp_builder.Version.Inputs.{
  settled, earlier, later, overlapping, IsInside, IsKeyed, is_early, is_late,
}
use terp_builder.Version.Inputs.Scan.{scan-Scanned}
use terp_builder.Version.Counts.{count, count-length}
use terp_builder.Version.Bounds.{above}

module _ (user : Comparator) where
  -- A range that begins no later, and one that ends no earlier.
  abbrev pub BeginsBy : Option Slice → Option Slice → Type 0
  BeginsBy new old =
      (new ≡ old)
      ⊎ ((s : Slice) × (k : Slice) × (new ≡ some s)
          × (old ≡ some k)
          × (user.compare s k ≡ Ordering.lt))

  abbrev pub EndsBy : Option Slice → Option Slice → Type 0
  EndsBy new old =
      (new ≡ old)
      ⊎ ((s : Slice) × (k : Slice) × (new ≡ some s)
          × (old ≡ some k)
          × (user.compare s k ≡ Ordering.gt))

  -- One thing on level 0, another below.
  abbrev pub ByLevel : ℕ → Type 0 → Type 0 → Type 0
  ByLevel zero A B = A
  ByLevel (suc level) A B = B

  by_level : (level : ℕ) (A B : Type 0) → ((level == 0) ≡ true → A) → B → ByLevel level A B
  by_level zero A B top deep = top refl
  by_level (suc level) A B top deep = deep

  from_top :
      (level : ℕ) (A B C : Type 0) → (level == 0) ≡ true → ByLevel level A B → ByLevel level A C
  from_top zero A B C top a = a
  from_top (suc level) A B C top b = absurd (omega (arith, (==_iff (suc level) 0).0 top))

  -- These inputs are the files that overlap a range around this one: on level 0 a range that none of
  -- them goes beyond, on another level this range.
  pub record IsClosed (level : ℕ) (files : List FileMetaData) (begin end : Option Slice)
      (inputs : List FileMetaData) : Type 0 where
    pub first : Option Slice
    pub last : Option Slice
    pub inputs_are : inputs ≡ overlapping user first last files
    pub begins : BeginsBy first begin
    pub ends : EndsBy last end
    pub bounds : ByLevel level (IsInside user first last inputs) ((first ≡ begin) × (last ≡ end))

  module _ (law : IsLawful user) where
    begins_before :
        (new middle old : Option Slice) (s k : Slice)
        → BeginsBy new middle
        → middle ≡ some s
        → old ≡ some k
        → user.compare s k ≡ Ordering.lt
        → BeginsBy new old
    begins_before new middle old s k (inl e) em eo less = inr (s, k, e ∙ em, eo, less)
    begins_before new middle old s k (inr (r, t, er, et, h)) em eo less =
        inr
          (r, k, er, eo, law.ordered r s k (ap (user.compare r) (some_inj (sym em ∙ et)) ∙ h) less)

    ends_after :
        (new middle old : Option Slice) (s k : Slice)
        → EndsBy new middle
        → middle ≡ some s
        → old ≡ some k
        → user.compare s k ≡ Ordering.gt
        → EndsBy new old
    ends_after new middle old s k (inl e) em eo more = inr (s, k, e ∙ em, eo, more)
    ends_after new middle old s k (inr (r, t, er, et, h)) em eo more =
        inr (
          r,
          k,
          er,
          eo,
          above user law r s k (ap (user.compare r) (some_inj (sym em ∙ et)) ∙ h) more,
        )

    earlier-IsClosed :
        (level : ℕ) (files : List FileMetaData) (begin end : Option Slice) (s k : Slice)
        (inputs : List FileMetaData)
        → (level == 0) ≡ true
        → begin ≡ some k
        → user.compare s k ≡ Ordering.lt
        → IsClosed level files (some s) end inputs
        → IsClosed level files begin end inputs
    earlier-IsClosed level files begin end s k inputs top at less closed = record {
      first = closed.first;
      last = closed.last;
      inputs_are = closed.inputs_are;
      begins = begins_before closed.first (some s) begin s k closed.begins refl at less;
      ends = closed.ends;
      bounds = from_top level _ ((closed.first ≡ _) × (closed.last ≡ _)) _ top closed.bounds;
    }

    later-IsClosed :
        (level : ℕ) (files : List FileMetaData) (begin end : Option Slice) (s k : Slice)
        (inputs : List FileMetaData)
        → (level == 0) ≡ true
        → end ≡ some k
        → user.compare s k ≡ Ordering.gt
        → IsClosed level files begin (some s) inputs
        → IsClosed level files begin end inputs
    later-IsClosed level files begin end s k inputs top at more closed = record {
      first = closed.first;
      last = closed.last;
      inputs_are = closed.inputs_are;
      begins = closed.begins;
      ends = ends_after closed.last (some s) end s k closed.ends refl at more;
      bounds = from_top level _ ((closed.first ≡ _) × (closed.last ≡ _)) _ top closed.bounds;
    }

    inputs_from-IsClosed :
        (n level : ℕ) (files : List FileMetaData) (begin end : Option Slice)
        → All IsKeyed files
        → count (is_early user begin) files + count (is_late user end) files < n
        → (inputs : List FileMetaData) × (inputs_from user n level files begin end ≡ some inputs)
          × IsClosed level files begin end inputs
    unfolding inputs_from
    inputs_from-IsClosed zero level files begin end keyed enough = absurd (omega arith)
    inputs_from-IsClosed (suc n) level files begin end keyed enough =
        elim (scan-Scanned user law level begin end [] files keyed) [
          | settled e inside ↦ (
            overlapping user begin end files,
            ap (λ o. o >>= found (inputs_from user n level files)) e,
            record {
              first = begin;
              last = end;
              inputs_are = refl;
              begins = inl refl;
              ends = inl refl;
              bounds = by_level level _ _ inside (refl, refl);
            },
          )
          | earlier s k top at less fewer e ↦
              let (inputs, run, closed) =
                inputs_from-IsClosed n level files (some s) end keyed
                  (omega (arith, fewer, enough)) in
              (
                inputs,
                ap (λ o. o >>= found (inputs_from user n level files)) e ∙ run,
                earlier-IsClosed level files begin end s k inputs top at less closed,
              )
          | later s k top at more fewer e ↦
              let (inputs, run, closed) =
                inputs_from-IsClosed n level files begin (some s) keyed
                  (omega (arith, fewer, enough)) in
              (
                inputs,
                ap (λ o. o >>= found (inputs_from user n level files)) e ∙ run,
                later-IsClosed level files begin end s k inputs top at more closed,
              )
        ]

    -- For a lawful user comparator and a level that there is, whose files' keys are long enough:
    -- GetOverlappingInputs returns, and its inputs are the files of the level that overlap a range
    -- around the one asked for: on level 0 a range that none of them goes beyond, on another level the
    -- range asked for. The ends of the range, where there are any, are internal keys.
    pub get_overlapping_inputs-IsClosed :
        (levels : List (List FileMetaData)) (level : ℕ) (files : List FileMetaData)
        (begin end user_begin user_end : Option Slice)
        → get_elem? levels level ≡ some files
        → All IsKeyed files
        → user_part begin ≡ some user_begin
        → user_part end ≡ some user_end
        → (inputs : List FileMetaData) × (get_overlapping_inputs user levels level begin end
            ≡ some inputs)
          × IsClosed level files user_begin user_end inputs
    unfolding get_overlapping_inputs
    get_overlapping_inputs-IsClosed levels level files begin end user_begin user_end at keyed eb
          ee =
        let (inputs, run, closed) =
          inputs_from-IsClosed (2 * length files + 1) level files user_begin user_end keyed (
            omega (
              arith,
              count-length (is_early user user_begin) files,
              count-length (is_late user user_end) files,
            )) in
        (inputs, rw (eb, ee, at) run, closed)
