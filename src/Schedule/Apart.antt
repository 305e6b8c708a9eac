-- ===== src/Schedule/Apart.antt =====
-- The condition under which the loops of checkLecture go on, over recognised times.
use Prim.Native.String.{String}
use text.Mathlib.Text.{◌==◌ as str_eq}
use terp_builder.Base.{ℕ, ◌<◌, ◌≡◌, ◌↔◌, inl, inr, refl, ap, sym, ◌∙◌, arith, Bool, true, false}
use terp_builder.Base.{Option, none, some, get_elem?, ◌&&◌, Bool-cases}
use terp_builder.Schedule.{Meeting, CourseData, staggered}
use terp_builder.Schedule.{◌&&?◌}
use terp_builder.Schedule.{before, ◌||?◌}
use terp_builder.Base.{◌≢◌, ◌⊎◌, ltb, ltb→lt}
use text.Mathlib.TextEquality.{eq_iff}
use terp_builder.Base.{some_inj}

-- Two pairs of times of which one starts and ends before the other.
abbrev pub IsStaggered : ℕ → ℕ → ℕ → ℕ → Type 0
IsStaggered a b s e = ((a < s) × (b < e)) ⊎ ((s < a) × (e < b))

-- The times of a meeting and the new ones are all recognised, and one of the two lectures starts
-- and ends before the other.
pub record IsApart (date : String → Option ℕ) (start_time end_time : String) (m : Meeting)
    : Type 0 where
  pub starts : ℕ
  pub ends : ℕ
  pub new_starts : ℕ
  pub new_ends : ℕ
  pub starts_at : date m.start_time ≡ some starts
  pub ends_at : date m.end_time ≡ some ends
  pub new_starts_at : date start_time ≡ some new_starts
  pub new_ends_at : date end_time ≡ some new_ends
  pub staggers : IsStaggered starts ends new_starts new_ends

-- A course of the day that does not stand in the way.
abbrev pub Clear : (String → Option ℕ) → String → String → CourseData → Type 0
Clear date start_time end_time c =
    (m : Meeting) × (get_elem? c.meeting 0 ≡ some m) × IsApart date start_time end_time m

abbrev pub staggered_by : Option ℕ → Option ℕ → Option ℕ → Option ℕ → Option Bool
staggered_by oa ob os oe = before oa os &&? before ob oe ||? before os oa &&? before oe ob

staggered_by-numbers :
    (a b s e : ℕ)
    → (staggered_by (some a) (some b) (some s) (some e) ≡ some true) ↔ IsStaggered a b s e
staggered_by-numbers a b s e = elim (Bool-cases (ltb a s)) [
  | inl first ↦ elim (Bool-cases (ltb b e)) [
    | inl less ↦ (λ h. inl (ltb→lt a s first, ltb→lt b e less), λ h. rw (first, less) refl)
    | inr more ↦
        let back : ltb s a ≡ false = ground (arith, first) in
        (λ h. absurd (cc (rw (first, more, back) at h)), λ h. absurd (not_staggered h first more))
  ]
  | inr late ↦ elim (Bool-cases (ltb s a)) [
    | inl second ↦ elim (Bool-cases (ltb e b)) [
      | inl less ↦
          (λ h. inr (ltb→lt s a second, ltb→lt e b less), λ h. rw (late, second, less) refl)
      | inr more ↦ (
        λ h. absurd (cc (rw (late, second, more) at h)),
        λ h. absurd (not_staggered' h late more),
      )
    ]
    | inr same ↦ (λ h. absurd (cc (rw (late, same) at h)), λ h. absurd (no_order h late same))
  ]
]
  where
    not_staggered : IsStaggered a b s e → ltb a s ≡ true → ltb b e ≡ false → ⊥
    not_staggered (inl (h, k)) first more = ground arith
    not_staggered (inr (h, k)) first more = ground arith

    not_staggered' : IsStaggered a b s e → ltb a s ≡ false → ltb e b ≡ false → ⊥
    not_staggered' (inl (h, k)) late more = ground arith
    not_staggered' (inr (h, k)) late more = ground arith

    no_order : IsStaggered a b s e → ltb a s ≡ false → ltb s a ≡ false → ⊥
    no_order (inl (h, k)) late same = ground arith
    no_order (inr (h, k)) late same = ground arith

no_end :
    (a s : ℕ) (ob oe : Option ℕ)
    → (ob ≡ none) ⊎ (oe ≡ none)
    → staggered_by (some a) ob (some s) oe ≢ some true
no_end a s none none h e = ground arith
no_end a s none (some n) h e = ground arith
no_end a s (some n) none h e = ground arith
no_end a s (some n) (some k) (inl h) e = cc
no_end a s (some n) (some k) (inr h) e = cc

module _ (date : String → Option ℕ) (start_time end_time : String) (m : Meeting) where
  pub staggered-IsApart :
      staggered date m start_time end_time ≡ some true → IsApart date start_time end_time m
  staggered-IsApart h =
      by_times (date m.start_time) (date m.end_time) (date start_time) (date end_time) refl refl
        refl refl h
    where
      by_times :
          (oa ob os oe : Option ℕ)
          → date m.start_time ≡ oa
          → date m.end_time ≡ ob
          → date start_time ≡ os
          → date end_time ≡ oe
          → staggered_by oa ob os oe ≡ some true
          → IsApart date start_time end_time m
      by_times none ob os oe ea eb es ee h = cc h
      by_times (some a) ob none oe ea eb es ee h = cc h
      by_times (some a) none (some s) oe ea eb es ee h = absurd (no_end a s none oe (inl refl) h)
      by_times (some a) (some b) (some s) none ea eb es ee h =
          absurd (no_end a s (some b) none (inr refl) h)
      by_times (some a) (some b) (some s) (some e) ea eb es ee h = record {
        starts = a;
        ends = b;
        new_starts = s;
        new_ends = e;
        starts_at = ea;
        ends_at = eb;
        new_starts_at = es;
        new_ends_at = ee;
        staggers = (staggered_by-numbers a b s e).0 h;
      }

  pub IsApart-staggered :
      IsApart date start_time end_time m → staggered date m start_time end_time ≡ some true
  IsApart-staggered apart =
      rw (apart.starts_at, apart.ends_at, apart.new_starts_at, apart.new_ends_at)
        ((staggered_by-numbers apart.starts apart.ends apart.new_starts apart.new_ends).1
          apart.staggers)

  other_start :
      (a s : ℕ)
      → date m.start_time ≡ some a
      → date start_time ≡ some s
      → a ≢ s
      → (str_eq m.start_time start_time && str_eq m.end_time end_time) ≡ false
  other_start a s ea es differ = elim (Bool-cases (str_eq m.start_time start_time)) [
    | inr other ↦ rw other refl
    | inl same ↦ absurd (differ (some_inj (sym ea ∙ ap date ((eq_iff _ _).0 same) ∙ es)))
  ]

  pub IsApart-times :
      IsApart date start_time end_time m
      → (str_eq m.start_time start_time && str_eq m.end_time end_time) ≡ false
  IsApart-times apart =
      other_start apart.starts apart.new_starts apart.starts_at apart.new_starts_at
        (apart_numbers apart.staggers)
    where
      apart_numbers : {a b s e : ℕ} → IsStaggered a b s e → a ≢ s
      apart_numbers (inl (h, k)) same = absurd (omega (arith, h, same))
      apart_numbers (inr (h, k)) same = absurd (omega (arith, h, same))
