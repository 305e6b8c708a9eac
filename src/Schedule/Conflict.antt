-- ===== src/Schedule/Conflict.antt =====
-- What checkConflict answers for lectures: which days it asks for, and how it joins the answers.
use Prim.Native.String.{String}
use text.Mathlib.Text.{◌==◌ as str_eq}
use terp_builder.Base.{ℕ, ◌≡◌, ◌↔◌, inl, inr, refl, ap, sym, ◌∙◌, Bool, true, false}
use terp_builder.Base.{Option, some, List, [], ◌∷◌, All, get_elem?, ◌&&◌, Bool-cases}
use terp_builder.Schedule.{
  Day, mon, tue, wen, thu, fri, Meeting, CourseData, ScheduleModel, lecture_days, all_days,
}
use terp_builder.Schedule.{lecture_loop, check_lecture, check_conflict, ◌&&?◌, branch}
use terp_builder.Schedule.{lecture_round, lecture_checks, ◌||?◌}
use terp_builder.Base.{ltb}
use terp_builder.Schedule.Apart.{Clear, staggered_by}
use terp_builder.Schedule.Check.{lecture_loop-Clear, Clear-lecture_loop}
use terp_builder.Schedule.Update.{Week, Holds}

-- What a meeting's string of days stands for.
pub data StandsFor : String → List Day → Type 0 where
  on_mwf : StandsFor "MWF" (mon ∷ wen ∷ fri ∷ [])
  on_tuth : StandsFor "TuTh" (tue ∷ thu ∷ [])
  on_mw : StandsFor "MW" (mon ∷ wen ∷ [])
  on_m : StandsFor "M" (mon ∷ [])
  on_tu : StandsFor "Tu" (tue ∷ [])
  on_w : StandsFor "W" (wen ∷ [])
  on_th : StandsFor "Th" (thu ∷ [])
  on_f : StandsFor "F" (fri ∷ [])

lecture_days_lem : (days : String) (ds : List Day) → StandsFor days ds → lecture_days days ≡ some ds
unfolding lecture_days
lecture_days_lem _ _ on_mwf = refl
lecture_days_lem _ _ on_tuth = refl
lecture_days_lem _ _ on_mw = refl
lecture_days_lem _ _ on_m = refl
lecture_days_lem _ _ on_tu = refl
lecture_days_lem _ _ on_w = refl
lecture_days_lem _ _ on_th = refl
lecture_days_lem _ _ on_f = refl

-- A course of the schedule whose lecture has recognised times.
abbrev pub IsTimed : (String → Option ℕ) → CourseData → Type 0
IsTimed date c =
    (m : Meeting) × (get_elem? c.meeting 0 ≡ some m)
    × (a : ℕ) × (date m.start_time ≡ some a)
    × (b : ℕ) × (date m.end_time ≡ some b)

-- A check that answers, and answers true exactly if P holds.
abbrev Decides : Option Bool → Type 0 → Type 0
Decides o P = (b : Bool) × (o ≡ some b) × ((b ≡ true) ↔ P)

both-Decides :
    (P Q : Type 0) (o r : Option Bool) → Decides o P → Decides r Q → Decides (o &&? r) (P × Q)
both-Decides P Q o r (true, e, (there, back)) (x, e', (there', back')) =
    (x, rw (e, e'), (λ h. (there refl, there' h), λ (p, q). back' q))
both-Decides P Q o r (false, e, (there, back)) (x, e', k) =
    (false, rw e, (λ h. absurd (cc h), λ (p, q). back p))

all_days-Decides :
    (check : Day → Option Bool) (P : Day → Type 0) (ds : List Day)
    → ((d : Day) → Decides (check d) (P d))
    → Decides (all_days check ds) (All P ds)
all_days-Decides check P [] known = (true, refl, (λ h. tt, λ h. refl))
all_days-Decides check P (d ∷ ds) known =
    both-Decides (P d) (All P ds) (check d) (all_days check ds) (known d)
      (all_days-Decides check P ds known)

staggered-answers :
    (a b s e : ℕ) → (x : Bool) × (staggered_by (some a) (some b) (some s) (some e) ≡ some x)
staggered-answers a b s e = answer (ltb a s) (ltb b e) (ltb s a) (ltb e b)
  where
    answer : (p q r t : Bool) → (x : Bool) × ((some p &&? some q ||? some r &&? some t) ≡ some x)
    answer true true r t = (true, refl)
    answer true false true t = (t, refl)
    answer true false false t = (false, refl)
    answer false q true t = (t, refl)
    answer false q false t = (false, refl)

module _ (date : String → Option ℕ) (start_time end_time : String) where
  round-answers :
      (m : Meeting) (a b s e : ℕ) (r : Bool)
      → date m.start_time ≡ some a
      → date m.end_time ≡ some b
      → date start_time ≡ some s
      → date end_time ≡ some e
      → (x : Bool) × (lecture_round date (some m) start_time end_time (some r) ≡ some x)
  round-answers m a b s e r ea eb es ee =
      elim (Bool-cases (str_eq m.start_time start_time && str_eq m.end_time end_time)) [
        | inl same ↦ (true, rw same refl)
        | inr other ↦ rw (other, ea, eb, es, ee) (decided (staggered-answers a b s e))
      ]
    where
      decided :
          {o : Option Bool}
          → (x : Bool) × (o ≡ some x)
          → (x : Bool) × (branch o (some r) (some true) ≡ some x)
      decided (true, h) = (r, rw h)
      decided (false, h) = (true, rw h)

  lecture_loop-answers :
      (s e : ℕ) (arr : List CourseData)
      → date start_time ≡ some s
      → date end_time ≡ some e
      → All (IsTimed date) arr
      → (x : Bool) × (lecture_loop date arr start_time end_time ≡ some x)
  unfolding lecture_loop
  lecture_loop-answers s e [] es ee timed = (false, refl)
  lecture_loop-answers s e (c ∷ arr) es ee ((m, first, a, ea, b, eb), timed) =
      let (r, er) = lecture_loop-answers s e arr es ee timed in
      rw (first, er) (round-answers m a b s e r ea eb es ee)

  lecture_loop-Decides :
      (arr : List CourseData)
      → (x : Bool) × (lecture_loop date arr start_time end_time ≡ some x)
      → Decides
          (lecture_loop date arr start_time end_time)
          (¬ All (Clear date start_time end_time) arr)
  lecture_loop-Decides arr (true, e) = (
    true,
    e,
    (λ h clear. cc (e, Clear-lecture_loop date start_time end_time arr clear), λ h. refl),
  )
  lecture_loop-Decides arr (false, e) = (
    false,
    e,
    (λ h. absurd (cc h), λ h. absurd (h (lecture_loop-Clear date start_time end_time arr e))),
  )

module _ (lecture_date discussion_date : String → Option ℕ) (s : ScheduleModel) where
  check_conflict-first :
      (course : CourseData) (m : Meeting) (rest : List Meeting)
      → course.meeting ≡ m ∷ rest
      → check_conflict lecture_date discussion_date s course
        ≡ lecture_checks lecture_date discussion_date s course.meeting m (lecture_days m.days)
  unfolding check_conflict
  check_conflict-first course m rest em = rw em

  -- checkConflict on a schedule that has every day, where the lectures of every day and the course's
  -- first meeting have recognised times and the meeting's days are in one of the eight written forms:
  -- it does not trap, and it answers true exactly if on every one of these days a course's lecture is
  -- in the way. A clash on one of several days is no conflict.
  pub check_conflict_lem :
      (course : CourseData) (m : Meeting) (rest : List Meeting) (ds : List Day) (w : Week)
      (starts ends : ℕ)
      → Holds s w
      → ((d : Day) → All (IsTimed lecture_date) (w d))
      → course.meeting ≡ m ∷ rest
      → StandsFor m.days ds
      → lecture_date m.start_time ≡ some starts
      → lecture_date m.end_time ≡ some ends
      → (conflict : Bool) × (check_conflict lecture_date discussion_date s course ≡ some conflict)
        × ((conflict ≡ true)
            ↔ All (λ d. ¬ All (Clear lecture_date m.start_time m.end_time) (w d)) ds)
  unfolding check_lecture lecture_checks
  check_conflict_lem course m rest ds w starts ends holds timed em days es ee =
      let (conflict, e, k) =
        all_days-Decides
          (λ d. check_lecture lecture_date discussion_date s d m.start_time m.end_time)
          (λ d. ¬ All (Clear lecture_date m.start_time m.end_time) (w d)) ds
          (λ d. rw (holds d) (
            lecture_loop-Decides lecture_date m.start_time m.end_time (w d) (
              lecture_loop-answers lecture_date m.start_time m.end_time starts ends (w d) es ee
                (timed d)))) in
      (
        conflict,
        check_conflict-first course m rest em
            ∙ ap (lecture_checks lecture_date discussion_date s course.meeting m)
                (lecture_days_lem m.days ds days)
            ∙ e,
        k,
      )

  -- For a course whose first meeting is on recognised days, checkConflict does not look at the other
  -- meetings: discussions are never compared.
  pub check_conflict-first_meeting :
      (course : CourseData) (m : Meeting) (rest : List Meeting) (ds : List Day)
      → lecture_days m.days ≡ some ds
      → check_conflict lecture_date discussion_date s (record course { meeting = m ∷ rest })
        ≡ check_conflict lecture_date discussion_date s (record course { meeting = m ∷ [] })
  unfolding check_conflict
  check_conflict-first_meeting course m rest ds ed =
      ap (lecture_checks lecture_date discussion_date s (m ∷ rest) m) ed
      ∙ sym (ap (lecture_checks lecture_date discussion_date s (m ∷ []) m) ed)
