-- ===== src/Schedule/Update.antt =====
-- What adding to and removing from the schedule change, and what they leave alone.
use Prim.Native.String.{String, count}
use mathlib.Core.Path.{subst}
use text.Mathlib.Text.{◌==◌ as str_eq}
use terp_builder.Base.{ℕ, ◌≡◌, inl, inr, refl, ap, sym, ◌∙◌, arith, Bool, true, false, ◌||◌}
use terp_builder.Base.{
  Option, some, List, [], ◌∷◌, ◌++◌, get_elem?, Bool-cases, if◌then◌else◌, if-both,
}
use terp_builder.Base.{◌==◌, ==_iff}
use terp_builder.Schedule.{Day, sun, mon, tue, wen, thu, fri, sat, day_index, same_day}
use terp_builder.Schedule.{Meeting, CourseData, ScheduleModel, lecture_days, selected, first_is}
use terp_builder.Schedule.{change, change_all, delete_class, delete_course}
use terp_builder.Schedule.{add_to_schedule, remove_from_schedule, check_conflict}
use terp_builder.Schedule.Gone.{
  FirstGone, IsSection, delete_class-FirstGone, delete_course-FirstGone,
}

-- The schedule as a client sees it: for each day its courses in order.
abbrev pub Week : Type 0
Week = Day → List CourseData

-- Every day is a key of the dictionary, and has the week's list.
abbrev pub Holds : ScheduleModel → Week → Type 0
Holds s w = (d : Day) → s.curr_schedule d ≡ some (w d)

day_at : ℕ → Day
day_at n =
    if n == 0
    then sun
    else if n == 1
    then mon
    else if n == 2
    then tue
    else if n == 3
    then wen
    else if n == 4
    then thu
    else if n == 5
    then fri
    else sat

day_at-day_index : (d : Day) → day_at (day_index d) ≡ d
unfolding day_at
day_at-day_index sun = refl
day_at-day_index mon = refl
day_at-day_index tue = refl
day_at-day_index wen = refl
day_at-day_index thu = refl
day_at-day_index fri = refl
day_at-day_index sat = refl

same_day-eq : (a b : Day) → same_day a b ≡ true → a ≡ b
same_day-eq a b h =
    sym (day_at-day_index a)
    ∙ ap day_at ((==_iff (day_index a) (day_index b)).0 h)
    ∙ day_at-day_index b

abbrev pub is_on : Day → List Day → Bool
is_on d [] = false
is_on d (e ∷ es) = same_day e d || is_on d es

-- A day's list after the change of several days, one after the other.
abbrev touched :
    (List CourseData → List CourseData) → List Day → Day → List CourseData → List CourseData
touched f [] d l = l
touched f (e ∷ es) d l = touched f es d (if same_day e d then f l else l)

module _ (f : List CourseData → List CourseData) where
  abbrev Distinct : Option (List Day) → Type 0
  Distinct o =
      (d : Day) (l : List CourseData)
      → touched f (selected o) d l ≡ (if is_on d (selected o) then f l else l)

  three : Distinct (some (mon ∷ wen ∷ fri ∷ []))
  three sun l = refl
  three _ l = refl

  tuesday_thursday : Distinct (some (tue ∷ thu ∷ []))
  tuesday_thursday sun l = refl
  tuesday_thursday _ l = refl

  monday_wednesday : Distinct (some (mon ∷ wen ∷ []))
  monday_wednesday sun l = refl
  monday_wednesday _ l = refl

  one : (e : Day) → Distinct (some (e ∷ []))
  one e d l = ground arith

  -- The days that the chain selects are all different.
  lecture_days-Distinct : (days : String) → Distinct (lecture_days days)
  unfolding lecture_days
  lecture_days-Distinct days = if-both Distinct (str_eq days "MWF") _ _ three (
      if-both Distinct (str_eq days "TuTh") _ _ tuesday_thursday (
        if-both Distinct (str_eq days "MW") _ _ monday_wednesday (
          if-both Distinct (count days == 1) _ _
            (if-both Distinct (first_is b'M' days) _ _ (one mon)
              (if-both Distinct (first_is b'W' days) _ _ (one wen) (one fri)))
            (if-both Distinct (count days == 2) _ _
              (if-both Distinct (str_eq days "Tu") _ _ (one tue) (one thu)) (λ d l. refl)))))

record Changed (s s' : ScheduleModel) (w : Week) : Type 0 where
  classes : s'.curr_classes ≡ s.curr_classes
  failed : s'.add_failed ≡ s.add_failed
  holds : Holds s' w

module _ (f : List CourseData → List CourseData) where
  change-Changed :
      (s : ScheduleModel) (w : Week) (day : Day)
      → Holds s w
      → (s' : ScheduleModel) × (change f day s ≡ some s')
        × Changed s s' (λ d. if same_day day d then f (w d) else w d)
  unfolding change
  change-Changed s w day h = (
    record s {
      curr_schedule = λ d. if same_day day d then some (f (w day)) else s.curr_schedule d;
    },
    rw (h day),
    record {
      classes = refl;
      failed = refl;
      holds = λ d. elim (Bool-cases (same_day day d)) [
        | inl e ↦ rw e (ap (λ k. some (f (w k))) (same_day-eq day d e))
        | inr e ↦ rw e (h d)
      ];
    },
  )

  change_all-Changed :
      (ds : List Day) (s : ScheduleModel) (w : Week)
      → Holds s w
      → (s' : ScheduleModel) × (change_all f ds s ≡ some s')
        × Changed s s' (λ d. touched f ds d (w d))
  unfolding change_all
  change_all-Changed [] s w h = (s, refl, record { classes = refl; failed = refl; holds = h })
  change_all-Changed (day ∷ ds) s w h =
      let (s', e, c) = change-Changed s w day h in
      let (s'', e', c') = change_all-Changed ds s' _ c.holds in
      (
        s'',
        rw e e',
        record {
          classes = c'.classes ∙ c.classes;
          failed = c'.failed ∙ c.failed;
          holds = c'.holds;
        },
      )

  change_lecture_days :
      (days : String) (s : ScheduleModel) (w : Week)
      → Holds s w
      → (s' : ScheduleModel) × (change_all f (selected (lecture_days days)) s ≡ some s')
        × Changed s s' (λ d. if is_on d (selected (lecture_days days)) then f (w d) else w d)
  change_lecture_days days s w h =
      let (s', e, c) = change_all-Changed (selected (lecture_days days)) s w h in
      (
        s',
        e,
        record {
          classes = c.classes;
          failed = c.failed;
          holds = λ d. c.holds d ∙ ap some (lecture_days-Distinct f days d (w d));
        },
      )

-- The week after a course is added, and after it is removed.
abbrev pub with_course : CourseData → String → Week → Week
with_course course days w d =
    if is_on d (selected (lecture_days days)) then w d ++ (course ∷ []) else w d

abbrev pub without_course : CourseData → String → Week → Week
without_course course days w d =
    if is_on d (selected (lecture_days days)) then delete_course course (w d) else w d

module _ (lecture_date discussion_date : String → Option ℕ) where
  -- addToSchedule on a schedule that has every day, for a course with a first meeting whose check
  -- does not trap: it returns. On a conflict only addFailed changes, to true. Else the course is
  -- appended on each of the days that its first meeting selects, the other days keep their lists,
  -- its section is appended to currClasses, and addFailed is false.
  pub add_to_schedule_lem :
      (course : CourseData) (m : Meeting) (s : ScheduleModel) (w : Week) (conflict : Bool)
      → Holds s w
      → get_elem? course.meeting 0 ≡ some m
      → check_conflict lecture_date discussion_date s course ≡ some conflict
      → (s' : ScheduleModel) × (add_to_schedule lecture_date discussion_date course s ≡ some s')
        × (s'.add_failed ≡ conflict)
        × Holds s' (if conflict then w else with_course course m.days w)
        × (s'.curr_classes
            ≡ (if conflict then s.curr_classes else s.curr_classes ++ (course.section_id ∷ [])))
  unfolding add_to_schedule
  add_to_schedule_lem course m s w true h em ec =
      (record s { add_failed = true }, rw ec, refl, h, refl)
  add_to_schedule_lem course m s w false h em ec =
      let (s', e, c) = change_lecture_days (λ arr. arr ++ (course ∷ [])) m.days s w h in
      (
        record s' {
          curr_classes = s'.curr_classes ++ (course.section_id ∷ []);
          add_failed = false;
        },
        rw (ec, em, e),
        refl,
        c.holds,
        ap (λ l. l ++ (course.section_id ∷ [])) c.classes,
      )

pub remove_from_schedule-changes :
    (course : CourseData) (m : Meeting) (s : ScheduleModel) (w : Week)
    → Holds s w
    → get_elem? course.meeting 0 ≡ some m
    → (s' : ScheduleModel) × (remove_from_schedule course s ≡ some s')
      × (s'.add_failed ≡ s.add_failed)
      × Holds s' (without_course course m.days w)
      × (s'.curr_classes ≡ delete_class course.section_id s.curr_classes)
unfolding remove_from_schedule
remove_from_schedule-changes course m s w h em =
    let (s', e, c) =
      change_lecture_days (delete_course course) m.days
        (record s { curr_classes = delete_class course.section_id s.curr_classes }) w h in
    (s', rw (em, e), c.failed, c.holds, c.classes)

-- A day's list before and after, where the day is selected and where it is not.
abbrev pub IsWithout : CourseData → Bool → List CourseData → List CourseData → Type 0
IsWithout course true l l' = FirstGone (IsSection course) l l'
IsWithout course false l l' = l' ≡ l

deletion-IsWithout :
    (course : CourseData) (b : Bool) (l : List CourseData)
    → IsWithout course b l (if b then delete_course course l else l)
deletion-IsWithout course true l = delete_course-FirstGone course l
deletion-IsWithout course false l = refl

-- removeFromSchedule on a schedule that has every day, for a course with a first meeting: it
-- returns. The first entry of the course's section, where there is one, leaves currClasses, the first
-- course of that section leaves each of the days that its first meeting selects, and the rest stays
-- in its order.
pub remove_from_schedule_lem :
    (course : CourseData) (m : Meeting) (s : ScheduleModel) (w : Week)
    → Holds s w
    → get_elem? course.meeting 0 ≡ some m
    → (s' : ScheduleModel) × (w' : Week) × (remove_from_schedule course s ≡ some s')
      × (s'.add_failed ≡ s.add_failed)
      × Holds s' w'
      × ((d : Day) → IsWithout course (is_on d (selected (lecture_days m.days))) (w d) (w' d))
      × FirstGone (λ x. x ≡ course.section_id) s.curr_classes s'.curr_classes
remove_from_schedule_lem course m s w h em =
    let (s', run, failed, holds, classes) = remove_from_schedule-changes course m s w h em in
    (
      s',
      without_course course m.days w,
      run,
      failed,
      holds,
      λ d. deletion-IsWithout course (is_on d (selected (lecture_days m.days))) (w d),
      subst (FirstGone (λ x. x ≡ course.section_id) s.curr_classes) (sym classes)
          (delete_class-FirstGone course.section_id s.curr_classes),
    )
