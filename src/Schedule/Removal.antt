-- ===== src/Schedule/Removal.antt =====
-- Adding a course and removing it again; and courses whose days the chain does not know.
use Prim.Native.String.{String, count}
use text.Mathlib.TextEquality.{eq_iff}
use terp_builder.Base.{◌≢◌, ◌≤◌, ◌==◌, refl, arith}
use text.Mathlib.Text.{◌==◌ as str_eq}
use text.Mathlib.TextPositions.{eq_refl}
use terp_builder.Base.{ℕ, ◌≡◌, ap, ◌∙◌, false, All, Bool-cases, inl, inr}
use terp_builder.Base.{Option, none, some, List, [], ◌∷◌, ◌++◌, get_elem?, if◌then◌else◌, ◌>>=◌}
use terp_builder.Schedule.{
  Day, Meeting, CourseData, ScheduleModel, lecture_days, selected, same_course,
}
use terp_builder.Schedule.{delete_class, delete_course, add_to_schedule, remove_from_schedule}
use terp_builder.Schedule.{check_conflict}
use terp_builder.Schedule.Update.{Week, Holds, is_on, with_course, without_course}
use terp_builder.Schedule.Update.{add_to_schedule_lem, remove_from_schedule-changes}

-- The section is on no day and in no entry of currClasses.
pub record IsNew (course : CourseData) (s : ScheduleModel) (w : Week) : Type 0 where
  pub days : (d : Day) → All (λ c. same_course c course ≡ false) (w d)
  pub classes : All (λ x. str_eq x course.section_id ≡ false) s.curr_classes

delete_course-append :
    (course : CourseData) (l : List CourseData)
    → All (λ c. same_course c course ≡ false) l
    → delete_course course (l ++ (course ∷ [])) ≡ l
delete_course-append course [] h = rw (eq_refl course.section_id)
delete_course-append course (c ∷ l) h = rw h.0 (ap (λ r. c ∷ r) (delete_course-append course l h.1))

delete_class-append :
    (x : String) (l : List String)
    → All (λ y. str_eq y x ≡ false) l
    → delete_class x (l ++ (x ∷ [])) ≡ l
delete_class-append x [] h = rw (eq_refl x)
delete_class-append x (y ∷ l) h = rw h.0 (ap (λ r. y ∷ r) (delete_class-append x l h.1))

without-with :
    (course : CourseData) (days : String) (w : Week) (d : Day)
    → All (λ c. same_course c course ≡ false) (w d)
    → without_course course days (with_course course days w) d ≡ w d
without-with course days w d h = elim (Bool-cases (is_on d (selected (lecture_days days)))) [
  | inl e ↦ rw e (delete_course-append course (w d) h)
  | inr e ↦ rw e
]

differs : (a b : String) → a ≢ b → str_eq a b ≡ false
differs a b h = elim (Bool-cases (str_eq a b)) [ inl e ↦ absurd (h ((eq_iff a b).0 e)) | inr e ↦ e ]

-- No test of the chain holds of longer strings but the two.
lecture_days-none :
    (days : String) → 3 ≤ count days → days ≢ "MWF" → days ≢ "TuTh" → lecture_days days ≡ none
unfolding lecture_days
lecture_days-none days long mwf tuth =
    let one : (count days == 1) ≡ false = ground (arith, long) in
    let two : (count days == 2) ≡ false = ground (arith, long) in
    rw (differs days "MWF" mwf, differs days "TuTh" tuth, differs days "MW" not_mw, one, two) refl
  where
    not_mw : days ≢ "MW"
    not_mw e = absurd (omega (arith, ap count e, long))

module _ (lecture_date discussion_date : String → Option ℕ) where
  -- removeFromSchedule undoes addToSchedule: on a schedule with every day, for a course with a first
  -- meeting and without conflict whose section is not in the schedule, both return and the week and
  -- currClasses are what they were.
  pub remove-add :
      (course : CourseData) (m : Meeting) (s : ScheduleModel) (w : Week)
      → Holds s w
      → get_elem? course.meeting 0 ≡ some m
      → check_conflict lecture_date discussion_date s course ≡ some false
      → IsNew course s w
      → (s' : ScheduleModel) × ((add_to_schedule lecture_date discussion_date course s
            >>= remove_from_schedule course)
          ≡ some s')
        × Holds s' w
        × (s'.curr_classes ≡ s.curr_classes)
  remove-add course m s w h em ec new =
      let (s1, e1, f1, h1, c1) =
        add_to_schedule_lem lecture_date discussion_date course m s w false h em ec in
      let (s2, e2, f2, h2, c2) =
        remove_from_schedule-changes course m s1 (with_course course m.days w) h1 em in
      (
        s2,
        rw e1 e2,
        λ d. h2 d ∙ ap some (without-with course m.days w d (new.days d)),
        c2
            ∙ ap (delete_class course.section_id) c1
            ∙ delete_class-append course.section_id s.curr_classes new.classes,
      )

  -- The answer of the check for a course with one meeting, on days that no test knows.
  unknown-check :
      (course : CourseData) (m : Meeting) (s : ScheduleModel)
      → course.meeting ≡ m ∷ []
      → lecture_days m.days ≡ none
      → check_conflict lecture_date discussion_date s course ≡ some false
  unfolding check_conflict
  unknown-check course m s em ed = rw (em, ed) refl

  -- addToSchedule of a course with one meeting, whose days are three or more characters other than
  -- "MWF" and "TuTh", to a schedule that has every day, whatever stands on it: it returns, addFailed
  -- is false and the section is appended to currClasses, but no day's list has changed.
  pub add_to_schedule_unknown_days :
      (course : CourseData) (m : Meeting) (s : ScheduleModel) (w : Week)
      → Holds s w
      → course.meeting ≡ m ∷ []
      → 3 ≤ count m.days
      → m.days ≢ "MWF"
      → m.days ≢ "TuTh"
      → (s' : ScheduleModel) × (add_to_schedule lecture_date discussion_date course s ≡ some s')
        × (s'.add_failed ≡ false)
        × Holds s' w
        × (s'.curr_classes ≡ s.curr_classes ++ (course.section_id ∷ []))
  add_to_schedule_unknown_days course m s w h em long mwf tuth =
      let ed = lecture_days-none m.days long mwf tuth in
      let (s1, e1, f1, h1, c1) =
        add_to_schedule_lem lecture_date discussion_date course m s w false h (rw em refl)
          (unknown-check course m s em ed) in
      (
        s1,
        e1,
        f1,
        λ d. h1 d ∙ ap (λ o. some (if is_on d (selected o) then w d ++ (course ∷ []) else w d)) ed,
        c1,
      )
