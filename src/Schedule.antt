-- ===== src/Schedule.antt =====
-- Terp_Builder/Terp_Builder/Models/ScheduleModel.swift and Course.swift: the weekly schedule that
-- the app's screens share.
-- A trap (an array index out of range, a nil that is unwrapped by `!`) is `none`. DateFormatter is
-- Foundation's: `lecture_date` and `discussion_date` are its date(from:) for the two formats that
-- the code sets, "HH:mma" and "HH:mm", with a Date as a number. A Swift string is its
-- characters, each one code point, and is compared by them.
pub mod Apart
pub mod Check
pub mod Conflict
pub mod Gone
pub mod Update
pub mod Removal
use Prim.Native.Char.{code}
use Prim.Native.String.{String, count}
use text.Mathlib.Text.{◌==◌ as str_eq}
use terp_builder.Base.{ℕ, Bool, true, false, ◌&&◌, Option, none, some, List, [], ◌∷◌, ◌++◌}
use terp_builder.Base.{get_elem?, ◌>>=◌, ltb, ◌==◌, if◌then◌else◌}

pub data Day : Type 0 where
  sun mon tue wen thu fri sat : Day

pub record Meeting : Type 0 where
  pub days : String
  pub room : String
  pub building : String
  pub classtype : String
  pub start_time : String
  pub end_time : String

pub record Relationship : Type 0 where
  pub prereqs : Option String

pub record CourseData : Type 0 where
  pub id : String
  pub name : String
  pub credits : String
  pub description : String
  pub relationships : Relationship
  pub instructor : String
  pub section_id : String
  pub meeting : List Meeting

-- `==` of CourseData
abbrev pub same_course : CourseData → CourseData → Bool
same_course lhs rhs = str_eq lhs.section_id rhs.section_id

-- `curr_schedule` is the dictionary currSchedule: `none` where a day is no key of it.
pub record ScheduleModel : Type 0 where
  pub curr_schedule : Day → Option (List CourseData)
  pub curr_classes : List String
  pub add_failed : Bool

-- The property's initial values.
abbrev pub initial : ScheduleModel
initial = record { curr_schedule = λ day. some []; curr_classes = []; add_failed = false }

abbrev pub day_index : Day → ℕ
day_index sun = 0
day_index mon = 1
day_index tue = 2
day_index wen = 3
day_index thu = 4
day_index fri = 5
day_index sat = 6

abbrev pub same_day : Day → Day → Bool
same_day a b = day_index a == day_index b

-- `days.first == c`
abbrev first_is : ℕ → String → Bool
first_is c String.[] = false
first_is c (String.◌∷◌ d s) = code d == c

-- The chain of tests on `days` that addToSchedule, checkConflict and removeFromSchedule each write
-- out: the days that it selects, in its order, or `none` where no test holds.
unfoldable pub lecture_days : String → Option (List Day)
lecture_days days =
    if str_eq days "MWF"
    then some (mon ∷ wen ∷ fri ∷ [])
    else if str_eq days "TuTh"
    then some (tue ∷ thu ∷ [])
    else if str_eq days "MW"
    then some (mon ∷ wen ∷ [])
    else if count days == 1
    then (if first_is b'M' days
        then some (mon ∷ [])
        else if first_is b'W' days
        then some (wen ∷ [])
        else some (fri ∷ []))
    else if count days == 2
    then (if str_eq days "Tu" then some (tue ∷ []) else some (thu ∷ []))
    else none

-- `&&` and `||` evaluate their right side only where it is needed, so its trap counts only there.
infixr 35 ◌&&?◌
abbrev pub ◌&&?◌ : Option Bool → Option Bool → Option Bool
some true &&? r = r
some false &&? r = some false
none &&? r = none

infixr 30 ◌||?◌
abbrev pub ◌||?◌ : Option Bool → Option Bool → Option Bool
some true ||? r = some true
some false ||? r = r
none ||? r = none

-- `a! < b!`
abbrev pub before : Option ℕ → Option ℕ → Option Bool
before (some a) (some b) = some (ltb a b)
before (some a) none = none
before none b = none

-- The condition under which the loops go on: one interval starts and ends before the other.
abbrev pub staggered : (String → Option ℕ) → Meeting → String → String → Option Bool
staggered date m start_time end_time =
    before (date m.start_time) (date start_time) &&? before (date m.end_time) (date end_time)
    ||? before (date start_time) (date m.start_time) &&? before (date end_time) (date m.end_time)

-- `if` on a condition that may trap.
abbrev pub branch : Option Bool → Option Bool → Option Bool → Option Bool
branch none x y = none
branch (some true) x y = x
branch (some false) x y = y

-- One round of the loop in checkLecture; `rest` is what the later rounds answer.
abbrev lecture_round :
    (String → Option ℕ) → Option Meeting → String → String → Option Bool → Option Bool
lecture_round date none start_time end_time rest = none
lecture_round date (some m) start_time end_time rest =
    if str_eq m.start_time start_time && str_eq m.end_time end_time
    then some true
    else branch (staggered date m start_time end_time) rest (some true)

unfoldable pub lecture_loop : (String → Option ℕ) → List CourseData → String → String → Option Bool
lecture_loop date [] start_time end_time = some false
lecture_loop date (c ∷ arr) start_time end_time =
    lecture_round date (get_elem? c.meeting 0) start_time end_time
      (lecture_loop date arr start_time end_time)

-- One round of the loop in checkDiscussion: a course without two meetings is passed over.
abbrev discussion_round :
    (String → Option ℕ) → List Meeting → String → String → Option Bool → Option Bool
discussion_round date (first ∷ second ∷ []) start_time end_time rest =
    branch (staggered date second start_time end_time) rest (some true)
discussion_round date _ start_time end_time rest = rest

unfoldable pub discussion_loop :
    (String → Option ℕ) → List CourseData → String → String → Option Bool
discussion_loop date [] start_time end_time = some false
discussion_loop date (c ∷ arr) start_time end_time =
    discussion_round date c.meeting start_time end_time
      (discussion_loop date arr start_time end_time)

-- `if let arr = currSchedule[day]`
abbrev on_day : Option (List CourseData) → (List CourseData → Option Bool) → Option Bool
on_day none check = some false
on_day (some arr) check = check arr

-- The checks of the selected days, joined by `&&`.
abbrev pub all_days : (Day → Option Bool) → List Day → Option Bool
all_days check [] = some true
all_days check (d ∷ ds) = check d &&? all_days check ds

-- One day's list is replaced: the append of addToSchedule, and quickDelete with `delete_course`.
-- `currSchedule[day]!` traps where the day is no key.
abbrev changed :
    (List CourseData → List CourseData)
    → Day
    → ScheduleModel
    → Option (List CourseData)
    → Option ScheduleModel
changed f day s none = none
changed f day s (some arr) =
    some
      (record s { curr_schedule = λ d. if same_day day d then some (f arr) else s.curr_schedule d })

unfoldable pub change :
    (List CourseData → List CourseData) → Day → ScheduleModel → Option ScheduleModel
change f day s = changed f day s (s.curr_schedule day)

-- The change of one day after the other.
unfoldable pub change_all :
    (List CourseData → List CourseData) → List Day → ScheduleModel → Option ScheduleModel
change_all f [] s = some s
change_all f (d ∷ ds) s = do s' ← change f d s; change_all f ds s'

-- The branches of the chain; where no test holds nothing is changed.
abbrev pub selected : Option (List Day) → List Day
selected none = []
selected (some ds) = ds

-- firstIndex(of:) and remove(at:)
abbrev pub delete_class : String → List String → List String
delete_class x [] = []
delete_class x (y ∷ ys) = let rest = delete_class x ys in if str_eq y x then ys else y ∷ rest

abbrev pub delete_course : CourseData → List CourseData → List CourseData
delete_course x [] = []
delete_course x (y ∷ ys) = let rest = delete_course x ys in if same_course y x then ys else y ∷ rest

unfoldable pub remove_from_schedule : CourseData → ScheduleModel → Option ScheduleModel
remove_from_schedule course s = do
  m ← get_elem? course.meeting 0
  change_all (delete_course course) (selected (lecture_days m.days))
      (record s { curr_classes = delete_class course.section_id s.curr_classes })

module _ (lecture_date discussion_date : String → Option ℕ) where
  unfoldable pub check_lecture : ScheduleModel → Day → String → String → Option Bool
  unfolding lecture_loop
  check_lecture s day start_time end_time =
      on_day (s.curr_schedule day) (λ arr. lecture_loop lecture_date arr start_time end_time)

  unfoldable pub check_discussion : ScheduleModel → Day → String → String → Option Bool
  unfolding discussion_loop
  check_discussion s day start_time end_time =
      on_day (s.curr_schedule day) (λ arr. discussion_loop discussion_date arr start_time end_time)

  discussion_checks : ScheduleModel → Meeting → Option (List Day) → Option Bool
  discussion_checks s m none = some false
  discussion_checks s m (some ds) = all_days (λ d. check_discussion s d m.start_time m.end_time) ds

  -- `if course.meeting.count == 2`
  check_second : ScheduleModel → List Meeting → Option Bool
  unfolding discussion_checks
  check_second s (first ∷ m ∷ []) = discussion_checks s m (lecture_days m.days)
  check_second s _ = some false

  lecture_checks : ScheduleModel → List Meeting → Meeting → Option (List Day) → Option Bool
  unfolding check_second
  lecture_checks s meeting m none = check_second s meeting
  lecture_checks s meeting m (some ds) =
      all_days (λ d. check_lecture s d m.start_time m.end_time) ds

  unfoldable pub check_conflict : ScheduleModel → CourseData → Option Bool
  unfolding lecture_checks
  check_conflict s course = do
    m ← get_elem? course.meeting 0
    lecture_checks s course.meeting m (lecture_days m.days)

  added : CourseData → ScheduleModel → Option ScheduleModel
  added course s = do
    m ← get_elem? course.meeting 0
    s' ← change_all (λ arr. arr ++ (course ∷ [])) (selected (lecture_days m.days)) s
    some (record s' {
      curr_classes = s'.curr_classes ++ (course.section_id ∷ []);
      add_failed = false;
    })

  unfoldable pub add_to_schedule : CourseData → ScheduleModel → Option ScheduleModel
  unfolding added
  add_to_schedule course s = do
    conflict ← check_conflict s course
    if conflict then some (record s { add_failed = true }) else added course s
