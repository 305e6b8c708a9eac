-- ===== src/Tests/Schedule.antt =====
-- The schedule's theorems at a small week: a lecture on Mondays, Wednesdays and Fridays.
use Prim.Native.String.{String, count}
use text.Mathlib.Text.{◌==◌ as str_eq}
use terp_builder.Base.{ℕ, ◌≡◌, ◌↔◌, refl, true, false, Option, none, some, List, [], ◌∷◌}
use terp_builder.Base.{if◌then◌else◌, ◌>>=◌, All}
use terp_builder.Schedule.{same_course, Day, Meeting, CourseData, ScheduleModel}
use terp_builder.Schedule.{lecture_days, selected, remove_from_schedule, check_lecture}
use terp_builder.Schedule.{check_conflict, add_to_schedule}
use terp_builder.Schedule.Check.{check_lecture-false_iff}
use terp_builder.Schedule.Apart.{Clear}
use terp_builder.Schedule.Conflict.{check_conflict_lem, IsTimed, on_mwf}
use terp_builder.Schedule.Gone.{FirstGone}
use terp_builder.Base.{arith, ap, Bool, ◌≢◌}
use terp_builder.Schedule.Update.{Week, Holds, with_course, is_on, IsWithout, add_to_schedule_lem}
use terp_builder.Schedule.Update.{remove_from_schedule_lem}
use terp_builder.Schedule.Removal.{IsNew, remove-add, add_to_schedule_unknown_days}

-- Some times of the two formats, in minutes.
abbrev clock : String → Option ℕ
clock t =
    if str_eq t "9:00am"
    then some 540
    else if str_eq t "9:30am"
    then some 570
    else if str_eq t "9:50am"
    then some 590
    else if str_eq t "10:20am"
    then some 620
    else none

abbrev lecture : String → String → String → Meeting
lecture days start_time end_time = record {
  days = days;
  room = "0324";
  building = "IRB";
  classtype = "";
  start_time = start_time;
  end_time = end_time;
}

abbrev section : String → List Meeting → CourseData
section section_id meeting = record {
  id = "CMSC216";
  name = "Systems";
  credits = "4";
  description = "";
  relationships = record { prereqs = none };
  instructor = "Ada";
  section_id = section_id;
  meeting = meeting;
}

abbrev morning : Meeting
morning = lecture "MWF" "9:00am" "9:50am"

abbrev later : Meeting
later = lecture "MW" "9:30am" "10:20am"

abbrev systems : CourseData
systems = section "0101" (morning ∷ [])

abbrev algorithms : CourseData
algorithms = section "0201" (later ∷ [])

abbrev week : Week
week Day.mon = systems ∷ []
week Day.wen = systems ∷ []
week Day.fri = systems ∷ []
week _ = []

abbrev model : ScheduleModel
model = record {
  curr_schedule = λ day. some (week day);
  curr_classes = "0101" ∷ [];
  add_failed = false;
}

add_to_schedule_lem_example :
    (s' : ScheduleModel) × (add_to_schedule clock clock algorithms model ≡ some s')
    × (s'.add_failed ≡ false)
    × Holds s' (with_course algorithms "MW" week)
    × (s'.curr_classes ≡ "0101" ∷ "0201" ∷ [])
unfolding check_conflict lecture_days check_lecture
add_to_schedule_lem_example =
    add_to_schedule_lem clock clock algorithms later model week false (λ d. refl) refl refl

remove_from_schedule_lem_example :
    (s' : ScheduleModel) × (w' : Week) × (remove_from_schedule systems model ≡ some s')
    × (s'.add_failed ≡ false)
    × Holds s' w'
    × ((d : Day) → IsWithout systems (is_on d (selected (lecture_days "MWF"))) (week d) (w' d))
    × FirstGone (λ x. x ≡ "0101") ("0101" ∷ []) s'.curr_classes
remove_from_schedule_lem_example =
    remove_from_schedule_lem systems morning model week (λ d. refl) refl

algorithms-IsNew : IsNew algorithms model week
algorithms-IsNew = record { days = absent; classes = (refl, tt) }
  where
    absent : (d : Day) → All (λ c. same_course c algorithms ≡ false) (week d)
    absent Day.sun = tt
    absent Day.mon = (refl, tt)
    absent Day.tue = tt
    absent Day.wen = (refl, tt)
    absent Day.thu = tt
    absent Day.fri = (refl, tt)
    absent Day.sat = tt

remove-add_example :
    (s' : ScheduleModel) × ((add_to_schedule clock clock algorithms model
        >>= remove_from_schedule algorithms)
      ≡ some s')
    × Holds s' week
    × (s'.curr_classes ≡ "0101" ∷ [])
unfolding check_conflict lecture_days check_lecture
remove-add_example =
    remove-add clock clock algorithms later model week (λ d. refl) refl refl algorithms-IsNew

check_lecture-false_iff_example :
    (check_lecture clock clock model Day.mon "9:30am" "10:20am" ≡ some false)
    ↔ All (Clear clock "9:30am" "10:20am") (systems ∷ [])
check_lecture-false_iff_example =
    check_lecture-false_iff clock clock model Day.mon (systems ∷ []) "9:30am" "10:20am" refl

-- The same lecture again.
abbrev again : CourseData
again = section "0102" (morning ∷ [])

week-IsTimed : (d : Day) → All (IsTimed clock) (week d)
week-IsTimed Day.sun = tt
week-IsTimed Day.mon = ((morning, refl, 540, refl, 590, refl), tt)
week-IsTimed Day.tue = tt
week-IsTimed Day.wen = ((morning, refl, 540, refl, 590, refl), tt)
week-IsTimed Day.thu = tt
week-IsTimed Day.fri = ((morning, refl, 540, refl, 590, refl), tt)
week-IsTimed Day.sat = tt

check_conflict_lem_example :
    (conflict : Bool) × (check_conflict clock clock model again ≡ some conflict)
    × ((conflict ≡ true)
        ↔ All
            (λ d. ¬ All (Clear clock "9:00am" "9:50am") (week d))
            (Day.mon ∷ Day.wen ∷ Day.fri ∷ []))
check_conflict_lem_example =
    check_conflict_lem clock clock model again morning [] (Day.mon ∷ Day.wen ∷ Day.fri ∷ []) week
      540 590 (λ d. refl) week-IsTimed refl on_mwf refl refl

-- Five days in one string.
abbrev daily : Meeting
daily = lecture "MTuWThF" "9:00am" "9:50am"

add_to_schedule_unknown_days_example :
    (s' : ScheduleModel) × (add_to_schedule clock clock (section "0301" (daily ∷ [])) model
      ≡ some s')
    × (s'.add_failed ≡ false)
    × Holds s' week
    × (s'.curr_classes ≡ "0101" ∷ "0301" ∷ [])
add_to_schedule_unknown_days_example =
    add_to_schedule_unknown_days clock clock (section "0301" (daily ∷ [])) daily model week
      (λ d. refl) refl (omega arith) not_mwf not_tuth
  where
    not_mwf : daily.days ≢ "MWF"
    not_mwf e = absurd (omega (arith, ap count e))

    not_tuth : daily.days ≢ "TuTh"
    not_tuth e = absurd (omega (arith, ap count e))
