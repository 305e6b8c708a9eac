-- ===== src/Schedule/Check.antt =====
-- What checkLecture answers.
use Prim.Native.String.{String}
use text.Mathlib.Text.{◌==◌ as str_eq}
use terp_builder.Base.{ℕ, ◌<◌, ◌≡◌, ◌↔◌, inl, inr, refl, Bool, true, false}
use terp_builder.Base.{Option, none, some, List, [], ◌∷◌, All, get_elem?, ◌&&◌, Bool-cases}
use terp_builder.Schedule.{Day, Meeting, CourseData, ScheduleModel, staggered}
use terp_builder.Schedule.{lecture_loop, check_lecture, branch}
use terp_builder.Schedule.{lecture_round}
use terp_builder.Schedule.Apart.{Clear, staggered-IsApart, IsApart-staggered, IsApart-times}

branch-false :
    (c rest : Option Bool)
    → branch c rest (some true) ≡ some false
    → (c ≡ some true) × (rest ≡ some false)
branch-false none rest h = cc
branch-false (some true) rest h = (refl, h)
branch-false (some false) rest h = cc

module _ (date : String → Option ℕ) (start_time end_time : String) where
  abbrev NotAt : Meeting → Type 0
  NotAt m =
      ((str_eq m.start_time start_time && str_eq m.end_time end_time) ≡ false)
      × (staggered date m start_time end_time ≡ some true)

  round-false :
      (o : Option Meeting) (rest : Option Bool)
      → lecture_round date o start_time end_time rest ≡ some false
      → ((m : Meeting) × (o ≡ some m) × NotAt m) × (rest ≡ some false)
  round-false none rest h = cc
  round-false (some m) rest h =
      elim (Bool-cases (str_eq m.start_time start_time && str_eq m.end_time end_time)) [
        | inl e ↦ absurd (cc (rw e at h))
        | inr e ↦
            let (apart, later) =
              branch-false (staggered date m start_time end_time) rest (rw e at h) in
            ((m, refl, (e, apart)), later)
      ]

  pub lecture_loop-Clear :
      (arr : List CourseData)
      → lecture_loop date arr start_time end_time ≡ some false
      → All (Clear date start_time end_time) arr
  unfolding lecture_loop
  lecture_loop-Clear [] h = tt
  lecture_loop-Clear (c ∷ arr) h =
      let ((m, e, (times, apart)), later) = round-false (get_elem? c.meeting 0) _ h in
      ((m, e, staggered-IsApart date start_time end_time m apart), lecture_loop-Clear arr later)

  pub Clear-lecture_loop :
      (arr : List CourseData)
      → All (Clear date start_time end_time) arr
      → lecture_loop date arr start_time end_time ≡ some false
  unfolding lecture_loop
  Clear-lecture_loop [] h = refl
  Clear-lecture_loop (c ∷ arr) ((m, e, apart), rest) =
      rw
        (
          e,
          IsApart-times date start_time end_time m apart,
          IsApart-staggered date start_time end_time m apart,
        )
        (Clear-lecture_loop arr rest)

module _ (lecture_date discussion_date : String → Option ℕ) (s : ScheduleModel) where
  -- checkLecture answers false, with no trap, exactly if every course of the day has a first meeting,
  -- all its times and the new ones are recognised, and that meeting starts and ends before the new
  -- one, or starts and ends after it.
  pub check_lecture-false_iff :
      (day : Day) (arr : List CourseData) (start_time end_time : String)
      → s.curr_schedule day ≡ some arr
      → (check_lecture lecture_date discussion_date s day start_time end_time ≡ some false)
        ↔ All (Clear lecture_date start_time end_time) arr
  unfolding check_lecture
  check_lecture-false_iff day arr start_time end_time e = rw e (
    lecture_loop-Clear lecture_date start_time end_time arr,
    Clear-lecture_loop lecture_date start_time end_time arr,
  )

  -- On a day whose courses are a single one, a new lecture that starts during that course's lecture
  -- and ends after it is no clash for checkLecture.
  pub check_lecture_overlap :
      (day : Day) (c : CourseData) (m : Meeting) (rest : List Meeting)
      (start_time end_time : String) (a b c' d : ℕ)
      → s.curr_schedule day ≡ some (c ∷ [])
      → c.meeting ≡ m ∷ rest
      → lecture_date m.start_time ≡ some a
      → lecture_date start_time ≡ some b
      → lecture_date m.end_time ≡ some c'
      → lecture_date end_time ≡ some d
      → a < b
      → b < c'
      → c' < d
      → check_lecture lecture_date discussion_date s day start_time end_time ≡ some false
  check_lecture_overlap day c m rest start_time end_time a b c' d e em ea eb ec ed ab bc cd =
      (check_lecture-false_iff day (c ∷ []) start_time end_time e).1 (
        (
          m,
          rw em refl,
          record {
            starts = a;
            ends = c';
            new_starts = b;
            new_ends = d;
            starts_at = ea;
            ends_at = ec;
            new_starts_at = eb;
            new_ends_at = ed;
            staggers = inl (ab, cd);
          },
        ),
        tt,
      )
