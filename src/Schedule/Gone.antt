-- ===== src/Schedule/Gone.antt =====
-- What the deletions of removeFromSchedule take out of a list.
use Prim.Native.String.{String}
use text.Mathlib.TextEquality.{eq_iff}
use text.Mathlib.Text.{◌==◌ as str_eq}
use terp_builder.Base.{◌≡◌, refl, ap, Bool, true, false}
use terp_builder.Base.{List, [], ◌∷◌, ◌++◌, All, if◌then◌else◌}
use terp_builder.Schedule.{same_course}
use terp_builder.Schedule.{CourseData}
use terp_builder.Schedule.{delete_class, delete_course}

-- A list without its first element that is such, or the list itself where none is.
pub data FirstGone {A : Type 0} (P : A → Type 0) (l l' : List A) : Type 0 where
  nothing_gone : All (λ x. ¬ P x) l → l' ≡ l → FirstGone P l l'
  first_gone :
      (front : List A) (x : A) (back : List A)
      → All (λ y. ¬ P y) front
      → P x
      → l ≡ front ++ (x ∷ back)
      → l' ≡ front ++ back
      → FirstGone P l l'

module _ {A : Type 0} (P : A → Type 0) where
  head-FirstGone : (x : A) (l : List A) → P x → FirstGone P (x ∷ l) l
  head-FirstGone x l p = first_gone [] x l tt p refl refl

  tail-FirstGone : (y : A) (l l' : List A) → ¬ P y → FirstGone P l l' → FirstGone P (y ∷ l) (y ∷ l')
  tail-FirstGone y l l' other (nothing_gone none_there e) =
      nothing_gone (other, none_there) (ap (λ t. y ∷ t) e)
  tail-FirstGone y l l' other (first_gone front x back before p e e') =
      first_gone (y ∷ front) x back (other, before) p (ap (λ t. y ∷ t) e) (ap (λ t. y ∷ t) e')

  by_test :
      (b : Bool) (y : A) (l l' : List A)
      → (b ≡ true → P y)
      → (b ≡ false → ¬ P y)
      → FirstGone P l l'
      → FirstGone P (y ∷ l) (if b then l else y ∷ l')
  by_test true y l l' such other rest = head-FirstGone y l (such refl)
  by_test false y l l' such other rest = tail-FirstGone y l l' (other refl) rest

differ : (a b : String) → str_eq a b ≡ false → ¬ (a ≡ b)
differ a b h e = cc (h, (eq_iff a b).1 e)

pub delete_class-FirstGone :
    (x : String) (l : List String) → FirstGone (λ y. y ≡ x) l (delete_class x l)
delete_class-FirstGone x [] = nothing_gone tt refl
delete_class-FirstGone x (y ∷ l) =
    by_test (λ z. z ≡ x) (str_eq y x) y l (delete_class x l) (eq_iff y x).0 (differ y x)
      (delete_class-FirstGone x l)

-- The entry is of the course's section.
abbrev pub IsSection : CourseData → CourseData → Type 0
IsSection course c = c.section_id ≡ course.section_id

pub delete_course-FirstGone :
    (course : CourseData) (l : List CourseData)
    → FirstGone (IsSection course) l (delete_course course l)
delete_course-FirstGone course [] = nothing_gone tt refl
delete_course-FirstGone course (c ∷ l) =
    by_test (IsSection course) (same_course c course) c l (delete_course course l)
      (eq_iff c.section_id course.section_id).0 (differ c.section_id course.section_id)
      (delete_course-FirstGone course l)
