-- ===== src/Examples/Records.antt =====
-- The theorems on grades, regrade requests and assignments, on the data of Examples/Data.
use rubric_grading_engine.Prelude.{◌≡◌, refl, ◌↔◌, Option, none, some}
use rubric_grading_engine.Prelude.Int.{ℤ, pos, ◌+ℤ◌}
use rubric_grading_engine.Prelude.Results.{Error, ok, err}
use rubric_grading_engine.Prelude.Tables.{get, put}
use rubric_grading_engine.Models.{
  Grade, score_row, grade_row, request_row, assignment_row, class_row, version_row, essay_row,
}
use rubric_grading_engine.Models.Store.{
  Db, owner_of_grade, owner_of_assignment, assignment_of_version, assignment_of_essay,
}
use rubric_grading_engine.Grades.{
  GradeResponse, override_criterion, update_grade_feedback, lock_grade, respond, retotal, sum_final,
  check_teacher_score, criterion_in_snapshot, criterion_of, check_range,
}
use rubric_grading_engine.Grades.Override.{Editable, overridden, override_succeeds}
use rubric_grading_engine.Grades.Totals.{override_total_stale}
use rubric_grading_engine.Grades.Locking.{locked_db, locked_grade, lock_grade_succeeds, lock-then}
use rubric_grading_engine.Examples.Data.{db, grade, score, criterion}

editable : Editable db 5 6 7 grade score
unfolding get owner_of_grade assignment_of_version assignment_of_essay owner_of_assignment
editable = record { found = refl; owned = refl; unlocked = refl; scored = refl; belongs = refl }

abbrev eight : Option ℤ
eight = some (pos 8)

abbrev overridden_db : Db
overridden_db = overridden db 5 6 7 eight none grade score

abbrev reply : GradeResponse
reply = respond overridden_db (retotal db 5 eight grade)

in_snapshot : criterion_in_snapshot db grade score ≡ some criterion
unfolding criterion_in_snapshot criterion_of assignment_of_version assignment_of_essay get
in_snapshot = refl

overriding : override_criterion db 5 6 7 eight none ≡ ok (overridden_db, reply)
unfolding check_teacher_score check_range criterion_in_snapshot criterion_of assignment_of_version
    assignment_of_essay get
overriding = override_succeeds db 5 6 7 eight none grade score editable refl refl

score_found : get 6 db.criterion_scores ≡ some score
unfolding get
score_found = refl

grade_found : get 5 db.grades ≡ some grade
unfolding get
grade_found = refl

grade_owned : owner_of_grade db grade ≡ some 7
unfolding owner_of_grade assignment_of_version assignment_of_essay owner_of_assignment get
grade_owned = refl

abbrev stale_grade : Grade
stale_grade = record grade { total_score = pos 4 }

stale_found : get 5 overridden_db.grades ≡ some stale_grade
unfolding get put sum_final ◌+ℤ◌
stale_found = refl

override_total_stale_example :
    (pos 4 ≡ sum_final 5 overridden_db.criterion_scores) ↔ (pos 8 ≡ pos 4)
override_total_stale_example =
    override_total_stale db 5 6 7 (pos 8) none overridden_db reply overriding stale_grade score
      stale_found score_found

abbrev locked : Db
locked = locked_db db 2000 5 7 grade

abbrev locked_reply : GradeResponse
locked_reply = respond locked (locked_grade 2000 grade)

locking : lock_grade db 2000 5 7 ≡ ok (locked, locked_reply)
locking = lock_grade_succeeds db 2000 5 7 grade grade_found grade_owned

lock-then_example :
    (update_grade_feedback locked 5 7 "Better" ≡ err Error.grade_locked)
    × (override_criterion locked 5 6 7 eight none ≡ err Error.grade_locked)
    × (lock_grade locked 3000 5 7 ≡ ok (locked, locked_reply))
lock-then_example =
    lock-then db 2000 5 7 grade locked locked_reply 3000 6 "Better" eight none grade_found
      grade_owned locking refl
