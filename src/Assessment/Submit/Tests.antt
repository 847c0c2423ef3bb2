-- ===== src/Assessment/Submit/Tests.antt =====
-- Runs of the submissions and grades on concrete data.
use fluenthub.Prelude.{
  find_where, exists_where, select_where, update_where, ◌≢◌, eq_iff, arith, ℕ, ◌+◌, ◌*◌, ◌≤◌,
  String, ◌≡◌, refl, ◌⊎◌, inl, inr, Bool, true, false, ◌&&◌, Option, none, some, List, [], ◌∷◌,
  ◌==◌, eqb,
}
use fluenthub.Prelude.Int.{ℤ, pos, ◌≤ℤ◌}
use fluenthub.Prelude.Action.{ok, err, reason, is_ok, no_faults}
use fluenthub.Assessment.Store.{Attempt, exercise}
use fluenthub.Assessment.Answers.{save_exercise_answer}
use fluenthub.Assessment.Submit.{submit_exercise, submit_exam}
use fluenthub.Assessment.Submit.Scores.{EarnsAll, IsReviewed, submit_exercise-EarnsAll}
use fluenthub.Assessment.Submit.Final.{submit_exercise_final}
use fluenthub.Assessment.Grade.{GradeInput, grade, find_grade, max_score}
use fluenthub.Assessment.Grade.Laws.{Graded, grade-Revised}
use fluenthub.Assessment.Tests.{input, db}

submitted_exercise_test :
    (submit_exercise no_faults 20 "school-1" "student-1" "attempt-1" db).0 ≡ ok tt
unfolding submit_exercise fluenthub.Prelude.find_where fluenthub.Prelude.exists_where
    fluenthub.Prelude.select_where
submitted_exercise_test = refl

submit_exercise-EarnsAll_example :
    let work = db.exercise_work in
    let found =
      find_where
        (λ b.
          (b.id == "attempt-1" && b.student_id == "student-1" && b.status == "in_progress")
          && exists_where (λ x. x.id == b.task_id && x.school_id == "school-1") db.exercises)
        work.attempts in
    (a : Attempt) × (score : ℕ) × (state : String) × (final : Option ℕ) × (found ≡ some a)
    × (select_where (λ q. q.task_id == a.task_id) work.questions ≢ [])
    × EarnsAll "attempt-1" work (select_where (λ q. q.task_id == a.task_id) work.questions) score
    × IsReviewed (select_where (λ q. q.task_id == a.task_id) work.questions) score state final
    × ((submit_exercise no_faults 20 "school-1" "student-1" "attempt-1" db).1 ≡ record db {
      exercise_work = record work {
        attempts =
            update_where
              (λ b. b.id == "attempt-1")
              (λ b. record b {
                submitted_at = some 20;
                status = state;
                objective_score = some score;
                final_score = final;
              })
              work.attempts;
      };
    })
submit_exercise-EarnsAll_example =
    submit_exercise-EarnsAll no_faults 20 "school-1" "student-1" "attempt-1" db tt
      submitted_exercise_test

submitted_exam_test : (submit_exam no_faults 20 "school-1" "student-1" "attempt-1" db).0 ≡ ok tt
unfolding submit_exam fluenthub.Prelude.find_where fluenthub.Prelude.exists_where
    fluenthub.Prelude.select_where
submitted_exam_test = refl

submit_exercise_final_example :
    let db' = (submit_exercise no_faults 20 "school-1" "student-1" "attempt-1" db).1 in
    (is_ok (submit_exercise no_faults 30 "school-1" "student-1" "attempt-1" db').0 ≡ false)
    × (is_ok (save_exercise_answer false "school-1" "student-1" "attempt-1" input db').0 ≡ false)
submit_exercise_final_example =
    submit_exercise_final no_faults 20 "school-1" "student-1" "attempt-1" db no_faults 30 "school-1"
      "student-1" input tt submitted_exercise_test

abbrev grade_input : String → GradeInput
grade_input why = record {
  score = pos 60;
  feedback = "Well done";
  publish = true;
  revision_reason = why;
}

-- A published grade is changed without a reason.
no_reason_test :
    (grade exercise no_faults 30 "grade-2" "school-1" "teacher-1" "attempt-1" (grade_input "") db).0
    ≡ err (reason "published grade revision requires a reason")
unfolding grade fluenthub.Prelude.find_where
no_reason_test = refl

regraded_test :
    (grade exercise no_faults 30 "grade-2" "school-1" "teacher-1" "attempt-1"
      (grade_input "A point was missed")
      db).0
    ≡ ok tt
unfolding grade fluenthub.Prelude.find_where
regraded_test = refl

grade-Revised_example :
    let input = grade_input "A point was missed" in
    let db' =
      (grade exercise no_faults 30 "grade-2" "school-1" "teacher-1" "attempt-1" input db).1 in
    let previous = find_grade exercise "attempt-1" db in
    (pos 0 ≤ℤ pos 60)
    × ((maximum : ℤ) × (max_score exercise "school-1" "teacher-1" "attempt-1" db ≡ some maximum)
        × ((graded : Graded exercise "grade-2" "school-1" "teacher-1" "attempt-1" input maximum
              previous db db')
            × (graded.1.0 ≤ℤ maximum)))
grade-Revised_example =
    grade-Revised exercise no_faults 30 "grade-2" "school-1" "teacher-1" "attempt-1"
      (grade_input "A point was missed") db tt regraded_test
