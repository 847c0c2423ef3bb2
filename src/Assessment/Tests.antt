-- ===== src/Assessment/Tests.antt =====
-- Runs of the attempts and answers on concrete data.
use fluenthub.Prelude.{
  eq_iff, arith, ℕ, ◌+◌, ◌*◌, ◌≤◌, String, ◌≡◌, refl, ◌⊎◌, inl, inr, Bool, true, false, ◌&&◌,
  Option, none, some, List, [], ◌∷◌, ◌==◌, eqb,
}
use fluenthub.Prelude.Int.{ℤ, pos, ◌≤ℤ◌}
use fluenthub.Prelude.Action.{ok, err, database, is_ok, Faults, no_faults}
use fluenthub.Assessment.Store.{Exercise, Exam, Attempt, Work, Db, ExerciseGrade, is_enrolled}
use fluenthub.Assessment.Start.{
  start_exercise, start_exam, exercise_for, exam_for, before, after, count_attempts, expiry,
}
use fluenthub.Assessment.Start.Laws.{Within, start_exercise_allowed}
use fluenthub.Assessment.Answers.{
  AnswerInput, save_exercise_answer, may_answer_exercise, sort_texts,
}
use fluenthub.Assessment.Answers.Laws.{save_exercise_answer-selected_ids}
use fluenthub.Assessment.Submit.{selected_ids}

abbrev the_exercise : Exercise
the_exercise = record {
  id = "task-1";
  school_id = "school-1";
  class_id = "class-1";
  teacher_id = "teacher-1";
  status = "published";
  available_from = some 10;
  due_at = some 1000;
  max_score = pos 100;
  attempt_limit = some 2;
}

abbrev the_exam : Exam
the_exam = record {
  id = "task-2";
  school_id = "school-1";
  class_id = "class-1";
  teacher_id = "teacher-1";
  status = "open";
  opens_at = some 10;
  closes_at = some 1000;
  duration_minutes = 60;
  max_score = pos 100;
  attempt_limit = 2;
}

abbrev attempt_at : String → Attempt
attempt_at task_id = record {
  id = "attempt-1";
  task_id = task_id;
  student_id = "student-1";
  status = "in_progress";
  expires_at = some 1000;
  submitted_at = none;
  objective_score = none;
  final_score = none;
}

-- One question with two options, of which the second is correct.
abbrev work_on : String → Work
work_on task_id = record {
  questions =
      record { id = "question-1"; task_id = task_id; type = "multiple_choice"; max_score = 40 }
      ∷ [];
  choices =
      record { id = "option-a"; question_id = "question-1"; correct = false }
      ∷ record { id = "option-b"; question_id = "question-1"; correct = true }
      ∷ [];
  attempts = attempt_at task_id ∷ [];
  answers =
      record {
        attempt_id = "attempt-1";
        question_id = "question-1";
        text_answer = none;
        selected_option_ids = "option-b" ∷ [];
      }
      ∷ [];
}

abbrev old_grade : ExerciseGrade
old_grade = record {
  id = "grade-1";
  attempt_id = "attempt-1";
  teacher_id = "teacher-1";
  score = pos 50;
  feedback = "";
  status = "published";
  graded_at = some 1;
  published_at = none;
}

abbrev pub db : Db
db = record {
  enrollments = record { student_id = "student-1"; class_id = "class-1"; status = "active" } ∷ [];
  exercises = the_exercise ∷ [];
  exams = the_exam ∷ [];
  exercise_work = work_on "task-1";
  exam_work = work_on "task-2";
  exercise_grades = old_grade ∷ [];
  exam_grades = [];
  revisions = [];
}

-- The fourth call, which stores the attempt, fails.
abbrev unstored : Faults
unstored k = eqb k 3

started_exercise_test :
    (start_exercise no_faults 20 "attempt-2" "school-1" "student-1" "task-1" db).0 ≡ ok "attempt-2"
unfolding start_exercise fluenthub.Prelude.find_where fluenthub.Prelude.exists_where
    fluenthub.Prelude.count_where
started_exercise_test = refl

start_exercise_allowed_example :
    let db' = (start_exercise no_faults 20 "attempt-2" "school-1" "student-1" "task-1" db).1 in
    let count = count_attempts "task-1" "student-1" db'.exercise_work in
    (x : Exercise) × (exercise_for "student-1" "task-1" "school-1" db ≡ some x)
    × (is_enrolled x.class_id "student-1" db ≡ true)
    × (x.status ≡ "published")
    × (before 20 x.available_from ≡ false)
    × (after 20 x.due_at ≡ false)
    × (count ≡ count_attempts "task-1" "student-1" db.exercise_work + 1)
    × Within x.attempt_limit count
start_exercise_allowed_example =
    start_exercise_allowed no_faults 20 "attempt-2" "school-1" "student-1" "task-1" db "attempt-2"
      started_exercise_test

unstored_exercise_test :
    (start_exercise unstored 20 "attempt-2" "school-1" "student-1" "task-1" db).0 ≡ err database
unfolding start_exercise fluenthub.Prelude.find_where fluenthub.Prelude.exists_where
    fluenthub.Prelude.count_where
unstored_exercise_test = refl

started_exam_test :
    (start_exam no_faults 20 "attempt-2" "school-1" "student-1" "task-2" db).0
    ≡ ok ("attempt-2", 1000)
unfolding start_exam fluenthub.Prelude.find_where fluenthub.Prelude.exists_where
    fluenthub.Prelude.count_where fluenthub.Assessment.Start.minutes fluenthub.Prelude.Int.mul64
    fluenthub.Prelude.Int.wrap64 fluenthub.Prelude.Int.◌*ℤ◌
started_exam_test = refl

unstored_exam_test :
    (start_exam unstored 20 "attempt-2" "school-1" "student-1" "task-2" db).0 ≡ err database
unfolding start_exam fluenthub.Prelude.find_where fluenthub.Prelude.exists_where
    fluenthub.Prelude.count_where
unstored_exam_test = refl

abbrev pub input : AnswerInput
input = record {
  question_id = "question-1";
  text_answer = none;
  selected_option_ids = "option-b" ∷ "option-a" ∷ [];
}

save_exercise_answer-selected_ids_example :
    let (r, db') = save_exercise_answer false "school-1" "student-1" "attempt-1" input db in
    ((r ≡ ok tt)
      × (may_answer_exercise "school-1" "student-1" "attempt-1" "question-1" db ≡ true)
      × (selected_ids "attempt-1" "question-1" db'.exercise_work
          ≡ sort_texts ("option-b" ∷ "option-a" ∷ []))
      × (("attempt-1" == "attempt-2" && "question-1" == "question-2" ≡ true)
          ⊎ (selected_ids "attempt-2" "question-2" db'.exercise_work
              ≡ selected_ids "attempt-2" "question-2" db.exercise_work)))
    ⊎ ((is_ok r ≡ false) × (db' ≡ db))
save_exercise_answer-selected_ids_example =
    save_exercise_answer-selected_ids false 20 "school-1" "student-1" "attempt-1" input db
      "attempt-2" "question-2"
