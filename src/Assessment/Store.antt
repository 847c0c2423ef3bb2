-- ===== src/Assessment/Store.antt =====
-- The tables that backend/internal/assessment/service.go reads and writes. The tables of exercises and of
-- exams have the same shape but for the columns of the exercise and of the exam itself.
use fluenthub.Prelude.{
  ℕ, ◌+◌, ◌-◌, String, Bool, ◌&&◌, Option, List, ◌==◌, exists_where, find_where,
}
use fluenthub.Prelude.Int.{ℤ, pos_part, neg_part}

-- The number of nanoseconds since Go's zero time.
abbrev pub Time : Type 0
Time = ℕ

-- Time.Add
abbrev pub add_duration : Time → ℤ → Time
add_duration t d = t + pos_part d - neg_part d

pub record Enrollment : Type 0 where
  pub student_id : String
  pub class_id : String
  pub status : String

pub record Exercise : Type 0 where
  pub id : String
  pub school_id : String
  pub class_id : String
  pub teacher_id : String
  pub status : String
  pub available_from : Option Time
  pub due_at : Option Time
  pub max_score : ℤ
  pub attempt_limit : Option ℕ

pub record Exam : Type 0 where
  pub id : String
  pub school_id : String
  pub class_id : String
  pub teacher_id : String
  pub status : String
  pub opens_at : Option Time
  pub closes_at : Option Time
  pub duration_minutes : ℕ
  pub max_score : ℤ
  pub attempt_limit : ℕ

-- `task_id` is the exercise_id or the exam_id of a question.
pub record Question : Type 0 where
  pub id : String
  pub task_id : String
  pub type : String
  pub max_score : ℕ

pub record Choice : Type 0 where
  pub id : String
  pub question_id : String
  pub correct : Bool

-- Only an attempt at an exam has a time at which it expires.
pub record Attempt : Type 0 where
  pub id : String
  pub task_id : String
  pub student_id : String
  pub status : String
  pub expires_at : Option Time
  pub submitted_at : Option Time
  pub objective_score : Option ℕ
  pub final_score : Option ℕ

pub record Answer : Type 0 where
  pub attempt_id : String
  pub question_id : String
  pub text_answer : Option String
  pub selected_option_ids : List String

pub record ExerciseGrade : Type 0 where
  pub id : String
  pub attempt_id : String
  pub teacher_id : String
  pub score : ℤ
  pub feedback : String
  pub status : String
  pub graded_at : Option Time
  pub published_at : Option Time

pub record ExamGrade : Type 0 where
  pub id : String
  pub attempt_id : String
  pub teacher_id : String
  pub objective_score : ℤ
  pub manual_score : ℤ
  pub final_score : ℤ
  pub feedback : String
  pub status : String
  pub graded_at : Option Time
  pub published_at : Option Time

pub data Kind : Type 0 where
  exercise exam : Kind

pub record Revision : Type 0 where
  pub school_id : String
  pub grade_type : Kind
  pub grade_id : String
  pub previous_score : ℤ
  pub new_score : ℤ
  pub reason : String
  pub changed_by : String

-- The questions, options, attempts and answers of one kind.
pub record Work : Type 0 where
  pub questions : List Question
  pub choices : List Choice
  pub attempts : List Attempt
  pub answers : List Answer

pub record Db : Type 0 where
  pub enrollments : List Enrollment
  pub exercises : List Exercise
  pub exams : List Exam
  pub exercise_work : Work
  pub exam_work : Work
  pub exercise_grades : List ExerciseGrade
  pub exam_grades : List ExamGrade
  pub revisions : List Revision

-- `JOIN enrollments e ON e.class_id=… AND e.student_id=$1 AND e.status='active'`
abbrev pub is_enrolled : String → String → Db → Bool
is_enrolled class_id student_id db =
    exists_where (λ e. e.class_id == class_id && e.student_id == student_id && e.status == "active")
      db.enrollments

-- An exercise, and an exam, of a school.
abbrev pub find_exercise : String → String → Db → Option Exercise
find_exercise id school_id db =
    find_where (λ x. x.id == id && x.school_id == school_id) db.exercises

abbrev pub find_exam : String → String → Db → Option Exam
find_exam id school_id db = find_where (λ x. x.id == id && x.school_id == school_id) db.exams
