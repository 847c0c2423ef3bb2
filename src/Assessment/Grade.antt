-- ===== src/Assessment/Grade.antt =====
-- `grade`, `GradeExercise` and `GradeExam` of backend/internal/assessment/service.go.
pub mod Write
pub mod Revisions
pub mod Laws
use Prim.Native.String.{count}
use fluenthub.Prelude.{
  ℕ, String, Bool, true, false, ◌&&◌, ◌||◌, not, Option, none, some, List, ◌==◌, if◌then◌else◌, ltb,
  leb, find_where, exists_where, update_where, insert,
}
use fluenthub.Prelude.Int.{ℤ, pos, ltb_ℤ, eqb_ℤ, add64}
use fluenthub.Prelude.Text.{len}
use fluenthub.Prelude.Action.{
  reason, Faults, Action, pure, fail_if, query_row, or_fail, exec, when, transaction, ◌>>=◌, ◌>>◌,
}
use fluenthub.Assessment.Store.{
  Time, Attempt, ExerciseGrade, ExamGrade, Kind, exercise, exam, Revision, Db, find_exercise,
  find_exam, Exercise, Exam,
}

pub record GradeInput : Type 0 where
  pub score : ℤ
  pub feedback : String
  pub publish : Bool
  pub revision_reason : String

-- A grade as the lookup returns it: `score` is the score of an exercise, and the final score of an exam.
pub record Grade : Type 0 where
  pub id : String
  pub score : ℤ
  pub status : String

abbrev exercise_grade_of : Option ExerciseGrade → Option Grade
exercise_grade_of none = none
exercise_grade_of (some g) = some (record { id = g.id; score = g.score; status = g.status })

abbrev exam_grade_of : Option ExamGrade → Option Grade
exam_grade_of none = none
exam_grade_of (some g) = some (record { id = g.id; score = g.final_score; status = g.status })

unfoldable pub find_grade : Kind → String → Db → Option Grade
find_grade exercise attempt_id db =
    exercise_grade_of (find_where (λ g. g.attempt_id == attempt_id) db.exercise_grades)
find_grade exam attempt_id db =
    exam_grade_of (find_where (λ g. g.attempt_id == attempt_id) db.exam_grades)

-- The exercise, and the exam, of an attempt, with its teacher.
abbrev pub exercise_max : String → Option Exercise → Option ℤ
exercise_max teacher_id none = none
exercise_max teacher_id (some x) = if x.teacher_id == teacher_id then some x.max_score else none

abbrev pub exam_max : String → Option Exam → Option ℤ
exam_max teacher_id none = none
exam_max teacher_id (some x) = if x.teacher_id == teacher_id then some x.max_score else none

unfoldable pub max_score : Kind → String → String → String → Db → Option ℤ
max_score exercise school_id teacher_id attempt_id db =
    elim (find_where (λ a. a.id == attempt_id) db.exercise_work.attempts) [
      | none ↦ none
      | some a ↦ exercise_max teacher_id (find_exercise a.task_id school_id db)
    ]
max_score exam school_id teacher_id attempt_id db =
    elim (find_where (λ a. a.id == attempt_id) db.exam_work.attempts) [
      | none ↦ none
      | some a ↦ exam_max teacher_id (find_exam a.task_id school_id db)
    ]

-- `SELECT COALESCE(objective_score_scaled,0) FROM exam_attempts WHERE id=$1`
abbrev pub coalesce_score : Option Attempt → Option ℤ
coalesce_score none = none
coalesce_score (some a) = elim a.objective_score [ none ↦ some (pos 0) | some n ↦ some (pos n) ]

unfoldable pub objective_of : String → Db → Option ℤ
objective_of attempt_id db =
    coalesce_score (find_where (λ a. a.id == attempt_id) db.exam_work.attempts)

abbrev pub grade_status : Bool → String
grade_status publish = if publish then "published" else "draft"

abbrev pub published_at : Time → Bool → Option Time
published_at now publish = if publish then some now else none

-- The rows that `ON CONFLICT(attempt_id) DO UPDATE` inserts or changes; a conflict keeps the first teacher,
-- and of an exam the first objective score.
unfoldable pub upsert_exercise_grade : ExerciseGrade → List ExerciseGrade → List ExerciseGrade
upsert_exercise_grade new grades =
    if exists_where (λ g. g.attempt_id == new.attempt_id) grades
    then update_where (λ g. g.attempt_id == new.attempt_id)
        (λ g. record g {
          score = new.score;
          feedback = new.feedback;
          status = new.status;
          graded_at = new.graded_at;
          published_at = new.published_at;
        })
        grades
    else insert new grades

unfoldable pub upsert_exam_grade : ExamGrade → List ExamGrade → List ExamGrade
upsert_exam_grade new grades =
    if exists_where (λ g. g.attempt_id == new.attempt_id) grades
    then update_where (λ g. g.attempt_id == new.attempt_id)
        (λ g. record g {
          manual_score = new.manual_score;
          final_score = new.final_score;
          feedback = new.feedback;
          status = new.status;
          graded_at = new.graded_at;
          published_at = new.published_at;
        })
        grades
    else insert new grades

-- The grade is written: the score that counts for a revision. A statement that failed before has
-- aborted the transaction, so that this one fails too.
unfoldable pub write_grade :
    Kind → Faults → Bool → Time → String → String → String → ℤ → GradeInput → Action Db ℤ
unfolding upsert_exercise_grade upsert_exam_grade objective_of
write_grade exercise faults aborted now grade_id teacher_id attempt_id maximum input = do
  exec (aborted || faults 3) (λ db. record db {
    exercise_grades =
        upsert_exercise_grade
          (record {
            id = grade_id;
            attempt_id = attempt_id;
            teacher_id = teacher_id;
            score = input.score;
            feedback = input.feedback;
            status = grade_status input.publish;
            graded_at = some now;
            published_at = published_at now input.publish;
          })
          db.exercise_grades;
  })
  pure input.score
write_grade exam faults aborted now grade_id teacher_id attempt_id maximum input = do
  objective ← query_row (aborted || faults 4) (objective_of attempt_id)
  fail_if (ltb_ℤ maximum (add64 objective input.score)) (reason "score exceeds exam maximum")
  exec (faults 5) (λ db. record db {
    exam_grades =
        upsert_exam_grade
          (record {
            id = grade_id;
            attempt_id = attempt_id;
            teacher_id = teacher_id;
            objective_score = objective;
            manual_score = input.score;
            final_score = add64 objective input.score;
            feedback = input.feedback;
            status = grade_status input.publish;
            graded_at = some now;
            published_at = published_at now input.publish;
          })
          db.exam_grades;
  })
  pure (add64 objective input.score)

-- `CHECK(length(reason)>=5)` of backend/migrations/000002_learning.up.sql: SQL's length counts characters.
abbrev pub short_reason : GradeInput → Bool
short_reason input = ltb (count input.revision_reason) 5

abbrev pub revision_row : Kind → String → String → Grade → ℤ → GradeInput → Revision
revision_row kind school_id teacher_id previous score input = record {
  school_id = school_id;
  grade_type = kind;
  grade_id = previous.id;
  previous_score = previous.score;
  new_score = score;
  reason = input.revision_reason;
  changed_by = teacher_id;
}

abbrev pub revise :
    Kind → Bool → String → String → Option Grade → GradeInput → ℤ → Action Db (Unit {0})
revise kind fault school_id teacher_id none input score = pure tt
revise kind fault school_id teacher_id (some previous) input score =
    when (not (eqb_ℤ previous.score score)) (
      exec (fault || short_reason input) (λ db. record db {
        revisions =
            insert (revision_row kind school_id teacher_id previous score input) db.revisions;
      }))

-- A published grade is revised only with a reason.
abbrev pub lacks_reason : Option Grade → GradeInput → Bool
lacks_reason none input = false
lacks_reason (some previous) input =
    previous.status == "published" && ltb (len input.revision_reason) 5

-- The lookup: an error counts as no grade.
abbrev pub looked_up : Bool → Option Grade → Option Grade
looked_up fault found = if fault then none else found

abbrev pub grade_id : String → Option Grade → String
grade_id uuid none = uuid
grade_id uuid (some previous) = previous.id

abbrev pub is_exercise_kind : Kind → Bool
is_exercise_kind exercise = true
is_exercise_kind exam = false

abbrev pub write_and_revise :
    Kind
    → Faults
    → Time
    → String
    → String
    → String
    → String
    → ℤ
    → GradeInput
    → Option Grade
    → Action Db (Unit {0})
write_and_revise kind faults now uuid school_id teacher_id attempt_id maximum input previous = do
  fail_if (lacks_reason previous input) (reason "published grade revision requires a reason")
  score ←
      write_grade kind faults (faults 2) now (grade_id uuid previous) teacher_id attempt_id maximum
        input
  revise kind (faults 6) school_id teacher_id previous input score

-- What follows once the maximum of the task is known.
abbrev pub grade_within :
    Kind → Faults → Time → String → String → String → String → GradeInput → ℤ → Action Db (Unit {0})
grade_within kind faults now uuid school_id teacher_id attempt_id input maximum = do
  fail_if (is_exercise_kind kind && ltb_ℤ maximum input.score)
      (reason "score exceeds exercise maximum")
  λ db.
      write_and_revise kind faults now uuid school_id teacher_id attempt_id maximum input
        (looked_up (faults 2) (find_grade kind attempt_id db)) db

abbrev pub grade_scoped :
    Kind → Faults → Time → String → String → String → String → GradeInput → Action Db (Unit {0})
grade_scoped kind faults now uuid school_id teacher_id attempt_id input = do
  maximum ←
      or_fail (query_row (faults 1) (max_score kind school_id teacher_id attempt_id))
        (reason "attempt is outside the teacher scope")
  grade_within kind faults now uuid school_id teacher_id attempt_id input maximum

unfoldable pub grade :
    Kind → Faults → Time → String → String → String → String → GradeInput → Action Db (Unit {0})
unfolding max_score find_grade write_grade
grade kind faults now uuid school_id teacher_id attempt_id input = do
  fail_if (ltb_ℤ input.score (pos 0)) (reason "score cannot be negative")
  transaction (faults 0) (faults 7)
      (grade_scoped kind faults now uuid school_id teacher_id attempt_id input)

unfoldable pub grade_exercise :
    Faults → Time → String → String → String → String → GradeInput → Action Db (Unit {0})
grade_exercise faults now uuid school_id teacher_id attempt_id input =
    grade exercise faults now uuid school_id teacher_id attempt_id input

unfoldable pub grade_exam :
    Faults → Time → String → String → String → String → GradeInput → Action Db (Unit {0})
grade_exam faults now uuid school_id teacher_id attempt_id input =
    grade exam faults now uuid school_id teacher_id attempt_id input
