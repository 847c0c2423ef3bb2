-- ===== src/Assessment/Answers.antt =====
-- `SaveExerciseAnswer` and `SaveExamAnswer` of backend/internal/assessment/service.go.
pub mod Laws
use Prim.Native.String.{compare}
use text.Mathlib.Text.{is_le}
use fluenthub.Prelude.{
  ℕ, ◌+◌, String, Bool, true, false, ◌&&◌, ◌||◌, not, Option, none, some, List, [], ◌∷◌, ◌==◌,
  if◌then◌else◌, ltb, leb, find_where, exists_where, update_where, insert,
}
use fluenthub.Prelude.Action.{reason, database, Result, ok, err, Faults, Action}
use fluenthub.Assessment.Store.{
  Time, Exercise, Exam, Attempt, Answer, Question, Work, Db, find_exercise, find_exam,
}

pub record AnswerInput : Type 0 where
  pub question_id : String
  pub text_answer : Option String
  pub selected_option_ids : List String

-- sort.Strings
unfoldable pub insert_text : String → List String → List String
insert_text s [] = s ∷ []
insert_text s (t ∷ texts) = if is_le (compare s t) then s ∷ t ∷ texts else t ∷ insert_text s texts

unfoldable pub sort_texts : List String → List String
unfolding insert_text
sort_texts [] = []
sort_texts (s ∷ texts) = insert_text s (sort_texts texts)

abbrev pub has_question : String → String → Work → Bool
has_question question_id task_id work =
    exists_where (λ q. q.id == question_id && q.task_id == task_id) work.questions

abbrev pub is_exercise : String → String → Db → Bool
is_exercise id school_id db =
    exists_where (λ x. x.id == id && x.school_id == school_id) db.exercises

abbrev pub is_exam : String → String → Db → Bool
is_exam id school_id db = exists_where (λ x. x.id == id && x.school_id == school_id) db.exams

-- The attempt of a student that is in progress.
abbrev pub is_active : String → String → Attempt → Bool
is_active attempt_id student_id a =
    a.id == attempt_id && a.student_id == student_id && a.status == "in_progress"

-- `now()<=a.expires_at+interval '15 seconds'`
abbrev pub grace : Time
grace = 15_000_000_000

abbrev pub in_time : Time → Option Time → Bool
in_time now none = false
in_time now (some expires) = leb now (expires + grace)

abbrev pub may_answer_exercise : String → String → String → String → Db → Bool
may_answer_exercise school_id student_id attempt_id question_id db =
    exists_where
      (λ a.
        is_active attempt_id student_id a
        && (is_exercise a.task_id school_id db
            && has_question question_id a.task_id db.exercise_work))
      db.exercise_work.attempts

abbrev pub may_answer_exam : Time → String → String → String → String → Db → Bool
may_answer_exam now school_id student_id attempt_id question_id db =
    exists_where
      (λ a.
        is_active attempt_id student_id a
        && (in_time now a.expires_at
            && is_exam a.task_id school_id db
            && has_question question_id a.task_id db.exam_work))
      db.exam_work.attempts

abbrev pub is_answer_to : String → String → Answer → Bool
is_answer_to attempt_id question_id a = a.attempt_id == attempt_id && a.question_id == question_id

-- `ON CONFLICT(attempt_id,question_id) DO UPDATE SET text_answer=…, selected_option_ids=…`
unfoldable pub upsert_answer : String → AnswerInput → List Answer → List Answer
upsert_answer attempt_id input answers =
    if exists_where (is_answer_to attempt_id input.question_id) answers
    then update_where (is_answer_to attempt_id input.question_id)
        (λ a. record a {
          text_answer = input.text_answer;
          selected_option_ids = input.selected_option_ids;
        })
        answers
    else insert
        (record {
          attempt_id = attempt_id;
          question_id = input.question_id;
          text_answer = input.text_answer;
          selected_option_ids = input.selected_option_ids;
        })
        answers

abbrev pub put_answer : String → AnswerInput → Work → Work
put_answer attempt_id input work = record work {
  answers = upsert_answer attempt_id input work.answers;
}

abbrev pub sorted : AnswerInput → AnswerInput
sorted input = record input { selected_option_ids = sort_texts input.selected_option_ids }

unfoldable pub save_exercise_answer :
    Bool → String → String → String → AnswerInput → Action Db (Unit {0})
unfolding upsert_answer
save_exercise_answer fault school_id student_id attempt_id input db =
    let allowed = may_answer_exercise school_id student_id attempt_id input.question_id db in
    (
      if fault
          then err database
          else if not allowed
          then err (reason "attempt or question is outside the student scope")
          else ok tt,
      if not fault && allowed
          then record db { exercise_work = put_answer attempt_id (sorted input) db.exercise_work }
          else db,
    )

unfoldable pub save_exam_answer :
    Bool → Time → String → String → String → AnswerInput → Action Db (Unit {0})
unfolding upsert_answer
save_exam_answer fault now school_id student_id attempt_id input db =
    let allowed = may_answer_exam now school_id student_id attempt_id input.question_id db in
    (
      if fault
          then err database
          else if not allowed
          then err (reason "attempt expired or question is outside the student scope")
          else ok tt,
      if not fault && allowed
          then record db { exam_work = put_answer attempt_id (sorted input) db.exam_work }
          else db,
    )
