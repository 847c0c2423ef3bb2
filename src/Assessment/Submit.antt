-- ===== src/Assessment/Submit.antt =====
-- `SubmitExercise` and `SubmitExam` of backend/internal/assessment/service.go: the questions with options
-- are scored, and the attempt is closed.
pub mod Laws
pub mod Scores
pub mod Final
mod Tests
use fluenthub.Prelude.{
  ℕ, ◌+◌, String, Bool, true, false, ◌&&◌, ◌||◌, not, Option, none, some, List, [], ◌∷◌, map, ◌==◌,
  if◌then◌else◌, ltb, find_where, exists_where, select_where, update_where,
}
use fluenthub.Prelude.Action.{
  reason, Faults, Action, query_row, or_fail, exec, transaction, ◌>>=◌, ◌>>◌,
}
use fluenthub.Assessment.Store.{Time, Attempt, Answer, Choice, Question, Work, Db}
use fluenthub.Assessment.Answers.{sort_texts, is_active, is_answer_to, is_exercise, is_exam, grace}

abbrev pub eq_texts : List String → List String → Bool
eq_texts [] [] = true
eq_texts [] (t ∷ ts) = false
eq_texts (s ∷ ss) [] = false
eq_texts (s ∷ ss) (t ∷ ts) = s == t && eq_texts ss ts

-- `q.type IN ('multiple_choice','true_false')`
abbrev pub is_objective : Question → Bool
is_objective q = q.type == "multiple_choice" || q.type == "true_false"

-- `array_agg(o.id ORDER BY o.id)` of the correct options of a question
unfoldable pub correct_ids : String → Work → List String
unfolding sort_texts
correct_ids question_id work =
    sort_texts
      (map (λ o. o.id) (select_where (λ o. o.question_id == question_id && o.correct) work.choices))

-- `COALESCE(a.selected_option_ids,'{}')`
unfoldable pub selected_ids : String → String → Work → List String
selected_ids attempt_id question_id work =
    elim (find_where (is_answer_to attempt_id question_id) work.answers) [
      | none ↦ []
      | some a ↦ a.selected_option_ids
    ]

unfoldable pub question_score : String → Work → Question → ℕ
unfolding correct_ids selected_ids
question_score attempt_id work q =
    if is_objective q && eq_texts (selected_ids attempt_id q.id work) (correct_ids q.id work)
    then q.max_score
    else 0

unfoldable pub sum_scores : (Question → ℕ) → List Question → ℕ
sum_scores score [] = 0
sum_scores score (q ∷ questions) = score q + sum_scores score questions

abbrev pub questions_of : String → Work → List Question
questions_of task_id work = select_where (λ q. q.task_id == task_id) work.questions

-- What the query of a submission returns: the score of the objective questions, and whether there are others.
pub record Scored : Type 0 where
  pub objective : ℕ
  pub manual : Bool

-- The row of the group: there is none if the exercise has no question.
abbrev pub score_questions : String → Work → List Question → Option Scored
score_questions attempt_id work [] = none
score_questions attempt_id work (q ∷ questions) = some (record {
  objective = sum_scores (question_score attempt_id work) (q ∷ questions);
  manual = exists_where (λ q. not (is_objective q)) (q ∷ questions);
})

abbrev pub score_of_attempt : String → Work → Option Attempt → Option Scored
score_of_attempt attempt_id work none = none
score_of_attempt attempt_id work (some a) =
    score_questions attempt_id work (questions_of a.task_id work)

unfoldable pub score_exercise : String → String → String → Db → Option Scored
unfolding question_score sum_scores
score_exercise school_id student_id attempt_id db = score_of_attempt attempt_id db.exercise_work (
    find_where (λ a. is_active attempt_id student_id a && is_exercise a.task_id school_id db)
      db.exercise_work.attempts)

-- `now()>t.expires_at+interval '15 seconds'`
abbrev pub is_expired : Time → Option Time → Bool
is_expired now none = false
is_expired now (some expires) = ltb (expires + grace) now

abbrev pub active_exam_attempt : String → String → String → Db → Option Attempt
active_exam_attempt school_id student_id attempt_id db =
    find_where (λ a. is_active attempt_id student_id a && is_exam a.task_id school_id db)
      db.exam_work.attempts

unfoldable pub score_exam : String → String → String → Db → Option Scored
unfolding question_score sum_scores
score_exam school_id student_id attempt_id db =
    score_of_attempt attempt_id db.exam_work
      (active_exam_attempt school_id student_id attempt_id db)

unfoldable pub exam_expired : Time → String → String → String → Db → Bool
exam_expired now school_id student_id attempt_id db =
    elim (active_exam_attempt school_id student_id attempt_id db) [
      | none ↦ false
      | some a ↦ is_expired now a.expires_at
    ]

-- The attempt as the UPDATE leaves it.
abbrev pub closed : Time → String → Scored → Attempt → Attempt
closed now state scored a = record a {
  submitted_at = some now;
  status = state;
  objective_score = some scored.objective;
  final_score = if scored.manual then none else some scored.objective;
}

abbrev pub close_attempt : Time → String → String → Scored → Work → Work
close_attempt now attempt_id state scored work = record work {
  attempts = update_where (λ a. a.id == attempt_id) (closed now state scored) work.attempts;
}

abbrev pub review_state : Scored → String
review_state scored = if scored.manual then "awaiting_review" else "graded"

unfoldable pub submit_exercise : Faults → Time → String → String → String → Action Db (Unit {0})
unfolding score_exercise
submit_exercise faults now school_id student_id attempt_id = transaction (faults 0) (faults 3) do
  scored ←
      or_fail (query_row (faults 1) (score_exercise school_id student_id attempt_id))
        (reason "active attempt not found")
  exec (faults 2) (λ db. record db {
    exercise_work = close_attempt now attempt_id (review_state scored) scored db.exercise_work;
  })

abbrev pub exam_state : Bool → Scored → String
exam_state expired scored = if expired then "expired" else review_state scored

unfoldable pub submit_exam : Faults → Time → String → String → String → Action Db (Unit {0})
unfolding score_exam exam_expired
submit_exam faults now school_id student_id attempt_id = transaction (faults 0) (faults 3) do
  scored ←
      or_fail (query_row (faults 1) (score_exam school_id student_id attempt_id))
        (reason "active exam attempt not found")
  exec (faults 2) (λ db. record db {
    exam_work =
        close_attempt now attempt_id
          (exam_state (exam_expired now school_id student_id attempt_id db) scored) scored
          db.exam_work;
  })
