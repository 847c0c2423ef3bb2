-- ===== src/Assessment/Submit/Final.antt =====
-- An attempt that was submitted stays closed.
use fluenthub.Prelude.{
  String, ◌≡◌, refl, Bool, false, ◌&&◌, none, ◌==◌, if_ind, find_where, exists_where, arith,
}
use fluenthub.Prelude.Tables.{find_where-none}
use fluenthub.Prelude.Action.{ok, is_ok, Faults}
use fluenthub.Assessment.Store.{Time, Attempt, Work, Db}
use fluenthub.Assessment.Answers.{
  AnswerInput, is_active, in_time, is_exercise, is_exam, has_question, may_answer_exercise,
  may_answer_exam, save_exercise_answer, save_exam_answer,
}
use fluenthub.Assessment.Submit.{
  Scored, score_of_attempt, score_exercise, score_exam, exam_expired, close_attempt, review_state,
  exam_state, submit_exercise, submit_exam,
}
use fluenthub.Assessment.Submit.Laws.{closed-not_active, submit_exercise-ok, submit_exam-ok}

not_scored :
    (attempt_id : String) (work : Work) (p : Attempt → Bool)
    → exists_where p work.attempts ≡ false
    → score_of_attempt attempt_id work (find_where p work.attempts) ≡ none
not_scored attempt_id work p h = rw (find_where-none p work.attempts h) refl

review_state-closed : (scored : Scored) → (review_state scored == "in_progress") ≡ false
review_state-closed scored = if_ind (λ s. (s == "in_progress") ≡ false) scored.manual refl refl

exam_state-closed :
    (expired : Bool) (scored : Scored) → (exam_state expired scored == "in_progress") ≡ false
exam_state-closed expired scored =
    if_ind (λ s. (s == "in_progress") ≡ false) expired refl (review_state-closed scored)

module _ (faults : Faults) (now : Time) (school_id student_id attempt_id : String) (db : Db) where
  submit_exercise-unscored :
      score_exercise school_id student_id attempt_id db ≡ none
      → is_ok (submit_exercise faults now school_id student_id attempt_id db).0 ≡ false
  unfolding submit_exercise
  submit_exercise-unscored h = ground arith

  submit_exam-unscored :
      score_exam school_id student_id attempt_id db ≡ none
      → is_ok (submit_exam faults now school_id student_id attempt_id db).0 ≡ false
  unfolding submit_exam
  submit_exam-unscored h = ground arith

  save_exercise_answer-denied :
      (input : AnswerInput)
      → may_answer_exercise school_id student_id attempt_id input.question_id db ≡ false
      → is_ok (save_exercise_answer (faults 0) school_id student_id attempt_id input db).0 ≡ false
  unfolding save_exercise_answer
  save_exercise_answer-denied input h = ground arith

  save_exam_answer-denied :
      (input : AnswerInput)
      → may_answer_exam now school_id student_id attempt_id input.question_id db ≡ false
      → is_ok (save_exam_answer (faults 0) now school_id student_id attempt_id input db).0 ≡ false
  unfolding save_exam_answer
  save_exam_answer-denied input h = ground arith

module _ (now : Time) (school_id student_id attempt_id state : String) (scored : Scored) (db : Db)
    (shut : (state == "in_progress") ≡ false) where
  exercise_closed :
      score_exercise school_id student_id attempt_id
        (record db { exercise_work = close_attempt now attempt_id state scored db.exercise_work })
      ≡ none
  unfolding score_exercise
  exercise_closed =
      let any = λ (a : Attempt). is_exercise a.task_id school_id db in
      not_scored attempt_id (close_attempt now attempt_id state scored db.exercise_work)
        (λ a. is_active attempt_id student_id a && any a)
        (closed-not_active attempt_id now scored state db.exercise_work any student_id shut)

  exam_closed :
      score_exam school_id student_id attempt_id
        (record db { exam_work = close_attempt now attempt_id state scored db.exam_work })
      ≡ none
  unfolding score_exam
  exam_closed =
      let any = λ (a : Attempt). is_exam a.task_id school_id db in
      not_scored attempt_id (close_attempt now attempt_id state scored db.exam_work)
        (λ a. is_active attempt_id student_id a && any a)
        (closed-not_active attempt_id now scored state db.exam_work any student_id shut)

module _ (faults : Faults) (now : Time) (school_id student_id attempt_id : String) (db : Db)
    (faults' : Faults) (now' : Time) (school_id' student_id' : String) (input : AnswerInput) where
  -- Once a submission of an exercise has succeeded, no second submission of the attempt and no answer to it
  -- succeeds, whoever sends it.
  pub submit_exercise_final :
      (u : Unit {0})
      → (submit_exercise faults now school_id student_id attempt_id db).0 ≡ ok u
      → let db' = (submit_exercise faults now school_id student_id attempt_id db).1 in
        (is_ok (submit_exercise faults' now' school_id' student_id' attempt_id db').0 ≡ false)
        × (is_ok (save_exercise_answer (faults' 0) school_id' student_id' attempt_id input db').0
            ≡ false)
  submit_exercise_final u h =
      let (scored, found, after) =
        submit_exercise-ok faults now school_id student_id attempt_id db u h in
      let state = review_state scored in
      let db' = record db {
        exercise_work = close_attempt now attempt_id state scored db.exercise_work;
      } in
      rw after (
        submit_exercise-unscored faults' now' school_id' student_id' attempt_id db' (
            exercise_closed now school_id' student_id' attempt_id state scored db
              (review_state-closed scored)),
        save_exercise_answer-denied faults' now' school_id' student_id' attempt_id db' input (
            closed-not_active attempt_id now scored state db.exercise_work
              (λ a.
                is_exercise a.task_id school_id' db
                && has_question input.question_id a.task_id db.exercise_work)
              student_id' (review_state-closed scored)),
      )

  -- Once a submission of an exam has succeeded, no second submission of the attempt and no answer to it
  -- succeeds, whoever sends it.
  pub submit_exam_final :
      (u : Unit {0})
      → (submit_exam faults now school_id student_id attempt_id db).0 ≡ ok u
      → let db' = (submit_exam faults now school_id student_id attempt_id db).1 in
        (is_ok (submit_exam faults' now' school_id' student_id' attempt_id db').0 ≡ false)
        × (is_ok (save_exam_answer (faults' 0) now' school_id' student_id' attempt_id input db').0
            ≡ false)
  submit_exam_final u h =
      let (scored, found, after) =
        submit_exam-ok faults now school_id student_id attempt_id db u h in
      let state = exam_state (exam_expired now school_id student_id attempt_id db) scored in
      let shut = exam_state-closed (exam_expired now school_id student_id attempt_id db) scored in
      let db' = record db { exam_work = close_attempt now attempt_id state scored db.exam_work } in
      rw after (
        submit_exam-unscored faults' now' school_id' student_id' attempt_id db'
            (exam_closed now school_id' student_id' attempt_id state scored db shut),
        save_exam_answer-denied faults' now' school_id' student_id' attempt_id db' input (
            closed-not_active attempt_id now scored state db.exam_work
              (λ a.
                in_time now' a.expires_at
                && is_exam a.task_id school_id' db
                && has_question input.question_id a.task_id db.exam_work)
              student_id' shut),
      )
