-- ===== src/Assessment/Submit/Laws.antt =====
-- What a submission that succeeds has read and written.
use fluenthub.Prelude.{
  String, ◌≡◌, Bool, false, ◌&&◌, some, ◌==◌, exists_where, arith, Option-cases, inl, inr,
}
use fluenthub.Prelude.Tables.{exists_where-update_none}
use fluenthub.Prelude.Action.{ok, Faults}
use fluenthub.Assessment.Store.{Time, Attempt, Work, Db}
use fluenthub.Assessment.Answers.{is_active}
use fluenthub.Assessment.Submit.{
  Scored, score_exercise, score_exam, exam_expired, closed, close_attempt, review_state, exam_state,
  submit_exercise, submit_exam,
}

-- No attempt is in progress under an id that has been closed.
pub closed-not_active :
    (attempt_id : String) (now : Time) (scored : Scored) (state : String) (work : Work)
    (any : Attempt → Bool) (student_id : String)
    → (state == "in_progress") ≡ false
    → exists_where
        (λ a. is_active attempt_id student_id a && any a)
        (close_attempt now attempt_id state scored work).attempts
      ≡ false
closed-not_active attempt_id now scored state work any student_id h =
    exists_where-update_none (λ (a : Attempt). is_active attempt_id student_id a && any a)
      (λ (a : Attempt). a.id == attempt_id) (closed now state scored) work.attempts
      (λ a hit. ground arith) (λ a miss. ground arith)

module _ (faults : Faults) (now : Time) (school_id student_id attempt_id : String) (db : Db) where
  pub submit_exercise-ok :
      (u : Unit {0})
      → (submit_exercise faults now school_id student_id attempt_id db).0 ≡ ok u
      → (scored : Scored) × (score_exercise school_id student_id attempt_id db ≡ some scored)
        × ((submit_exercise faults now school_id student_id attempt_id db).1 ≡ record db {
          exercise_work =
              close_attempt now attempt_id (review_state scored) scored db.exercise_work;
        })
  unfolding submit_exercise
  submit_exercise-ok u h = elim (Option-cases (score_exercise school_id student_id attempt_id db)) [
    | inl missing ↦ ground arith
    | inr (scored, found) ↦ (scored, found, ground arith)
  ]

  pub submit_exam-ok :
      (u : Unit {0})
      → (submit_exam faults now school_id student_id attempt_id db).0 ≡ ok u
      → (scored : Scored) × (score_exam school_id student_id attempt_id db ≡ some scored)
        × ((submit_exam faults now school_id student_id attempt_id db).1 ≡ record db {
          exam_work =
              close_attempt now attempt_id
                (exam_state (exam_expired now school_id student_id attempt_id db) scored)
                scored
                db.exam_work;
        })
  unfolding submit_exam
  submit_exam-ok u h = elim (Option-cases (score_exam school_id student_id attempt_id db)) [
    | inl missing ↦ ground arith
    | inr (scored, found) ↦ (scored, found, ground arith)
  ]
