-- ===== src/Exams/Laws.antt =====
-- The model of exams agrees with the service, and what students see of a question does not tell the answer.
use fluenthub.Prelude.{
  String, ◌≡◌, refl, ap, Bool, true, ◌&&◌, some, List, [], ◌∷◌, ◌==◌, map, arith, length,
}
use fluenthub.Assessment.Store.{Time}
use fluenthub.Assessment.Start.{expiry}
use fluenthub.Assessment.Answers.{in_time}
use fluenthub.Exams.{Exam, Attempt, QuestionOption, new_attempt, can_save, public_options}

-- An answer may be saved exactly when the statement of the service that saves it finds the attempt in
-- progress and in time.
pub can_save-in_time :
    (attempt : Attempt) (now : Time)
    → can_save attempt now
      ≡ (attempt.status == "in_progress" && in_time now (some attempt.expires_at))
unfolding can_save
can_save-in_time attempt now = ground arith

-- A new attempt expires when the service says, and while it has not expired its answers may be saved.
pub new_attempt-expiry :
    (exam : Exam) (student_id : String) (now : Time)
    → let attempt = new_attempt exam student_id now in
      (attempt.expires_at ≡ expiry now exam.duration_minutes exam.closes_at)
      × (can_save attempt attempt.expires_at ≡ true)
unfolding new_attempt expiry can_save
new_attempt-expiry exam student_id now = (ground arith, ground arith)

-- The same questions with other answers marked as correct.
abbrev pub remark : (QuestionOption → Bool) → List QuestionOption → List QuestionOption
remark f options = map (λ (o : QuestionOption). record o { correct = f o }) options

-- Which options are correct cannot be told from the public options; and there are as many of them.
pub public_options-remark :
    (f : QuestionOption → Bool) (options : List QuestionOption)
    → (public_options (remark f options) ≡ public_options options)
      × (length (public_options options) ≡ length options)
unfolding public_options
public_options-remark f [] = (refl, refl)
public_options-remark f (o ∷ options) =
    let (same, as_many) = public_options-remark f options in
    (ap (λ os. o.safe ∷ os) same, omega (arith, as_many))
