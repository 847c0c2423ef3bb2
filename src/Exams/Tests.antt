-- ===== src/Exams/Tests.antt =====
-- Runs of the functions of the model of exams on concrete data.
use fluenthub.Prelude.{true, some, List, [], ◌∷◌}
use fluenthub.Exams.{Exam, Attempt, QuestionOption}

abbrev exam : Exam
exam = record { id = "exam-1"; closes_at = some 1000; duration_minutes = 60 }

abbrev attempt : Attempt
attempt = record {
  exam_id = "exam-1";
  student_id = "student-1";
  status = "in_progress";
  started_at = 20;
  expires_at = 1000;
}

abbrev options : List QuestionOption
options =
    record {
      safe = record { id = "option-a"; label = "A"; value = "is"; order = 1 };
      correct = true;
    }
    ∷ []
