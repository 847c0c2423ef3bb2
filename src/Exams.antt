-- ===== src/Exams.antt =====
-- The functions of backend/internal/exams/model.go and backend/internal/exercises/model.go.
pub mod Laws
mod Tests
use fluenthub.Prelude.{
  ℕ, ◌+◌, String, Bool, true, ◌&&◌, not, Option, none, some, List, [], ◌∷◌, ◌==◌, if◌then◌else◌,
  ltb,
}
use fluenthub.Prelude.Int.{pos}
use fluenthub.Assessment.Store.{Time, add_duration}
use fluenthub.Assessment.Start.{minutes, after}

-- The fields of an Exam, and of an Attempt, that the functions use.
pub record Exam : Type 0 where
  pub id : String
  pub closes_at : Option Time
  pub duration_minutes : ℕ

pub record Attempt : Type 0 where
  pub exam_id : String
  pub student_id : String
  pub status : String
  pub started_at : Time
  pub expires_at : Time

-- An option as a student sees it, and as the teacher does.
pub record SafeOption : Type 0 where
  pub id : String
  pub label : String
  pub value : String
  pub order : ℕ

pub record QuestionOption : Type 0 where
  pub safe : SafeOption
  pub correct : Bool

-- `exam.ClosesAt != nil && expires.After(*exam.ClosesAt)`
abbrev pub capped : Time → Option Time → Time
capped expires none = expires
capped expires (some closes) = if ltb closes expires then closes else expires

unfoldable pub new_attempt : Exam → String → Time → Attempt
unfolding minutes
new_attempt exam student_id now = record {
  exam_id = exam.id;
  student_id = student_id;
  status = "in_progress";
  started_at = now;
  expires_at = capped (add_duration now (minutes exam.duration_minutes)) exam.closes_at;
}

unfoldable pub can_save : Attempt → Time → Bool
can_save attempt now =
    attempt.status == "in_progress"
    && not (after now (some (add_duration attempt.expires_at (pos 15_000_000_000))))

unfoldable pub public_options : List QuestionOption → List SafeOption
public_options [] = []
public_options (o ∷ options) = o.safe ∷ public_options options
