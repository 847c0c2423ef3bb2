-- ===== src/Academic.antt =====
-- backend/internal/academic/service.go: the final result of a student. A Go int has 64 bits.
pub mod Laws
mod Tests
use fluenthub.Prelude.{ℕ, String, Bool, true, false, ◌||◌, not, if◌then◌else◌}
use fluenthub.Prelude.Int.{ℤ, pos, ltb_ℤ, eqb_ℤ, add64, mul64, quot}
use fluenthub.Prelude.Action.{reason, ok, err}
use fluenthub.Prelude.Action

pub record Policy : Type 0 where
  pub minimum_passing_score : ℤ
  pub exercise_weight : ℤ
  pub exam_weight : ℤ
  pub minimum_attendance : ℤ
  pub require_all_mandatory_exams : Bool
  pub require_all_mandatory_exercises : Bool

pub record Result : Type 0 where
  pub exercise_average : ℤ
  pub exam_average : ℤ
  pub attendance : ℤ
  pub final_score : ℤ
  pub result : String

unfoldable pub final_score : Policy → ℤ → ℤ → ℤ
final_score policy exercise_average exam_average =
    quot
      (add64
        (add64 (mul64 exercise_average policy.exercise_weight)
          (mul64 exam_average policy.exam_weight))
        (pos 5000))
      10000

unfoldable pub outcome : Policy → ℤ → ℤ → Bool → String
outcome policy final attendance mandatory_complete =
    if ltb_ℤ final policy.minimum_passing_score
      || ltb_ℤ attendance policy.minimum_attendance
      || not mandatory_complete
    then "failed"
    else "approved"

unfoldable pub calculate : Policy → ℤ → ℤ → ℤ → Bool → Action.Result Result
unfolding final_score outcome
calculate policy exercise_average exam_average attendance mandatory_complete =
    if not (eqb_ℤ (add64 policy.exercise_weight policy.exam_weight) (pos 10000))
    then err (reason "assessment weights must sum to 10000")
    else ok (record {
      exercise_average = exercise_average;
      exam_average = exam_average;
      attendance = attendance;
      final_score = final_score policy exercise_average exam_average;
      result =
          outcome policy (final_score policy exercise_average exam_average) attendance
            mandatory_complete;
    })
