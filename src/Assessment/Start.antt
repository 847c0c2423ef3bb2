-- ===== src/Assessment/Start.antt =====
-- `StartExercise` and `StartExam` of backend/internal/assessment/service.go.
pub mod Laws
use fluenthub.Prelude.{
  ℕ, ◌*◌, String, Bool, true, false, ◌&&◌, ◌||◌, not, Option, none, some, List, ◌==◌, if◌then◌else◌,
  ltb, leb, find_where, count_where, insert,
}
use fluenthub.Prelude.Int.{ℤ, pos, mul64}
use fluenthub.Prelude.Action.{
  reason, Faults, Action, pure, fail_if, query_row, query, or_fail, exec, transaction, ◌>>=◌, ◌>>◌,
}
use fluenthub.Assessment.Store.{
  Time, add_duration, Exercise, Exam, Attempt, Work, Db, is_enrolled, find_exercise, find_exam,
}

-- `bound != nil && now.Before(*bound)`, and After
abbrev pub before : Time → Option Time → Bool
before now none = false
before now (some bound) = ltb now bound

abbrev pub after : Time → Option Time → Bool
after now none = false
after now (some bound) = ltb bound now

abbrev pub count_attempts : String → String → Work → ℕ
count_attempts task_id student_id work =
    count_where (λ a. a.task_id == task_id && a.student_id == student_id) work.attempts

abbrev pub new_attempt : String → String → String → Option Time → Attempt
new_attempt id task_id student_id expires = record {
  id = id;
  task_id = task_id;
  student_id = student_id;
  status = "in_progress";
  expires_at = expires;
  submitted_at = none;
  objective_score = none;
  final_score = none;
}

abbrev pub add_attempt : Attempt → Work → Work
add_attempt a work = record work { attempts = insert a work.attempts }

-- `limit != nil && count >= *limit`
abbrev pub reached : Option ℕ → ℕ → Bool
reached none count = false
reached (some limit) count = leb limit count

abbrev pub exercise_for : String → String → String → Db → Option Exercise
exercise_for student_id exercise_id school_id db =
    find_where
      (λ x. x.id == exercise_id && x.school_id == school_id && is_enrolled x.class_id student_id db)
      db.exercises

abbrev pub exam_for : String → String → String → Db → Option Exam
exam_for student_id exam_id school_id db =
    find_where
      (λ x. x.id == exam_id && x.school_id == school_id && is_enrolled x.class_id student_id db)
      db.exams

unfoldable pub start_exercise : Faults → Time → String → String → String → String → Action Db String
start_exercise faults now uuid school_id student_id exercise_id =
    transaction (faults 0) (faults 4) do
      x ←
          or_fail (query_row (faults 1) (exercise_for student_id exercise_id school_id))
            (reason "exercise is not available to this student")
      fail_if (not (x.status == "published") || before now x.available_from || after now x.due_at)
          (reason "exercise is outside its availability window")
      count ← query (faults 2) (λ db. count_attempts exercise_id student_id db.exercise_work)
      fail_if (reached x.attempt_limit count) (reason "exercise attempt limit reached")
      exec (faults 3) (λ db. record db {
        exercise_work = add_attempt (new_attempt uuid exercise_id student_id none) db.exercise_work;
      })
      pure uuid

-- `time.Duration(duration) * time.Minute`, in nanoseconds of an int64
unfoldable pub minutes : ℕ → ℤ
minutes duration = mul64 (pos duration) (pos 60_000_000_000)

-- The end of an attempt: after the duration, or when the exam closes, if that is earlier.
unfoldable pub expiry : Time → ℕ → Option Time → Time
expiry now duration closes =
    let expires = add_duration now (minutes duration) in
    elim closes [ none ↦ expires | some c ↦ (if ltb c expires then c else expires) ]

unfoldable pub start_exam :
    Faults → Time → String → String → String → String → Action Db (String × Time)
unfolding expiry
start_exam faults now uuid school_id student_id exam_id = transaction (faults 0) (faults 4) do
  x ←
      or_fail (query_row (faults 1) (exam_for student_id exam_id school_id))
        (reason "exam is not available to this student")
  fail_if (not (x.status == "open") || before now x.opens_at || after now x.closes_at)
      (reason "exam is outside its availability window")
  count ← query (faults 2) (λ db. count_attempts exam_id student_id db.exam_work)
  fail_if (leb x.attempt_limit count) (reason "exam attempt limit reached")
  exec (faults 3) (λ db. record db {
    exam_work =
        add_attempt
          (new_attempt uuid exam_id student_id (some (expiry now x.duration_minutes x.closes_at)))
          db.exam_work;
  })
  pure (uuid, expiry now x.duration_minutes x.closes_at)
