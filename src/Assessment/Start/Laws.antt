-- ===== src/Assessment/Start/Laws.antt =====
-- An attempt starts only where the student may start one, and never beyond the limit of attempts.
use fluenthub.Prelude.{
  ℕ, ◌+◌, ◌*◌, ◌≤◌, String, ◌≡◌, ◌⊎◌, Bool, true, false, ◌&&◌, Option, none, some, List, [], ◌∷◌,
  ◌==◌, eq_refl, count_where, insert, arith, Option-cases, inl, inr, eq_iff,
}
use fluenthub.Prelude.Int.{pos, mul64-pos}
use fluenthub.Prelude.Tables.{find_where_sound}
use fluenthub.Prelude.Action.{ok, err, Error, Faults}
use fluenthub.Assessment.Store.{Time, Exercise, Exam, Attempt, Work, Db, is_enrolled}
use fluenthub.Assessment.Start.{
  before, after, count_attempts, new_attempt, add_attempt, exercise_for, exam_for, start_exercise,
  minutes, expiry, start_exam,
}

-- One more attempt counts for its own task and student.
count_where-insert :
    {A : Type 0} (p : A → Bool) (x : A) (xs : List A)
    → p x ≡ true
    → count_where p (insert x xs) ≡ count_where p xs + 1
unfolding count_where insert
count_where-insert p x [] h = ground arith
count_where-insert p x (y ∷ xs) h = ground (arith, count_where-insert p x xs h)

count_attempts-add :
    (id task_id student_id : String) (expires : Option Time) (work : Work)
    → count_attempts task_id student_id
        (add_attempt (new_attempt id task_id student_id expires) work)
      ≡ count_attempts task_id student_id work + 1
count_attempts-add id task_id student_id expires work =
    count_where-insert (λ (a : Attempt). a.task_id == task_id && a.student_id == student_id)
      (new_attempt id task_id student_id expires) work.attempts
      (ground (arith, eq_refl task_id, eq_refl student_id))

-- A count is within a limit, if there is one.
abbrev pub Within : Option ℕ → ℕ → Type 0
Within none count = Unit
Within (some limit) count = count ≤ limit

module _ (faults : Faults) (now : Time) (uuid school_id student_id task_id : String) (db : Db) where
  -- A start of an exercise that fails, for whatever reason, has changed nothing.
  pub start_exercise_atomic :
      (e : Error)
      → (start_exercise faults now uuid school_id student_id task_id db).0 ≡ err e
      → (start_exercise faults now uuid school_id student_id task_id db).1 ≡ db
  unfolding start_exercise
  start_exercise_atomic e h = ground arith

  -- A start that succeeds was of an exercise of the school, published, at a time in its window, by a student
  -- who is enrolled in its class; and the student's attempts at it are one more, and within the limit.
  pub start_exercise_allowed :
      (id : String)
      → (start_exercise faults now uuid school_id student_id task_id db).0 ≡ ok id
      → let db' = (start_exercise faults now uuid school_id student_id task_id db).1 in
        let count = count_attempts task_id student_id db'.exercise_work in
        (x : Exercise) × (exercise_for student_id task_id school_id db ≡ some x)
        × (is_enrolled x.class_id student_id db ≡ true)
        × (x.status ≡ "published")
        × (before now x.available_from ≡ false)
        × (after now x.due_at ≡ false)
        × (count ≡ count_attempts task_id student_id db.exercise_work + 1)
        × Within x.attempt_limit count
  unfolding start_exercise
  start_exercise_allowed id h = elim (Option-cases (exercise_for student_id task_id school_id db)) [
    | inl missing ↦ ground arith
    | inr (x, found) ↦
        let found_lem =
          find_where_sound
            (λ (y : Exercise).
              y.id == task_id && y.school_id == school_id && is_enrolled y.class_id student_id db)
            x db.exercises found in
        let added = count_attempts-add uuid task_id student_id none db.exercise_work in
        (
          x,
          found,
          ground (arith, found_lem),
          ground (arith, eq_iff x.status "published"),
          ground arith,
          ground arith,
          ground (arith, added),
          ground (arith, added),
        )
  ]

  -- A start of an exam that succeeds was of an exam of the school, open, at a time in its window, by a student
  -- who is enrolled in its class; the attempt expires when `expiry` says; and the student's attempts at it
  -- are one more, and within the limit.
  pub start_exam_allowed :
      (r : String × Time)
      → (start_exam faults now uuid school_id student_id task_id db).0 ≡ ok r
      → let db' = (start_exam faults now uuid school_id student_id task_id db).1 in
        let count = count_attempts task_id student_id db'.exam_work in
        (x : Exam) × (exam_for student_id task_id school_id db ≡ some x)
        × (is_enrolled x.class_id student_id db ≡ true)
        × (x.status ≡ "open")
        × (before now x.opens_at ≡ false)
        × (after now x.closes_at ≡ false)
        × (r.1 ≡ expiry now x.duration_minutes x.closes_at)
        × (count ≡ count_attempts task_id student_id db.exam_work + 1)
        × (count ≤ x.attempt_limit)
  unfolding start_exam
  start_exam_allowed r h = elim (Option-cases (exam_for student_id task_id school_id db)) [
    | inl missing ↦ ground arith
    | inr (x, found) ↦
        let found_lem =
          find_where_sound
            (λ (y : Exam).
              y.id == task_id && y.school_id == school_id && is_enrolled y.class_id student_id db)
            x db.exams found in
        let added =
          count_attempts-add uuid task_id student_id
            (some (expiry now x.duration_minutes x.closes_at)) db.exam_work in
        (
          x,
          found,
          ground (arith, found_lem),
          ground (arith, eq_iff x.status "open"),
          ground arith,
          ground arith,
          ground arith,
          ground (arith, added),
          ground (arith, added),
        )
  ]

  -- A start of an exam that fails, for whatever reason, has changed nothing.
  pub start_exam_atomic :
      (e : Error)
      → (start_exam faults now uuid school_id student_id task_id db).0 ≡ err e
      → (start_exam faults now uuid school_id student_id task_id db).1 ≡ db
  unfolding start_exam
  start_exam_atomic e h = ground arith

-- No wrap-around below 2^63 nanoseconds, which is 153,722,867 minutes.
minutes-exact :
    (duration : ℕ) → duration ≤ 153722867 → minutes duration ≡ pos (duration * 60000000000)
unfolding minutes
minutes-exact duration h = mul64-pos duration 60000000000 (omega arith)

-- An attempt at an exam of at most 153,722,867 minutes ends when its duration is over or when the exam
-- closes, whichever is earlier, and never before it starts if it starts before the exam closes.
pub expiry_lem :
    (now : Time) (duration : ℕ) (closes : Option Time)
    → duration ≤ 153722867
    → after now closes ≡ false
    → let expires = expiry now duration closes in
      (now ≤ expires)
      × (expires ≤ now + duration * 60000000000)
      × (after expires closes ≡ false)
      × ((expires ≡ now + duration * 60000000000) ⊎ (closes ≡ some expires))
unfolding expiry
expiry_lem now duration closes h running = ground (arith, minutes-exact duration h)
