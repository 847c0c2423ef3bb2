-- ===== src/Assessment/Grade/Write.antt =====
-- What the writing of a grade stores.
use fluenthub.Prelude.{
  String, ◌≡◌, refl, Bool, false, some, ◌==◌, eq_refl, find_where, arith, Option-cases, inl, inr,
}
use fluenthub.Prelude.Int.{ℤ, add64, ◌≤ℤ◌}
use fluenthub.Prelude.Tables.{
  find_where-update, find_where-insert, exists_where-find_some, exists_where-find_none,
}
use fluenthub.Prelude.Action.{ok, Faults}
use fluenthub.Assessment.Store.{Time, ExerciseGrade, ExamGrade, Kind, exercise, exam, Db}
use fluenthub.Assessment.Grade.{
  GradeInput, find_grade, objective_of, grade_status, upsert_exercise_grade, upsert_exam_grade,
  write_grade, published_at, grade_id,
}

-- The grade that is found after an upsert: the id of the row that was there, else of the new one.
find_grade-upsert_exercise_grade :
    (db : Db) (new : ExerciseGrade)
    → find_grade exercise new.attempt_id
        (record db { exercise_grades = upsert_exercise_grade new db.exercise_grades })
      ≡ some (record {
        id = grade_id new.id (find_grade exercise new.attempt_id db);
        score = new.score;
        status = new.status;
      })
unfolding find_grade upsert_exercise_grade
find_grade-upsert_exercise_grade db new =
    let p = λ (g : ExerciseGrade). g.attempt_id == new.attempt_id in
    let f = λ (g : ExerciseGrade). record g {
      score = new.score;
      feedback = new.feedback;
      status = new.status;
      graded_at = new.graded_at;
      published_at = new.published_at;
    } in
    elim (Option-cases (find_where p db.exercise_grades)) [
      | inl missing ↦ ground (
        arith,
        exists_where-find_none p db.exercise_grades missing,
        find_where-insert p new db.exercise_grades,
        eq_refl new.attempt_id,
      )
      | inr (g, found) ↦ ground (
        arith,
        exists_where-find_some p g db.exercise_grades found,
        find_where-update p f g db.exercise_grades (λ y. refl) found,
      )
    ]

find_grade-upsert_exam_grade :
    (db : Db) (new : ExamGrade)
    → find_grade exam new.attempt_id
        (record db { exam_grades = upsert_exam_grade new db.exam_grades })
      ≡ some (record {
        id = grade_id new.id (find_grade exam new.attempt_id db);
        score = new.final_score;
        status = new.status;
      })
unfolding find_grade upsert_exam_grade
find_grade-upsert_exam_grade db new =
    let p = λ (g : ExamGrade). g.attempt_id == new.attempt_id in
    let f = λ (g : ExamGrade). record g {
      manual_score = new.manual_score;
      final_score = new.final_score;
      feedback = new.feedback;
      status = new.status;
      graded_at = new.graded_at;
      published_at = new.published_at;
    } in
    elim (Option-cases (find_where p db.exam_grades)) [
      | inl missing ↦ ground (
        arith,
        exists_where-find_none p db.exam_grades missing,
        find_where-insert p new db.exam_grades,
        eq_refl new.attempt_id,
      )
      | inr (g, found) ↦ ground (
        arith,
        exists_where-find_some p g db.exam_grades found,
        find_where-update p f g db.exam_grades (λ y. refl) found,
      )
    ]

-- The score that a grade of this kind ends up with.
abbrev pub Counts : Kind → String → Db → ℤ → ℤ → Type 0
Counts exercise attempt_id db given score = score ≡ given
Counts exam attempt_id db given score =
    (objective : ℤ) × (objective_of attempt_id db ≡ some objective)
    × (score ≡ add64 objective given)

-- What the writing of a grade checks itself: nothing of an exercise.
abbrev pub Bounded : Kind → ℤ → ℤ → Type 0
Bounded exercise score maximum = Unit
Bounded exam score maximum = score ≤ℤ maximum

module _ (faults : Faults) (now : Time) (id teacher_id attempt_id : String) (maximum : ℤ)
    (input : GradeInput) (db : Db) where
  pub write_grade-find_grade :
      (kind : Kind) (aborted : Bool) (score : ℤ)
      → (write_grade kind faults aborted now id teacher_id attempt_id maximum input db).0 ≡ ok score
      → let db' =
          (write_grade kind faults aborted now id teacher_id attempt_id maximum input db).1 in
        (aborted ≡ false)
        × (find_grade kind attempt_id db'
            ≡ some (record {
              id = grade_id id (find_grade kind attempt_id db);
              score = score;
              status = grade_status input.publish;
            }))
        × (db'.revisions ≡ db.revisions)
        × Counts kind attempt_id db input.score score
        × Bounded kind score maximum
  unfolding write_grade
  write_grade-find_grade exercise aborted score h =
      let new : ExerciseGrade = record {
        id = id;
        attempt_id = attempt_id;
        teacher_id = teacher_id;
        score = input.score;
        feedback = input.feedback;
        status = grade_status input.publish;
        graded_at = some now;
        published_at = published_at now input.publish;
      } in
      ground (arith, find_grade-upsert_exercise_grade db new)
  write_grade-find_grade exam aborted score h = elim (Option-cases (objective_of attempt_id db)) [
    | inl missing ↦ ground arith
    | inr (objective, found) ↦
        let new : ExamGrade = record {
          id = id;
          attempt_id = attempt_id;
          teacher_id = teacher_id;
          objective_score = objective;
          manual_score = input.score;
          final_score = add64 objective input.score;
          feedback = input.feedback;
          status = grade_status input.publish;
          graded_at = some now;
          published_at = published_at now input.publish;
        } in
        let grade_found = find_grade-upsert_exam_grade db new in
        (
          ground arith,
          ground (arith, grade_found),
          ground arith,
          (objective, found, ground arith),
          ground arith,
        )
  ]
