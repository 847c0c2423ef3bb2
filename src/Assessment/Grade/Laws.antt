-- ===== src/Assessment/Grade/Laws.antt =====
-- A grade stays within the maximum, and no score changes without a revision.
use fluenthub.Prelude.{
  if◌then◌else◌, subst, sym, ◌∙◌, Bool-cases, String, ◌≡◌, refl, ap, false, ◌&&◌, Option, none,
  some, arith, Option-cases, inl, inr,
}
use fluenthub.Prelude.Int.{ℤ, pos, ltb_ℤ, eqb_ℤ, ◌≤ℤ◌}
use fluenthub.Prelude.Action.{
  or_fail, query_row, reason, bind-ok, ok, err, Error, Faults, transaction-ok, Result-cases,
}
use fluenthub.Assessment.Store.{Time, Kind, exercise, exam, Db}
use fluenthub.Assessment.Grade.{
  GradeInput, Grade, find_grade, max_score, grade_status, write_grade, is_exercise_kind, revise,
  lacks_reason, write_and_revise, looked_up, grade_id, grade_within, grade_scoped, grade,
}
use fluenthub.Assessment.Grade.Write.{Counts, Bounded, write_grade-find_grade}
use fluenthub.Assessment.Grade.Revisions.{
  Revised, HasReason, IsGradeId, eqb_ℤ-eq, eqb_ℤ_refl, grade_id-IsGradeId, lacks_reason-HasReason,
}

grade_id_idem :
    (uuid : String) (previous : Option Grade)
    → grade_id (grade_id uuid previous) previous ≡ grade_id uuid previous
grade_id_idem uuid none = refl
grade_id_idem uuid (some old) = refl

-- The state after a grading that succeeds, given the grade that was there and the maximum of the task.
abbrev pub Graded :
    Kind → String → String → String → String → GradeInput → ℤ → Option Grade → Db → Db → Type 0
Graded kind uuid school_id teacher_id attempt_id input maximum previous db db' =
    HasReason previous input
    × ((score : ℤ) × (id : String) × IsGradeId previous uuid id
        × (find_grade kind attempt_id db'
            ≡ some (record {
              id = id;
              score = score;
              status = if input.publish then "published" else "draft";
            }))
        × Counts kind attempt_id db input.score score
        × Bounded kind score maximum
        × Revised kind school_id teacher_id input previous score db db')

module _ (kind : Kind) (faults : Faults) (now : Time)
    (uuid school_id teacher_id attempt_id : String) (input : GradeInput) (db : Db) where
  -- A grading that fails, for whatever reason, has changed nothing.
  pub grade_atomic :
      (e : Error)
      → (grade kind faults now uuid school_id teacher_id attempt_id input db).0 ≡ err e
      → (grade kind faults now uuid school_id teacher_id attempt_id input db).1 ≡ db
  unfolding grade
  grade_atomic e h = ground arith

  revise-Revised :
      (previous : Option Grade) (score : ℤ) (db' : Db)
      → db'.revisions ≡ db.revisions
      → (revise kind (faults 6) school_id teacher_id previous input score db').0 ≡ ok tt
      → Revised kind school_id teacher_id input previous score db
          (revise kind (faults 6) school_id teacher_id previous input score db').1
  revise-Revised none score db' same h = same
  revise-Revised (some old) score db' same h = elim (Bool-cases (eqb_ℤ old.score score)) [
    | inl e ↦ ground (arith, eqb_ℤ-eq old.score score e)
    | inr e ↦ inr ((λ same. ground (arith, eqb_ℤ_refl score)), ground arith, ground arith)
  ]

  revise_keeps :
      (previous : Option Grade) (score : ℤ) (db' : Db)
      → find_grade kind attempt_id
          (revise kind (faults 6) school_id teacher_id previous input score db').1
        ≡ find_grade kind attempt_id db'
  unfolding find_grade
  revise_keeps none score db' = refl
  revise_keeps (some old) score db' = ground arith

  -- The part of a grading after the checks of its scope.
  write_and_revise-Revised :
      (maximum : ℤ) (previous : Option Grade)
      → (previous ≡ looked_up (faults 2) (find_grade kind attempt_id db))
      → (write_and_revise kind faults now uuid school_id teacher_id attempt_id maximum input
          previous db).0
        ≡ ok tt
      → let db' =
          (write_and_revise kind faults now uuid school_id teacher_id attempt_id maximum input
            previous db).1 in
        Graded kind uuid school_id teacher_id attempt_id input maximum
          (find_grade kind attempt_id db)
          db
          db'
  write_and_revise-Revised maximum previous looked h =
      let written =
        write_grade kind faults (faults 2) now (grade_id uuid previous) teacher_id attempt_id
          maximum input db in
      elim (Result-cases written.0) [
        | inr (e, failed) ↦ ground arith
        | inl (score, done) ↦
            let (intact, found, same, counts, bounded) =
              write_grade-find_grade faults now (grade_id uuid previous) teacher_id attempt_id
                maximum input db kind (faults 2) score done in
            let lacks : lacks_reason previous input ≡ false = ground arith in
            let ran : write_and_revise kind faults now uuid school_id teacher_id attempt_id maximum
                  input previous db
                ≡ revise kind (faults 6) school_id teacher_id previous input score written.1 =
              rw lacks (
                bind-ok
                  (write_grade kind faults (faults 2) now (grade_id uuid previous) teacher_id
                    attempt_id maximum input)
                  (revise kind (faults 6) school_id teacher_id previous input) db score done) in
            let before : previous ≡ find_grade kind attempt_id db = ground arith in
            let same_id : grade_id (grade_id uuid previous) (find_grade kind attempt_id db)
                ≡ grade_id uuid previous =
              rw (← before) (grade_id_idem uuid previous) in
            subst
              (λ p.
                Graded kind uuid school_id teacher_id attempt_id input maximum p db
                  (write_and_revise kind faults now uuid school_id teacher_id attempt_id maximum
                    input previous db).1)
              before
              (
                lacks_reason-HasReason previous input lacks,
                (
                  score,
                  grade_id uuid previous,
                  grade_id-IsGradeId uuid previous,
                  rw ran (
                      revise_keeps previous score written.1
                      ∙ found
                      ∙ ap
                          (λ i.
                            some (record {
                              id = i;
                              score = score;
                              status = grade_status input.publish;
                            }))
                          same_id),
                  counts,
                  bounded,
                  rw ran (revise-Revised previous score written.1 same (rw (← ran) h)),
                ),
              )
      ]

  -- The checks that a grading which succeeds has passed, and what runs after them.
  grade_scoped-ok :
      (grade_scoped kind faults now uuid school_id teacher_id attempt_id input db).0 ≡ ok tt
      → (maximum : ℤ) × (max_score kind school_id teacher_id attempt_id db ≡ some maximum)
        × ((is_exercise_kind kind && ltb_ℤ maximum input.score) ≡ false)
        × (grade_scoped kind faults now uuid school_id teacher_id attempt_id input db
            ≡ write_and_revise kind faults now uuid school_id teacher_id attempt_id maximum input
                (looked_up (faults 2) (find_grade kind attempt_id db))
                db)
  grade_scoped-ok h = elim (Option-cases (max_score kind school_id teacher_id attempt_id db)) [
    | inl missing ↦ ground arith
    | inr (maximum, found) ↦
        let up : faults 1 ≡ false = ground arith in
        let below : (is_exercise_kind kind && ltb_ℤ maximum input.score) ≡ false = ground arith in
        (
          maximum,
          found,
          below,
          bind-ok
                (or_fail (query_row (faults 1) (max_score kind school_id teacher_id attempt_id))
                  (reason "attempt is outside the teacher scope"))
                (grade_within kind faults now uuid school_id teacher_id attempt_id input) db maximum
                (ground arith)
              ∙ rw below refl,
        )
  ]

  grade-ok :
      (grade kind faults now uuid school_id teacher_id attempt_id input db).0 ≡ ok tt
      → let scoped = grade_scoped kind faults now uuid school_id teacher_id attempt_id input db in
        (pos 0 ≤ℤ input.score)
        × (scoped.0 ≡ ok tt)
        × ((grade kind faults now uuid school_id teacher_id attempt_id input db).1 ≡ scoped.1)
  unfolding grade
  grade-ok h =
      let scoped = grade_scoped kind faults now uuid school_id teacher_id attempt_id input in
      let nonnegative : ltb_ℤ input.score (pos 0) ≡ false = ground arith in
      let (done, same) = transaction-ok (faults 0) (faults 7) scoped db tt (ground arith) in
      (ground arith, done, rw nonnegative same)

  -- A grading that succeeds stores its score for the attempt (an exam's is the objective score and the given
  -- one together), which is not negative as given and at most the maximum of the task, and stores it as
  -- published or as a draft, as the input asks. A grade that was there keeps its id. If there was one and its
  -- score changes, then a revision with the old score, the new score, the teacher and a reason of at least five
  -- characters is added; if its score does not change, or there was none, then the revisions stay as they
  -- were. If the grade that was there is published, then a reason of at least five bytes was given, also when
  -- the score does not change.
  pub grade-Revised :
      (u : Unit {0})
      → (grade kind faults now uuid school_id teacher_id attempt_id input db).0 ≡ ok u
      → let db' = (grade kind faults now uuid school_id teacher_id attempt_id input db).1 in
        let previous = find_grade kind attempt_id db in
        (pos 0 ≤ℤ input.score)
        × ((maximum : ℤ) × (max_score kind school_id teacher_id attempt_id db ≡ some maximum)
            × ((graded : Graded kind uuid school_id teacher_id attempt_id input maximum previous db
                  db')
                × (graded.1.0 ≤ℤ maximum)))
  grade-Revised u h =
      let (nonnegative, done, same) = grade-ok h in
      let (maximum, found, below, wrote) = grade_scoped-ok done in
      let previous = looked_up (faults 2) (find_grade kind attempt_id db) in
      let graded =
        subst
          (λ r.
            Graded kind uuid school_id teacher_id attempt_id input maximum
              (find_grade kind attempt_id db) db r)
          (ap (λ r. r.1) (sym wrote) ∙ sym same)
          (write_and_revise-Revised maximum previous refl (ap (λ r. r.0) (sym wrote) ∙ done)) in
      let (reasoned, (score, id, kept, stored, counts, bounded, revised)) = graded in
      (nonnegative, (maximum, found, (graded, within kind maximum score below counts bounded)))
    where
      within :
          (k : Kind) (maximum score : ℤ)
          → (is_exercise_kind k && ltb_ℤ maximum input.score) ≡ false
          → Counts k attempt_id db input.score score
          → Bounded k score maximum
          → score ≤ℤ maximum
      within exercise maximum score below counts bounded = rw counts (ground arith)
      within exam maximum score below counts bounded = bounded
