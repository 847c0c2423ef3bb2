-- ===== src/Assessment/Grade/Revisions.antt =====
-- What a grading asks of a published grade, and what it adds to the revisions.
use Prim.Native.String.{count}
use fluenthub.Prelude.{
  ◌==◌, ◌≢◌, eq_iff, ◌≤◌, Bool-cases, String, ◌≡◌, refl, ◌⊎◌, true, false, Option, none, some,
  insert, arith, inl, inr,
}
use fluenthub.Prelude.Text.{len}
use fluenthub.Prelude.Int.{ℤ, pos, eqb_ℤ}
use fluenthub.Assessment.Store.{Kind, Db}
use fluenthub.Assessment.Grade.{GradeInput, Grade, lacks_reason, grade_id}

pub eqb_ℤ-eq : (a b : ℤ) → eqb_ℤ a b ≡ true → a ≡ b
eqb_ℤ-eq (pos m) (pos n) h = ground arith
eqb_ℤ-eq (pos m) (ℤ.negsuc n) h = ground arith
eqb_ℤ-eq (ℤ.negsuc m) (pos n) h = ground arith
eqb_ℤ-eq (ℤ.negsuc m) (ℤ.negsuc n) h = ground arith

pub eqb_ℤ_refl : (a : ℤ) → eqb_ℤ a a ≡ true
eqb_ℤ_refl (pos n) = ground arith
eqb_ℤ_refl (ℤ.negsuc n) = ground arith

-- What became of the revisions when a grade was given a score: a score that is not the old one is recorded
-- beside it, with a reason of five characters, and a score that is the old one is not.
abbrev pub Revised : Kind → String → String → GradeInput → Option Grade → ℤ → Db → Db → Type 0
Revised kind school_id teacher_id input none score db db' = db'.revisions ≡ db.revisions
Revised kind school_id teacher_id input (some old) score db db' =
    ((score ≡ old.score) × (db'.revisions ≡ db.revisions))
    ⊎ ((score ≢ old.score)
        × (5 ≤ count input.revision_reason)
        × (db'.revisions
            ≡ insert
                (record {
                  school_id = school_id;
                  grade_type = kind;
                  grade_id = old.id;
                  previous_score = old.score;
                  new_score = score;
                  reason = input.revision_reason;
                  changed_by = teacher_id;
                })
                db.revisions))

-- A grade that is published needs a reason of five bytes.
abbrev pub HasReason : Option Grade → GradeInput → Type 0
HasReason none input = Unit {0}
HasReason (some old) input = (old.status ≢ "published") ⊎ (5 ≤ len input.revision_reason)

-- A new grade takes the new id, and a grade that was there keeps its own.
abbrev pub IsGradeId : Option Grade → String → String → Type 0
IsGradeId none uuid id = id ≡ uuid
IsGradeId (some old) uuid id = id ≡ old.id

pub grade_id-IsGradeId :
    (uuid : String) (previous : Option Grade) → IsGradeId previous uuid (grade_id uuid previous)
grade_id-IsGradeId uuid none = refl
grade_id-IsGradeId uuid (some old) = refl

pub lacks_reason-HasReason :
    (previous : Option Grade) (input : GradeInput)
    → lacks_reason previous input ≡ false
    → HasReason previous input
lacks_reason-HasReason none input h = tt
lacks_reason-HasReason (some old) input h = elim (Bool-cases (old.status == "published")) [
  | inl published ↦ inr (ground arith)
  | inr other ↦ inl (λ e. ground (arith, eq_iff old.status "published"))
]
