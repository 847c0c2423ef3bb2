-- ===== src/Assessment/Submit/Scores.antt =====
-- The score of a submission, by the rules: a question of several options or of true and false counts if
-- the options chosen are the correct ones, and the others wait for a review.
use fluenthub.Prelude.{
  ℕ, ◌+◌, String, ◌≡◌, ◌≢◌, ◌⊎◌, inl, inr, refl, ap, ◌∙◌, Bool, true, false, ◌&&◌, ◌||◌, not,
  Option, subst, some, none, List, [], ◌∷◌, map, ◌==◌, eq_iff, if◌then◌else◌, find_where,
  exists_where, select_where, count_where, update_where, arith, Bool-cases,
}
use fluenthub.Prelude.Action.{ok, Faults}
use fluenthub.Assessment.Store.{Time, Attempt, Choice, Question, Work, Db}
use fluenthub.Assessment.Answers.{insert_text, sort_texts, is_active, is_exercise}
use fluenthub.Assessment.Submit.{
  eq_texts, question_score, sum_scores, questions_of, Scored, score_of_attempt, score_questions,
  score_exercise, correct_ids, selected_ids, submit_exercise, review_state,
}
use fluenthub.Assessment.Submit.Laws.{submit_exercise-ok}

eq_texts-eq : (xs ys : List String) → eq_texts xs ys ≡ true → xs ≡ ys
eq_texts-eq [] [] h = refl
eq_texts-eq [] (y ∷ ys) h = cc
eq_texts-eq (x ∷ xs) [] h = cc
eq_texts-eq (x ∷ xs) (y ∷ ys) h = ground (arith, eq_iff x y, eq_texts-eq xs ys)

eq_texts_refl : (xs : List String) → eq_texts xs xs ≡ true
eq_texts_refl [] = refl
eq_texts_refl (x ∷ xs) = ground (arith, eq_iff x x, eq_texts_refl xs)

count_where-insert_text :
    (p : String → Bool) (s : String) (texts : List String)
    → count_where p (insert_text s texts) ≡ count_where p (s ∷ texts)
unfolding count_where insert_text
count_where-insert_text p s [] = refl
count_where-insert_text p s (t ∷ texts) = ground (arith, count_where-insert_text p s texts)

count_where-sort_texts :
    (p : String → Bool) (texts : List String)
    → count_where p (sort_texts texts) ≡ count_where p texts
unfolding count_where sort_texts
count_where-sort_texts p [] = refl
count_where-sort_texts p (s ∷ texts) =
    ground (arith, count_where-insert_text p s (sort_texts texts), count_where-sort_texts p texts)

-- The options chosen in the answer that an attempt has to a question: none if there is no answer.
abbrev pub chosen : String → String → Work → List String
chosen attempt_id question_id work =
    elim (find_where (λ a. a.attempt_id == attempt_id && a.question_id == question_id)
      work.answers) [ none ↦ [] | some a ↦ a.selected_option_ids ]

abbrev pub is_right_option : String → Choice → Bool
is_right_option question_id o = o.question_id == question_id && o.correct

-- The ids in a list are those of the correct options of a question, each as often as there is such an option.
abbrev pub IsRight : String → Work → List String → Type 0
IsRight question_id work ids =
    (id : String)
    → count_where (λ s. s == id) ids
      ≡ count_where (λ (o : Choice). o.id == id && is_right_option question_id o) work.choices

-- The points of a question.
abbrev pub Earns : String → Work → Question → ℕ → Type 0
Earns attempt_id work q points =
    (((q.type ≡ "multiple_choice") ⊎ (q.type ≡ "true_false"))
      × IsRight q.id work (chosen attempt_id q.id work)
      × (points ≡ q.max_score))
    ⊎ ((((q.type ≢ "multiple_choice") × (q.type ≢ "true_false"))
          ⊎ (chosen attempt_id q.id work
              ≢ sort_texts
                  (map (λ (o : Choice). o.id) (select_where (is_right_option q.id) work.choices))))
        × (points ≡ 0))

-- The points of all the questions together.
abbrev pub EarnsAll : String → Work → List Question → ℕ → Type 0
EarnsAll attempt_id work [] total = total ≡ 0
EarnsAll attempt_id work (q ∷ questions) total =
    (points : ℕ) × (rest : ℕ) × Earns attempt_id work q points
    × EarnsAll attempt_id work questions rest
    × (total ≡ points + rest)

count_right :
    (question_id id : String) (choices : List Choice)
    → count_where
        (λ s. s == id)
        (map (λ (o : Choice). o.id) (select_where (is_right_option question_id) choices))
      ≡ count_where (λ (o : Choice). o.id == id && is_right_option question_id o) choices
unfolding count_where select_where
count_right question_id id [] = refl
count_right question_id id (o ∷ choices) = ground (arith, count_right question_id id choices)

module _ (attempt_id : String) (work : Work) where
  correct_ids-IsRight :
      (q : Question) (ids : List String) → ids ≡ correct_ids q.id work → IsRight q.id work ids
  unfolding correct_ids
  correct_ids-IsRight q ids e id =
      ap (count_where (λ s. s == id)) e
      ∙ count_where-sort_texts (λ s. s == id)
          (map (λ o. o.id) (select_where (is_right_option q.id) work.choices))
      ∙ count_right q.id id work.choices

  question_score-Earns : (q : Question) → Earns attempt_id work q (question_score attempt_id work q)
  unfolding question_score correct_ids selected_ids
  question_score-Earns q =
      elim (Bool-cases (q.type == "multiple_choice" || q.type == "true_false")) [
        | inr other ↦ ground (arith, eq_iff q.type "multiple_choice", eq_iff q.type "true_false")
        | inl objective ↦
            let ids = chosen attempt_id q.id work in
            let correct = correct_ids q.id work in
            elim (Bool-cases (eq_texts ids correct)) [
              | inl equal ↦ inl (
                ground (arith, eq_iff q.type "multiple_choice", eq_iff q.type "true_false"),
                correct_ids-IsRight q ids (eq_texts-eq ids correct equal),
                ground arith,
              )
              | inr unequal ↦
                  inr (inr (λ e. ground (arith, eq_texts_refl correct, e)), ground arith)
            ]
      ]

  sum_scores-EarnsAll :
      (questions : List Question)
      → EarnsAll attempt_id work questions (sum_scores (question_score attempt_id work) questions)
  unfolding sum_scores
  sum_scores-EarnsAll [] = refl
  sum_scores-EarnsAll (q ∷ questions) = (
    question_score attempt_id work q,
    sum_scores (question_score attempt_id work) questions,
    question_score-Earns q,
    sum_scores-EarnsAll questions,
    refl,
  )

-- What a submission leaves as the status and as the final score.
abbrev pub IsReviewed : List Question → ℕ → String → Option ℕ → Type 0
IsReviewed questions score status final =
    let has_manual =
      exists_where (λ q. not (q.type == "multiple_choice" || q.type == "true_false")) questions in
    ((has_manual ≡ false) × (status ≡ "graded") × (final ≡ some score))
    ⊎ ((has_manual ≡ true) × (status ≡ "awaiting_review") × (final ≡ none))

score_of_attempt-EarnsAll :
    (attempt_id : String) (work : Work) (found : Option Attempt) (scored : Scored)
    → score_of_attempt attempt_id work found ≡ some scored
    → (a : Attempt) × (found ≡ some a)
      × (questions_of a.task_id work ≢ [])
      × EarnsAll attempt_id work (questions_of a.task_id work) scored.objective
      × (scored.manual
          ≡ exists_where
              (λ q. not (q.type == "multiple_choice" || q.type == "true_false"))
              (questions_of a.task_id work))
score_of_attempt-EarnsAll attempt_id work none scored h = cc
score_of_attempt-EarnsAll attempt_id work (some a) scored h =
    let (some_question, objective, manual) = of (questions_of a.task_id work) h in
    (a, refl, some_question, objective, manual)
  where
    of :
        (questions : List Question)
        → score_questions attempt_id work questions ≡ some scored
        → (questions ≢ [])
          × EarnsAll attempt_id work questions scored.objective
          × (scored.manual
              ≡ exists_where
                  (λ q. not (q.type == "multiple_choice" || q.type == "true_false"))
                  questions)
    of [] e = cc
    of (q ∷ questions) e = (
      λ no. cc,
      (let same : sum_scores (question_score attempt_id work) (q ∷ questions) ≡ scored.objective =
            ground arith in
          subst (EarnsAll attempt_id work (q ∷ questions)) same
            (sum_scores-EarnsAll attempt_id work (q ∷ questions))),
      ground arith,
    )

-- A submission of an exercise that succeeds finds an attempt of the student in progress, of an exercise of
-- the school that has questions. Its score is the sum over these questions, where a question of several
-- options or of true and false gives its maximum if the chosen options are its correct ones, each as often
-- as it has such an option, and nothing if they are not the list of its correct ones in order; other
-- questions give nothing. The attempt with that id gets the score, with the time of the submission: it is
-- graded with that score as the final one if there are no other questions, and else it awaits a review with
-- no final score. Nothing else is written.
pub submit_exercise-EarnsAll :
    (faults : Faults) (now : Time) (school_id student_id attempt_id : String) (db : Db)
    (u : Unit {0})
    → (submit_exercise faults now school_id student_id attempt_id db).0 ≡ ok u
    → let work = db.exercise_work in
      let found =
        find_where
          (λ b.
            (b.id == attempt_id && b.student_id == student_id && b.status == "in_progress")
            && exists_where (λ x. x.id == b.task_id && x.school_id == school_id) db.exercises)
          work.attempts in
      (a : Attempt) × (score : ℕ) × (state : String) × (final : Option ℕ) × (found ≡ some a)
      × (select_where (λ q. q.task_id == a.task_id) work.questions ≢ [])
      × EarnsAll attempt_id work (select_where (λ q. q.task_id == a.task_id) work.questions) score
      × IsReviewed (select_where (λ q. q.task_id == a.task_id) work.questions) score state final
      × ((submit_exercise faults now school_id student_id attempt_id db).1 ≡ record db {
        exercise_work = record work {
          attempts =
              update_where
                (λ b. b.id == attempt_id)
                (λ b. record b {
                  submitted_at = some now;
                  status = state;
                  objective_score = some score;
                  final_score = final;
                })
                work.attempts;
        };
      })
unfolding score_exercise
submit_exercise-EarnsAll faults now school_id student_id attempt_id db u h =
    let (scored, row, after) =
      submit_exercise-ok faults now school_id student_id attempt_id db u h in
    let (a, found, some_question, earned, manual) =
      score_of_attempt-EarnsAll attempt_id db.exercise_work
        (find_where (λ b. is_active attempt_id student_id b && is_exercise b.task_id school_id db)
          db.exercise_work.attempts)
        scored row in
    (
      a,
      scored.objective,
      review_state scored,
      if scored.manual then none else some scored.objective,
      found,
      some_question,
      earned,
      ground (arith, manual, Bool-cases scored.manual),
      after,
    )
