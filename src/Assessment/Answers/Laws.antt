-- ===== src/Assessment/Answers/Laws.antt =====
-- An answer that is saved is the one that is scored, and no other answer changes.
use fluenthub.Prelude.{
  String, ◌≡◌, refl, ◌⊎◌, inl, inr, Bool, true, false, ◌&&◌, ◌==◌, eq_refl, eq_iff, find_where,
  arith, Option-cases,
}
use fluenthub.Prelude.Tables.{
  find_where-update, find_where-insert, find_where-update_other, find_where-insert_other,
  exists_where-find_some, exists_where-find_none,
}
use fluenthub.Prelude.Action.{is_ok, ok}
use fluenthub.Assessment.Store.{Time, Answer, Work, Db}
use fluenthub.Assessment.Answers.{
  AnswerInput, sort_texts, is_answer_to, upsert_answer, put_answer, sorted, may_answer_exercise,
  may_answer_exam, save_exercise_answer, save_exam_answer,
}
use fluenthub.Assessment.Submit.{selected_ids}

is_answer_to-other :
    (attempt_id question_id attempt_id' question_id' : String) (a : Answer)
    → (attempt_id == attempt_id' && question_id == question_id') ≡ false
    → is_answer_to attempt_id question_id a ≡ true
    → is_answer_to attempt_id' question_id' a ≡ false
is_answer_to-other attempt_id question_id attempt_id' question_id' a h hit =
    ground (arith, eq_iff a.attempt_id attempt_id, eq_iff a.question_id question_id)

module _ (attempt_id : String) (input : AnswerInput) (work : Work) where
  put_answer-selected_ids :
      selected_ids attempt_id input.question_id (put_answer attempt_id input work)
      ≡ input.selected_option_ids
  unfolding selected_ids upsert_answer
  put_answer-selected_ids =
      let p = is_answer_to attempt_id input.question_id in
      let f = λ (a : Answer). record a {
        text_answer = input.text_answer;
        selected_option_ids = input.selected_option_ids;
      } in
      let new : Answer = record {
        attempt_id = attempt_id;
        question_id = input.question_id;
        text_answer = input.text_answer;
        selected_option_ids = input.selected_option_ids;
      } in
      elim (Option-cases (find_where p work.answers)) [
        | inl missing ↦ ground (
          arith,
          exists_where-find_none p work.answers missing,
          find_where-insert p new work.answers,
          eq_refl attempt_id,
          eq_refl input.question_id,
        )
        | inr (a, found) ↦ ground (
          arith,
          exists_where-find_some p a work.answers found,
          find_where-update p f a work.answers (λ y. refl) found,
        )
      ]

  put_answer-other :
      (attempt_id' question_id' : String)
      → (attempt_id == attempt_id' && input.question_id == question_id') ≡ false
      → selected_ids attempt_id' question_id' (put_answer attempt_id input work)
        ≡ selected_ids attempt_id' question_id' work
  unfolding selected_ids upsert_answer
  put_answer-other attempt_id' question_id' h =
      let p = is_answer_to attempt_id' question_id' in
      let f = λ (a : Answer). record a {
        text_answer = input.text_answer;
        selected_option_ids = input.selected_option_ids;
      } in
      let new : Answer = record {
        attempt_id = attempt_id;
        question_id = input.question_id;
        text_answer = input.text_answer;
        selected_option_ids = input.selected_option_ids;
      } in
      ground (
        arith,
        find_where-insert_other p new work.answers,
        find_where-update_other p (is_answer_to attempt_id input.question_id) f work.answers
            (λ a hit.
              let other =
                is_answer_to-other attempt_id input.question_id attempt_id' question_id' a h hit in
              (other, other)),
      )

module _ (fault : Bool) (now : Time) (school_id student_id attempt_id : String)
    (input : AnswerInput) (db : Db) where
  -- An answer to an exercise is accepted only if the attempt is one in progress of the
  -- student, at an exercise of the school that has the question. Then what is scored for the question are the
  -- chosen options in order, and for every other question and attempt it is what it was; else nothing changes.
  pub save_exercise_answer-selected_ids :
      (attempt_id' question_id' : String)
      → let (r, db') = save_exercise_answer fault school_id student_id attempt_id input db in
        ((r ≡ ok tt)
          × (may_answer_exercise school_id student_id attempt_id input.question_id db ≡ true)
          × (selected_ids attempt_id input.question_id db'.exercise_work
              ≡ sort_texts input.selected_option_ids)
          × ((attempt_id == attempt_id' && input.question_id == question_id' ≡ true)
              ⊎ (selected_ids attempt_id' question_id' db'.exercise_work
                  ≡ selected_ids attempt_id' question_id' db.exercise_work)))
        ⊎ ((is_ok r ≡ false) × (db' ≡ db))
  unfolding save_exercise_answer
  save_exercise_answer-selected_ids attempt_id' question_id' = ground (
    arith,
    put_answer-selected_ids attempt_id (sorted input) db.exercise_work,
    put_answer-other attempt_id (sorted input) db.exercise_work attempt_id' question_id',
  )

  -- An answer to an exam is accepted only if the attempt is one in progress of the
  -- student, not over for more than 15 seconds, at an exam of the school that has the question. Then what is
  -- scored for the question are the chosen options in order, and for every other question and attempt it is
  -- what it was; else nothing changes.
  pub save_exam_answer-selected_ids :
      (attempt_id' question_id' : String)
      → let (r, db') = save_exam_answer fault now school_id student_id attempt_id input db in
        ((r ≡ ok tt)
          × (may_answer_exam now school_id student_id attempt_id input.question_id db ≡ true)
          × (selected_ids attempt_id input.question_id db'.exam_work
              ≡ sort_texts input.selected_option_ids)
          × ((attempt_id == attempt_id' && input.question_id == question_id' ≡ true)
              ⊎ (selected_ids attempt_id' question_id' db'.exam_work
                  ≡ selected_ids attempt_id' question_id' db.exam_work)))
        ⊎ ((is_ok r ≡ false) × (db' ≡ db))
  unfolding save_exam_answer
  save_exam_answer-selected_ids attempt_id' question_id' = ground (
    arith,
    put_answer-selected_ids attempt_id (sorted input) db.exam_work,
    put_answer-other attempt_id (sorted input) db.exam_work attempt_id' question_id',
  )
