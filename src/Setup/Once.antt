-- ===== src/Setup/Once.antt =====
-- The set-up runs once, and what it stores is a policy that results can be computed with.
use fluenthub.Prelude.{
  ◌≡◌, ap, ◌∙◌, inl, inr, String, Bool, true, false, Option, List, arith, exists_where, insert,
}
use fluenthub.Prelude.Int.{ℤ}
use fluenthub.Prelude.Action.{ok, is_ok, Faults, no_faults}
use fluenthub.Auth.{Crypto}
use fluenthub.Users.Store.{Time}
use fluenthub.Academic.{Policy, calculate}
use fluenthub.Setup.Validate.{Input}
use fluenthub.Setup.Store.{Db, SchoolRow, PolicyRow}
use fluenthub.Setup.{Ids, complete, status, policy_row}
use fluenthub.Setup.Laws.{complete-cases, complete_refused, insert_school-ok, validate-ok}

-- The policy that Calculate gets from a row; the two further settings are not part of the set-up.
abbrev pub policy_of : Bool → Bool → PolicyRow → Policy
policy_of mandatory_exams mandatory_exercises row = record {
  minimum_passing_score = row.minimum_passing_score;
  exercise_weight = row.exercise_weight;
  exam_weight = row.exam_weight;
  minimum_attendance = row.minimum_attendance;
  require_all_mandatory_exams = mandatory_exams;
  require_all_mandatory_exercises = mandatory_exercises;
}

module _ (crypto : Crypto) (parse_address : String → Option String) (to_lower : String → String)
    (faults : Faults) (now : Time) (ids : Ids) (roles : List (String × String)) (input : Input)
    (db : Db) where
  -- After a set-up the status says so, and no second set-up, with whatever input, succeeds or changes anything.
  pub complete_once :
      (faults' : Faults) (now' : Time) (ids' : Ids) (roles' : List (String × String))
      (input' : Input) (id : String)
      → let (r, db') = complete crypto parse_address to_lower faults now ids roles input db in
        r ≡ ok id
        → let (again, db'') =
            complete crypto parse_address to_lower faults' now' ids' roles' input' db' in
          ((status no_faults db').0 ≡ ok true) × (is_ok again ≡ false) × (db'' ≡ db')
  unfolding status
  complete_once faults' now' ids' roles' input' id done =
      elim (complete-cases crypto parse_address to_lower faults now ids roles input db) [
        | inr (failed, same) ↦ ground (arith, failed)
        | inl
              (
                hash,
                school_address,
                admin_address,
                r,
                valid,
                hashed,
                of_admin,
                fresh,
                (
                  wrote, gave, schools, policies, users, sessions, roles_of, user_roles,
                  role_permissions,
                ),
              ) ↦
            let db' = (complete crypto parse_address to_lower faults now ids roles input db).1 in
            let written =
              insert_school-ok crypto parse_address to_lower faults now ids roles input db
                school_address admin_address hash wrote in
            let there : exists_where (λ (school : SchoolRow). true) db'.schools ≡ true =
              ap (exists_where (λ (school : SchoolRow). true)) schools ∙ written.0 in
            let (refused, same) =
              complete_refused crypto parse_address to_lower faults' now' ids' roles' input' db'
                there in
            (ap ok there, refused, same)
      ]

  -- The academic policy that a set-up stores has weights with which Calculate computes a result for any averages and
  -- attendance.
  pub complete-calculate :
      (id : String) (mandatory_exams mandatory_exercises : Bool)
      (exercise_average exam_average attendance : ℤ) (mandatory_complete : Bool)
      → let (r, db') = complete crypto parse_address to_lower faults now ids roles input db in
        r ≡ ok id
        → (policy : PolicyRow) × (db'.policies ≡ insert policy db.policies)
          × (policy.school_id ≡ id)
          × (is_ok (
                calculate
                  (policy_of mandatory_exams mandatory_exercises policy)
                  exercise_average
                  exam_average
                  attendance
                  mandatory_complete)
              ≡ true)
  unfolding calculate
  complete-calculate id mandatory_exams mandatory_exercises exercise_average exam_average attendance
        mandatory_complete done =
      elim (complete-cases crypto parse_address to_lower faults now ids roles input db) [
        | inr (failed, same) ↦ ground (arith, failed)
        | inl
              (
                hash,
                school_address,
                admin_address,
                r,
                valid,
                hashed,
                of_admin,
                fresh,
                (
                  wrote, gave, schools, policies, users, sessions, roles_of, user_roles,
                  role_permissions,
                ),
              ) ↦
            let written =
              insert_school-ok crypto parse_address to_lower faults now ids roles input db
                school_address admin_address hash wrote in
            let summed = (validate-ok parse_address input valid).2 in
            (
              policy_row to_lower faults ids input,
              policies ∙ written.1,
              ground arith,
              ground (arith, summed),
            )
      ]
