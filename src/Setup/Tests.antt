-- ===== src/Setup/Tests.antt =====
-- A set-up on concrete data.
use fluenthub.Prelude.{
  ◌+◌, ◌≡◌, refl, String, true, false, some, none, List, [], ◌∷◌, ◌++◌, ◌==◌, exists_where, insert,
  All,
}
use fluenthub.Prelude.Int.{pos}
use fluenthub.Prelude.Action.{ok, is_ok, no_faults}
use fluenthub.Academic.{calculate}
use fluenthub.Users.Sessions.Access.{holds_permission}
use fluenthub.Users.Tests.Data.{crypto}
use fluenthub.Setup.Validate.{Input}
use fluenthub.Setup.Store.{Db, PolicyRow}
use fluenthub.Setup.{Ids, default_permissions, system_roles, complete, status}
use fluenthub.Setup.Once.{policy_of, complete_once, complete-calculate}
use fluenthub.Setup.Administrator.{complete-administrator}

abbrev input : Input
input = record {
  legal_name = "School Ltd";
  display_name = "School";
  slug = "school-1";
  email = "info@example.org";
  phone = "";
  website = "";
  timezone = "UTC";
  locale = "en";
  system_title = "School";
  primary_color = "#4f46e5";
  secondary_color = "#0f172a";
  accent_color = "#f59e0b";
  welcome_text = "";
  administrator_name = "Ann";
  administrator_email = "ann@example.org";
  administrator_password = "correct horse";
  unit_name = "Centre";
  unit_code = "C";
  minimum_passing_score = pos 6000;
  exercise_weight = pos 4000;
  exam_weight = pos 6000;
  minimum_attendance = pos 7500;
}

abbrev ids : Ids
ids = record { school = "school-1"; admin = "user-1"; unit = "unit-1"; role = λ code. code }

abbrev db : Db
db = record {
  accounts = record {
    users = [];
    sessions = [];
    roles = [];
    user_roles = [];
    role_permissions = [];
    audits = [];
  };
  schools = [];
  brandings = [];
  units = [];
  policies = [];
  attendance_policies = [];
  permissions = "school.manage" ∷ "classes.read" ∷ [];
  skills = [];
  finished = none;
}

completed_test :
    (complete crypto some (λ s. s) no_faults 10 ids system_roles input db).0 ≡ ok "school-1"
unfolding complete fluenthub.Setup.Validate.validate fluenthub.Prelude.Text.trim_space
    fluenthub.Setup.Validate.valid_slug fluenthub.Setup.Validate.all_chars
    fluenthub.Prelude.Int.add64 fluenthub.Prelude.Int.wrap64 fluenthub.Prelude.Int.◌+ℤ◌
    fluenthub.Setup.Validate.valid_hex_color fluenthub.Auth.hash_password exists_where
    fluenthub.Setup.insert_school fluenthub.Setup.insert_roles fluenthub.Setup.insert_role
    fluenthub.Setup.insert_skills
completed_test = refl

administrator_test :
    exists_where (λ (role : String × String). role.0 == "administrator") system_roles ≡ true
unfolding exists_where
administrator_test = refl

listed_test : exists_where (λ (p : String). p == "school.manage") db.permissions ≡ true
unfolding exists_where
listed_test = refl

complete_once_example :
    let db' = (complete crypto some (λ s. s) no_faults 10 ids system_roles input db).1 in
    let (again, db'') = complete crypto some (λ s. s) no_faults 20 ids system_roles input db' in
    ((status no_faults db').0 ≡ ok true) × (is_ok again ≡ false) × (db'' ≡ db')
complete_once_example =
    complete_once crypto some (λ s. s) no_faults 10 ids system_roles input db no_faults 20 ids
      system_roles input "school-1" completed_test

complete-calculate_example :
    let db' = (complete crypto some (λ s. s) no_faults 10 ids system_roles input db).1 in
    (policy : PolicyRow) × (db'.policies ≡ insert policy db.policies)
    × (policy.school_id ≡ "school-1")
    × (is_ok (calculate (policy_of true true policy) (pos 905) (pos 700) (pos 8000) true) ≡ true)
complete-calculate_example =
    complete-calculate crypto some (λ s. s) no_faults 10 ids system_roles input db "school-1" true
      true (pos 905) (pos 700) (pos 8000) true completed_test

complete-administrator_example :
    let db' = (complete crypto some (λ s. s) no_faults 10 ids system_roles input db).1 in
    holds_permission "school.manage" "user-1" db'.accounts ≡ true
complete-administrator_example =
    complete-administrator crypto some (λ s. s) no_faults 10 ids system_roles input db "school-1"
      "school.manage" administrator_test listed_test completed_test
