-- ===== src/Setup.antt =====
-- backend/internal/setup/service.go: the first set-up of a school, over the tables of the users.
pub mod Store
pub mod Validate
pub mod Laws
pub mod Once
pub mod Administrator
pub mod Catalog
mod Tests
use fluenthub.Prelude.{
  ℕ, suc, ◌+◌, ◌*◌, String, Bool, true, false, not, Option, none, some, List, [], ◌∷◌, ◌++◌, map,
  ◌==◌, if◌then◌else◌, exists_where, select_where, insert,
}
use fluenthub.Prelude.Int.{ℤ}
use fluenthub.Prelude.Action.{
  Result, ok, err, reason, Faults, Action, lift, fail_if, query, exec, when, transaction, pure,
  ◌>>=◌, ◌>>◌,
}
use fluenthub.Auth.{Crypto, hash_password}
use fluenthub.Users.Store.{Time, UserRow, RoleRow, UserRole, RolePermission, AuditEvent}
use fluenthub.Setup.Store.{
  Db, SchoolRow, BrandingRow, UnitRow, PolicyRow, AttendancePolicyRow, SkillRow,
}
use fluenthub.Setup.Validate.{Input, validate}

unfoldable pub status : Faults → Action Db Bool
status faults = query (faults 0) (λ db. exists_where (λ (school : SchoolRow). true) db.schools)

unfoldable pub default_permissions : String → List String
default_permissions role =
    if role == "teacher"
    then "classes.read" ∷ "lessons.read" ∷ "lessons.manage" ∷ "exercises.read" ∷ "exercises.manage"
      ∷ "exercises.grade" ∷ "exams.read" ∷ "exams.manage" ∷ "exams.grade" ∷ "attendance.read"
      ∷ "attendance.manage" ∷ "academic.read" ∷ "notifications.read" ∷ "support.open" ∷ []
    else if role == "operator"
    then "users.read" ∷ "students.manage" ∷ "classes.read" ∷ "billing.read" ∷ "billing.manage"
      ∷ "notifications.read" ∷ "notifications.send" ∷ "support.open" ∷ "support.handle" ∷ []
    else "classes.read" ∷ "lessons.read" ∷ "exercises.read" ∷ "exams.read" ∷ "attendance.read"
      ∷ "academic.read" ∷ "billing.read" ∷ "notifications.read" ∷ "support.open"
      ∷ "certificates.read" ∷ []

-- The permissions that the role of a code gets.
unfoldable pub granted : String → List String → List String
granted code permissions =
    if code == "administrator"
    then permissions
    else select_where
        (λ (p : String). exists_where (λ (q : String). q == p) (default_permissions code))
        permissions

-- The identifiers that are generated; `role` by the code of the role.
pub record Ids : Type 0 where
  pub school : String
  pub admin : String
  pub unit : String
  pub role : String → String

-- INSERT INTO role_permissions … SELECT
abbrev pub role_rows : String → List String → List RolePermission
role_rows role_id codes = map (λ (code : String). record { role_id = role_id; code = code }) codes

-- The statements for the i-th role of the map.
unfoldable pub insert_role : Faults → Ids → ℕ → String → String → Action Db (Unit {0})
insert_role faults ids i code name = do
  exec (faults (9 + 3 * i)) (λ db. record db {
    accounts = record db.accounts {
      roles =
          insert (record { id = ids.role code; school_id = ids.school; name = name; code = code })
            db.accounts.roles;
    };
  })
  exec (faults (10 + 3 * i)) (λ db. record db {
    accounts = record db.accounts {
      role_permissions =
          db.accounts.role_permissions ++ role_rows (ids.role code) (granted code db.permissions);
    };
  })
  when (code == "administrator") (
      exec (faults (11 + 3 * i)) (λ db. record db {
        accounts = record db.accounts {
          user_roles =
              insert (record { user_id = ids.admin; role_id = ids.role code })
                db.accounts.user_roles;
        };
      }))

unfoldable pub insert_roles : Faults → Ids → ℕ → List (String × String) → Action Db (Unit {0})
insert_roles faults ids i [] = pure tt
insert_roles faults ids i ((code, name) ∷ roles) =
    insert_role faults ids i code name >> insert_roles faults ids (suc i) roles

unfoldable pub insert_skills : Faults → String → ℕ → List (String × String) → Action Db (Unit {0})
insert_skills faults school_id i [] = pure tt
insert_skills faults school_id i ((code, name) ∷ skills) =
    exec (faults (21 + i)) (λ db. record db {
      skills = insert (record { school_id = school_id; code = code; name = name }) db.skills;
    })
    >> insert_skills faults school_id (suc i) skills

-- The codes of the skills with their first letter in upper case.
abbrev pub language_skills : List (String × String)
language_skills =
    ("reading", "Reading")
    ∷ ("writing", "Writing")
    ∷ ("listening", "Listening")
    ∷ ("speaking", "Speaking")
    ∷ ("grammar", "Grammar")
    ∷ ("vocabulary", "Vocabulary")
    ∷ []

-- The map of the roles, in one of the orders of its iteration.
abbrev pub system_roles : List (String × String)
system_roles =
    ("administrator", "Administrator")
    ∷ ("teacher", "Teacher")
    ∷ ("operator", "Operator")
    ∷ ("student", "Student")
    ∷ []

abbrev address_of : Option String → String
address_of none = ""
address_of (some address) = address

-- The rows before the roles. `to_lower` is strings.ToLower.
module _ (to_lower : String → String) (faults : Faults) (ids : Ids) (input : Input) where
  abbrev pub administrator_row : String → String → UserRow
  administrator_row address hash = record {
    id = ids.admin;
    school_id = ids.school;
    name = input.administrator_name;
    email = to_lower address;
    password_hash = hash;
    phone = none;
    active = true;
    last_login_at = none;
    disabled_at = none;
  }

  abbrev pub policy_row : PolicyRow
  policy_row = record {
    school_id = ids.school;
    minimum_passing_score = input.minimum_passing_score;
    exercise_weight = input.exercise_weight;
    exam_weight = input.exam_weight;
    minimum_attendance = input.minimum_attendance;
    updated_by = ids.admin;
  }

  unfoldable pub insert_school : String → String → String → Action Db (Unit {0})
  insert_school school_address admin_address hash = do
    exec (faults 3) (λ db. record db {
      schools =
          insert
            (record {
              id = ids.school;
              legal_name = input.legal_name;
              display_name = input.display_name;
              slug = to_lower input.slug;
              email = to_lower school_address;
              phone = input.phone;
              website = input.website;
              timezone = input.timezone;
              locale = input.locale;
            })
            db.schools;
    })
    exec (faults 4) (λ db. record db {
      accounts = record db.accounts {
        users = insert (administrator_row admin_address hash) db.accounts.users;
      };
    })
    exec (faults 5) (λ db. record db {
      brandings =
          insert
            (record {
              school_id = ids.school;
              system_title = input.system_title;
              school_display_name = input.display_name;
              primary_color = input.primary_color;
              secondary_color = input.secondary_color;
              accent_color = input.accent_color;
              welcome_text = input.welcome_text;
              updated_by = ids.admin;
            })
            db.brandings;
    })
    exec (faults 6) (λ db. record db {
      units =
          insert
            (record {
              id = ids.unit;
              school_id = ids.school;
              name = input.unit_name;
              code = input.unit_code;
              timezone = input.timezone;
            })
            db.units;
    })
    exec (faults 7) (λ db. record db { policies = insert policy_row db.policies })
    exec (faults 8) (λ db. record db {
      attendance_policies =
          insert
            (record {
              school_id = ids.school;
              minimum_live_attendance = input.minimum_attendance;
              updated_by = ids.admin;
            })
            db.attendance_policies;
    })

-- `roles` is the map of the roles in the order of its iteration.
unfoldable pub complete :
    Crypto
    → (String → Option String)
    → (String → String)
    → Faults
    → Time
    → Ids
    → List (String × String)
    → Input
    → Action Db String
complete crypto parse_address to_lower faults now ids roles input = do
  lift (validate parse_address input)
  hash ← lift (hash_password crypto input.administrator_password)
  transaction (faults 0) (faults 29) do
    exec (faults 1) (λ db. db)
    configured ← query (faults 2) (λ db. exists_where (λ (school : SchoolRow). true) db.schools)
    fail_if configured (reason "initial setup has already been completed")
    insert_school to_lower faults ids input (address_of (parse_address input.email))
        (address_of (parse_address input.administrator_email)) hash
    insert_roles faults ids 0 roles
    insert_skills faults ids.school 0 language_skills
    exec (faults 27) (λ db. record db { finished = some now })
    exec (faults 28) (λ db. record db {
      accounts = record db.accounts {
        audits =
            insert
              (record {
                school_id = ids.school;
                user_id = ids.admin;
                action = "setup.completed";
                resource_id = ids.school;
                role = none;
              })
              db.accounts.audits;
      };
    })
    pure ids.school
