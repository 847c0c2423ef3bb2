-- ===== src/Setup/Laws.antt =====
-- What a set-up does, step by step.
use fluenthub.Prelude.{
  ℕ, suc, ◌≡◌, refl, ap, ◌∙◌, ◌⊎◌, inl, inr, String, true, false, Option, none, some, List, [], ◌∷◌,
  arith, exists_where, insert, is_some,
}
use fluenthub.Prelude.Int.{pos, add64, eqb_ℤ}
use fluenthub.Prelude.Tables.{exists_where-insert_new}
use fluenthub.Prelude.Action.{Result-cases, ok, is_ok, Faults}
use fluenthub.Auth.{Crypto, hash_password}
use fluenthub.Users.Store.{Time}
use fluenthub.Setup.Validate.{Input, validate}
use fluenthub.Setup.Store.{Db, SchoolRow}
use fluenthub.Setup.{
  Ids, insert_role, insert_roles, insert_skills, insert_school, complete, policy_row,
  administrator_row, language_skills,
}

-- What the rows of roles and skills leave as it was.
abbrev Keeps : Db → Db → Type 0
Keeps db db' =
    (db'.schools ≡ db.schools) × (db'.policies ≡ db.policies) × (db'.permissions ≡ db.permissions)

insert_role-Keeps :
    (faults : Faults) (ids : Ids) (i : ℕ) (code name : String) (db : Db)
    → Keeps db (insert_role faults ids i code name db).1
unfolding insert_role
insert_role-Keeps faults ids i code name db = ground arith

pub insert_roles-Keeps :
    (faults : Faults) (ids : Ids) (i : ℕ) (roles : List (String × String)) (db : Db)
    → Keeps db (insert_roles faults ids i roles db).1
unfolding insert_roles
insert_roles-Keeps faults ids i [] db = (refl, refl, refl)
insert_roles-Keeps faults ids i ((code, name) ∷ roles) db =
    let first = insert_role-Keeps faults ids i code name db in
    let rest =
      insert_roles-Keeps faults ids (suc i) roles (insert_role faults ids i code name db).1 in
    ground (arith, first, rest)

insert_skills-Keeps :
    (faults : Faults) (school_id : String) (i : ℕ) (skills : List (String × String)) (db : Db)
    → let db' = (insert_skills faults school_id i skills db).1 in
      (Keeps db db') × (db'.accounts ≡ db.accounts)
unfolding insert_skills
insert_skills-Keeps faults school_id i [] db = ((refl, refl, refl), refl)
insert_skills-Keeps faults school_id i ((code, name) ∷ skills) db =
    let next : Db = record db {
      skills = insert (record { school_id = school_id; code = code; name = name }) db.skills;
    } in
    let rest = insert_skills-Keeps faults school_id (suc i) skills next in ground (arith, rest)

pub validate-ok :
    (parse_address : String → Option String) (input : Input)
    → validate parse_address input ≡ ok tt
    → (is_some (parse_address input.email) ≡ true)
      × (is_some (parse_address input.administrator_email) ≡ true)
      × (eqb_ℤ (add64 input.exercise_weight input.exam_weight) (pos 10000) ≡ true)
unfolding validate
validate-ok parse_address input h = (ground arith, ground arith, ground arith)

some_of : (o : Option String) → is_some o ≡ true → (a : String) × (o ≡ some a)
some_of none h = cc
some_of (some a) h = (a, refl)

module _ (crypto : Crypto) (parse_address : String → Option String) (to_lower : String → String)
    (faults : Faults) (now : Time) (ids : Ids) (roles : List (String × String)) (input : Input)
    (db : Db) where
  abbrev school_row : String → SchoolRow
  school_row school_address = record {
    id = ids.school;
    legal_name = input.legal_name;
    display_name = input.display_name;
    slug = to_lower input.slug;
    email = to_lower school_address;
    phone = input.phone;
    website = input.website;
    timezone = input.timezone;
    locale = input.locale;
  }

  -- What the last two statements write.
  abbrev completed : Db → Db
  completed db' = record db' {
    finished = some now;
    accounts = record db'.accounts {
      audits =
          insert
            (record {
              school_id = ids.school;
              user_id = ids.admin;
              action = "setup.completed";
              resource_id = ids.school;
              role = none;
            })
            db'.accounts.audits;
    };
  }

  -- A set-up either finds no school and valid input, and leaves what its steps have written, or it changes nothing.
  pub complete-cases :
      let (r, db') = complete crypto parse_address to_lower faults now ids roles input db in
      ((hash : String) × (school_address admin_address : String) × (r ≡ ok ids.school)
        × (validate parse_address input ≡ ok tt)
        × (hash_password crypto input.administrator_password ≡ ok hash)
        × (parse_address input.administrator_email ≡ some admin_address)
        × (exists_where (λ (school : SchoolRow). true) db.schools ≡ false)
        × (let written =
              insert_school to_lower faults ids input school_address admin_address hash db in
            let given = insert_roles faults ids 0 roles written.1 in
            (written.0 ≡ ok tt)
            × (given.0 ≡ ok tt)
            × (db'.schools ≡ written.1.schools)
            × (db'.policies ≡ written.1.policies)
            × (db'.accounts.users ≡ given.1.accounts.users)
            × (db'.accounts.sessions ≡ given.1.accounts.sessions)
            × (db'.accounts.roles ≡ given.1.accounts.roles)
            × (db'.accounts.user_roles ≡ given.1.accounts.user_roles)
            × (db'.accounts.role_permissions ≡ given.1.accounts.role_permissions)))
      ⊎ ((is_ok r ≡ false) × (db' ≡ db))
  unfolding complete
  complete-cases = elim (Result-cases (validate parse_address input)) [
    | inr (e, invalid) ↦ inr (ground arith)
    | inl (u, valid) ↦ elim (Result-cases (hash_password crypto input.administrator_password)) [
      | inr (e, weak) ↦ inr (ground arith)
      | inl (hash, hashed) ↦
          let (has_school, has_admin, summed) = validate-ok parse_address input valid in
          let (school_address, of_school) = some_of (parse_address input.email) has_school in
          let (admin_address, of_admin) =
            some_of (parse_address input.administrator_email) has_admin in
          let run = complete crypto parse_address to_lower faults now ids roles input db in
          elim (Result-cases run.0) [
            | inr (e, failed) ↦ inr (ground arith)
            | inl (id, done) ↦
                let written =
                  insert_school to_lower faults ids input school_address admin_address hash db in
                let given = insert_roles faults ids 0 roles written.1 in
                let skilled = insert_skills faults ids.school 0 language_skills given.1 in
                let role_keeps = insert_roles-Keeps faults ids 0 roles written.1 in
                let skill_keeps = insert_skills-Keeps faults ids.school 0 language_skills given.1 in
                let fresh : exists_where (λ (school : SchoolRow). true) db.schools ≡ false =
                  ground arith in
                elim (Result-cases written.0) [
                  | inr (e, failed) ↦ inr (ground (arith, of_school, of_admin, failed))
                  | inl (v, wrote) ↦ elim (Result-cases given.0) [
                    | inr (e, failed) ↦ inr (ground (arith, of_school, of_admin, wrote, failed))
                    | inl (w, gave) ↦ elim (Result-cases skilled.0) [
                      | inr (e, failed) ↦
                          inr (ground (arith, of_school, of_admin, wrote, gave, failed))
                      | inl (x, skills) ↦
                          let reached : run ≡ (ok ids.school, completed skilled.1) =
                            ground (arith, of_school, of_admin, wrote, gave, skills) in
                          let accounts = skill_keeps.1 in
                          inl (
                            hash,
                            school_address,
                            admin_address,
                            ap (λ q. q.0) reached,
                            valid,
                            hashed,
                            of_admin,
                            fresh,
                            (
                              wrote,
                              gave,
                              ap (λ q. q.1.schools) reached ∙ skill_keeps.0.0 ∙ role_keeps.0,
                              ap (λ q. q.1.policies) reached ∙ skill_keeps.0.1 ∙ role_keeps.1,
                              ap (λ q. q.1.accounts.users) reached ∙ ap (λ a. a.users) accounts,
                              ap (λ q. q.1.accounts.sessions) reached
                                  ∙ ap (λ a. a.sessions) accounts,
                              ap (λ q. q.1.accounts.roles) reached ∙ ap (λ a. a.roles) accounts,
                              ap (λ q. q.1.accounts.user_roles) reached
                                  ∙ ap (λ a. a.user_roles) accounts,
                              ap (λ q. q.1.accounts.role_permissions) reached
                                  ∙ ap (λ a. a.role_permissions) accounts,
                            ),
                          )
                    ]
                  ]
                ]
          ]
    ]
  ]

  -- The school and the policy that a set-up inserts.
  pub insert_school-ok :
      (school_address admin_address hash : String)
      → (insert_school to_lower faults ids input school_address admin_address hash db).0 ≡ ok tt
      → let db' =
          (insert_school to_lower faults ids input school_address admin_address hash db).1 in
        (exists_where (λ (school : SchoolRow). true) db'.schools ≡ true)
        × (db'.policies ≡ insert (policy_row to_lower faults ids input) db.policies)
        × (db'.permissions ≡ db.permissions)
        × (db'.accounts.users
            ≡ insert
                (administrator_row to_lower faults ids input admin_address hash)
                db.accounts.users)
  unfolding insert_school
  insert_school-ok school_address admin_address hash done = (
    ground (
      arith,
      exists_where-insert_new (λ (school : SchoolRow). true) (school_row school_address) db.schools
          refl,
    ),
    ground arith,
    ground arith,
    ground arith,
  )

  -- With a school there, a set-up fails.
  pub complete_refused :
      exists_where (λ (school : SchoolRow). true) db.schools ≡ true
      → let (r, db') = complete crypto parse_address to_lower faults now ids roles input db in
        (is_ok r ≡ false) × (db' ≡ db)
  complete_refused there = elim complete-cases [
    | inr refused ↦ refused
    | inl (hash, school_address, admin_address, r, valid, hashed, of_admin, fresh, written) ↦
        ground (arith, there, fresh)
  ]
