-- ===== src/Setup/Administrator.antt =====
-- The administrator of a new school may do everything.
use fluenthub.Prelude.{
  ℕ, suc, ◌≡◌, refl, sym, ap, ◌∙◌, inl, inr, String, Bool, true, ◌&&◌, ◌||◌, Option, List, [], ◌∷◌,
  ◌++◌, ◌==◌, eq_refl, arith, exists_where, insert, Bool-cases,
}
use fluenthub.Prelude.Tables.{exists_where-insert_new, exists_where-insert_old, exists_where_mono}
use fluenthub.Prelude.Action.{Result-cases, ok, Faults}
use fluenthub.Auth.{Crypto}
use fluenthub.Users.Store.{Time, RoleRow, UserRole, RolePermission}
use fluenthub.Users.Store
use fluenthub.Users.Sessions.Access.{holds_permission, exists_where-append, exists_where-map}
use fluenthub.Setup.Validate.{Input}
use fluenthub.Setup.Store.{Db}
use fluenthub.Setup.{Ids, insert_role, insert_roles, insert_school, complete, granted, role_rows}
use fluenthub.Setup.Laws.{complete-cases, insert_school-ok}

-- More rows, more permissions.
holds_permission_mono :
    (code user_id : String) (a b : Store.Db)
    → ((p : UserRole → Bool)
        → exists_where p a.user_roles ≡ true
        → exists_where p b.user_roles ≡ true)
    → ((p : RoleRow → Bool) → exists_where p a.roles ≡ true → exists_where p b.roles ≡ true)
    → ((p : RolePermission → Bool)
        → exists_where p a.role_permissions ≡ true
        → exists_where p b.role_permissions ≡ true)
    → holds_permission code user_id a ≡ true
    → holds_permission code user_id b ≡ true
unfolding holds_permission
holds_permission_mono code user_id a b more_held more_roles more_permissions h =
    let has_code = λ (rows : List RolePermission) (role : RoleRow).
      exists_where (λ (p : RolePermission). p.role_id == role.id && p.code == code) rows in
    let has_role = λ (rows : List RolePermission) (roles : List RoleRow) (held : UserRole).
      exists_where (λ (role : RoleRow). role.id == held.role_id && has_code rows role) roles in
    more_held (λ held. held.user_id == user_id && has_role b.role_permissions b.roles held)
      (exists_where_mono
        (λ held. held.user_id == user_id && has_role a.role_permissions a.roles held)
        (λ held. held.user_id == user_id && has_role b.role_permissions b.roles held) a.user_roles
        (λ held holds.
          let inner =
            more_roles (λ role. role.id == held.role_id && has_code b.role_permissions role)
              (exists_where_mono
                (λ role. role.id == held.role_id && has_code a.role_permissions role)
                (λ role. role.id == held.role_id && has_code b.role_permissions role) a.roles
                (λ role grants.
                  let more =
                    more_permissions (λ p. p.role_id == role.id && p.code == code)
                      (ground (arith, grants)) in
                  ground (arith, grants, more))
                (ground (arith, holds))) in
          ground (arith, holds, inner))
        h)

exists_where-append_old :
    {A : Type 0} (p : A → Bool) (xs ys : List A)
    → exists_where p xs ≡ true
    → exists_where p (xs ++ ys) ≡ true
exists_where-append_old p xs ys h = exists_where-append p xs ys ∙ ap (λ b. b || exists_where p ys) h

-- The rows of a further role take nothing away.
insert_role-holds_permission :
    (faults : Faults) (ids : Ids) (i : ℕ) (role name : String) (db : Db) (code user_id : String)
    → holds_permission code user_id db.accounts ≡ true
    → holds_permission code user_id (insert_role faults ids i role name db).1.accounts ≡ true
unfolding insert_role
insert_role-holds_permission faults ids i role name db code user_id h =
    holds_permission_mono code user_id db.accounts
      (insert_role faults ids i role name db).1.accounts
      (λ p old. ground (
        arith,
        exists_where-insert_old p (record { user_id = ids.admin; role_id = ids.role role })
            db.accounts.user_roles old,
      ))
      (λ p old. ground (
        arith,
        exists_where-insert_old p
            (record { id = ids.role role; school_id = ids.school; name = name; code = role })
            db.accounts.roles old,
      ))
      (λ p old. ground (
        arith,
        exists_where-append_old p db.accounts.role_permissions
            (role_rows (ids.role role) (granted role db.permissions)) old,
      ))
      h

insert_roles-holds_permission :
    (faults : Faults) (ids : Ids) (i : ℕ) (roles : List (String × String)) (db : Db)
    (code user_id : String)
    → holds_permission code user_id db.accounts ≡ true
    → holds_permission code user_id (insert_roles faults ids i roles db).1.accounts ≡ true
unfolding insert_roles
insert_roles-holds_permission faults ids i [] db code user_id h = h
insert_roles-holds_permission faults ids i ((role, name) ∷ roles) db code user_id h =
    let first = insert_role-holds_permission faults ids i role name db code user_id h in
    let rest =
      insert_roles-holds_permission faults ids (suc i) roles
        (insert_role faults ids i role name db).1 code user_id first in
    ground (arith, first, rest)

-- The role of the administrators gets every permission, and the administrator that role.
insert_role-administrator :
    (faults : Faults) (ids : Ids) (i : ℕ) (role name : String) (db : Db) (code : String)
    → role == "administrator" ≡ true
    → exists_where (λ (p : String). p == code) db.permissions ≡ true
    → (insert_role faults ids i role name db).0 ≡ ok tt
    → holds_permission code ids.admin (insert_role faults ids i role name db).1.accounts ≡ true
unfolding insert_role holds_permission granted
insert_role-administrator faults ids i role name db code is_admin listed done =
    let rid = ids.role role in
    let new_role : RoleRow = record {
      id = rid;
      school_id = ids.school;
      name = name;
      code = role;
    } in
    let held : UserRole = record { user_id = ids.admin; role_id = rid } in
    let rows = db.accounts.role_permissions ++ role_rows rid db.permissions in
    let roles = insert new_role db.accounts.roles in
    let held_rows = insert held db.accounts.user_roles in
    let final : Store.Db = record db.accounts {
      roles = roles;
      role_permissions = rows;
      user_roles = held_rows;
    } in
    let reached : (insert_role faults ids i role name db).1.accounts ≡ final = ground arith in
    let of_role = λ (p : RolePermission). p.role_id == rid && p.code == code in
    let in_rows : exists_where of_role (role_rows rid db.permissions) ≡ true =
      exists_where-map of_role (λ (c : String). record { role_id = rid; code = c }) db.permissions
      ∙ (rw (eq_refl rid) listed) in
    let permitted : exists_where of_role rows ≡ true =
      exists_where-append of_role db.accounts.role_permissions (role_rows rid db.permissions)
      ∙ ground (arith, in_rows) in
    let in_role = λ (r : RoleRow).
      exists_where (λ (p : RolePermission). p.role_id == r.id && p.code == code) rows in
    let role_there =
      exists_where-insert_new (λ (r : RoleRow). r.id == rid && in_role r) new_role db.accounts.roles
        (ground (arith, eq_refl rid, permitted)) in
    let all_there =
      exists_where-insert_new
        (λ (h : UserRole).
          h.user_id == ids.admin
          && exists_where (λ (r : RoleRow). r.id == h.role_id && in_role r) roles)
        held db.accounts.user_roles (ground (arith, eq_refl ids.admin, role_there)) in
    ap (holds_permission code ids.admin) reached ∙ all_there

insert_role-permissions :
    (faults : Faults) (ids : Ids) (i : ℕ) (role name : String) (db : Db)
    → (insert_role faults ids i role name db).1.permissions ≡ db.permissions
unfolding insert_role
insert_role-permissions faults ids i role name db = ground arith

holds_permission_same :
    (code user_id : String) (a b : Store.Db)
    → b.user_roles ≡ a.user_roles
    → b.roles ≡ a.roles
    → b.role_permissions ≡ a.role_permissions
    → holds_permission code user_id b ≡ holds_permission code user_id a
unfolding holds_permission
holds_permission_same code user_id a b held roles permissions = rw (held, roles, permissions) refl

insert_roles-administrator :
    (faults : Faults) (ids : Ids) (i : ℕ) (roles : List (String × String)) (db : Db) (code : String)
    → exists_where (λ (role : String × String). role.0 == "administrator") roles ≡ true
    → exists_where (λ (p : String). p == code) db.permissions ≡ true
    → (insert_roles faults ids i roles db).0 ≡ ok tt
    → holds_permission code ids.admin (insert_roles faults ids i roles db).1.accounts ≡ true
unfolding insert_roles exists_where
insert_roles-administrator faults ids i [] db code there listed done = cc
insert_roles-administrator faults ids i ((role, name) ∷ roles) db code there listed done =
    let first = insert_role faults ids i role name db in
    let keeps = insert_role-permissions faults ids i role name db in
    elim (Result-cases first.0) [
      | inr (e, failed) ↦ ground (arith, failed)
      | inl (u, worked) ↦
          let after = insert_roles faults ids (suc i) roles first.1 in
          let reached : insert_roles faults ids i ((role, name) ∷ roles) db ≡ after =
            ground (arith, worked) in
          let later : holds_permission code ids.admin after.1.accounts ≡ true =
            elim (Bool-cases (role == "administrator")) [
              | inl is_admin ↦
                  insert_roles-holds_permission faults ids (suc i) roles first.1 code ids.admin (
                    insert_role-administrator faults ids i role name db code is_admin listed worked)
              | inr other ↦
                  insert_roles-administrator faults ids (suc i) roles first.1 code (ground arith)
                    (ap (exists_where (λ (p : String). p == code)) keeps ∙ listed)
                    (ap (λ q. q.0) (sym reached) ∙ done)
            ] in
          ap (λ q. holds_permission code ids.admin q.1.accounts) reached ∙ later
    ]

-- After a set-up that goes over the role of administrators, in whatever order of the map, its administrator holds
-- every permission that the database has.
pub complete-administrator :
    (crypto : Crypto) (parse_address : String → Option String) (to_lower : String → String)
    (faults : Faults) (now : Time) (ids : Ids) (roles : List (String × String)) (input : Input)
    (db : Db) (id code : String)
    → exists_where (λ (role : String × String). role.0 == "administrator") roles ≡ true
    → exists_where (λ (p : String). p == code) db.permissions ≡ true
    → let (r, db') = complete crypto parse_address to_lower faults now ids roles input db in
      r ≡ ok id → holds_permission code ids.admin db'.accounts ≡ true
complete-administrator crypto parse_address to_lower faults now ids roles input db id code there
      listed done =
    elim (complete-cases crypto parse_address to_lower faults now ids roles input db) [
      | inr (failed, same) ↦ ground (arith, failed)
      | inl
            (
              hash,
              school_address,
              admin_address,
              r,
              valid,
              hashed,
              of_admin,
              fresh,
              (
                wrote, gave, schools, policies, users, sessions, roles_of, user_roles,
                role_permissions,
              ),
            ) ↦
          let written =
            insert_school to_lower faults ids input school_address admin_address hash db in
          let kept =
            insert_school-ok crypto parse_address to_lower faults now ids roles input db
              school_address admin_address hash wrote in
          let holds =
            insert_roles-administrator faults ids 0 roles written.1 code there
              (ap (exists_where (λ (p : String). p == code)) kept.2 ∙ listed) gave in
          holds_permission_same code ids.admin
            (insert_roles faults ids 0 roles written.1).1.accounts
            (complete crypto parse_address to_lower faults now ids roles input db).1.accounts
            user_roles roles_of role_permissions
          ∙ holds
    ]
