-- ===== src/Users/Sessions/Access.antt =====
-- What withAccess finds: the permissions of the roles of a user, and nothing else.
use fluenthub.Prelude.{
  String, ◌≡◌, refl, ◌∙◌, ap, Bool, true, false, ◌&&◌, ◌||◌, not, Option, none, some, List, [], ◌∷◌,
  ◌++◌, map, ◌==◌, eq_iff, arith, Bool-cases, inl, inr, select_where, exists_where, insert,
  if◌then◌else◌,
}
use fluenthub.Users.Store.{RoleRow, UserRole, RolePermission, Db}
use fluenthub.Users.Sessions.{
  SessionUser, access_rows, role_rows, concat_rows, collect, with_access, mark, mark_some, is_new,
  insert_some,
}

module _ {ℓ} {A : Type ℓ} where
  pub exists_where-append :
      (p : A → Bool) (xs ys : List A)
      → exists_where p (xs ++ ys) ≡ (exists_where p xs || exists_where p ys)
  unfolding exists_where
  exists_where-append p [] ys = refl
  exists_where-append p (x ∷ xs) ys = ground (arith, exists_where-append p xs ys)

  exists_where-select :
      (p q : A → Bool) (xs : List A)
      → exists_where p (select_where q xs) ≡ exists_where (λ x. q x && p x) xs
  unfolding exists_where select_where
  exists_where-select p q [] = refl
  exists_where-select p q (x ∷ xs) = ground (arith, exists_where-select p q xs)

  pub exists_where-map {κ} :
      {B : Type κ} (p : B → Bool) (f : A → B) (xs : List A)
      → exists_where p (map f xs) ≡ exists_where (λ x. p (f x)) xs
  unfolding exists_where
  exists_where-map p f [] = refl
  exists_where-map p f (x ∷ xs) = ground (arith, exists_where-map p f xs)

  exists_where_ext :
      (p q : A → Bool) (xs : List A) → ((x : A) → p x ≡ q x) → exists_where p xs ≡ exists_where q xs
  unfolding exists_where
  exists_where_ext p q [] h = refl
  exists_where_ext p q (x ∷ xs) h = ground (arith, h x, exists_where_ext p q xs h)

-- A role of the user has a permission of this code.
unfoldable pub holds_permission : String → String → Db → Bool
holds_permission code user_id db =
    exists_where
      (λ (held : UserRole).
        held.user_id == user_id
        && exists_where
            (λ (role : RoleRow).
              role.id == held.role_id
              && exists_where (λ (p : RolePermission). p.role_id == role.id && p.code == code)
                  db.role_permissions)
            db.roles)
      db.user_roles

abbrev grants : String → String × Option String → Bool
grants code (role, none) = false
grants code (role, some permission) = permission == code

-- The loop adds the permissions of the rows that it has not seen.
collect-permissions :
    (code : String) (rows : List (String × Option String)) (seen_role seen : String → Bool)
    (user : SessionUser)
    → exists_where (λ y. y == code) (collect rows seen_role seen user).permissions ≡ (
        exists_where (λ y. y == code) user.permissions
        || (not (seen code) && exists_where (grants code) rows))
unfolding collect exists_where insert
collect-permissions code [] seen_role seen user = ground arith
collect-permissions code ((role, none) ∷ rows) seen_role seen user =
    collect-permissions code rows (mark role seen_role) seen
      (record user { roles = if seen_role role then user.roles else insert role user.roles })
collect-permissions code ((role, some permission) ∷ rows) seen_role seen user =
    let user' : SessionUser = record user {
      roles = if seen_role role then user.roles else insert role user.roles;
      permissions =
          if not (seen permission) then insert permission user.permissions else user.permissions;
    } in
    let step = collect-permissions code rows (mark role seen_role) (mark permission seen) user' in
    let append =
      exists_where-append (λ (y : String). y == code) user.permissions (permission ∷ []) in
    elim (Bool-cases (permission == code)) [
      | inl same ↦
          let known : seen permission ≡ seen code = ap seen ((eq_iff permission code).0 same) in
          ground (arith, step, append)
      | inr other ↦ ground (arith, step, append)
    ]

exists_where-concat {ℓ κ} :
    {A : Type ℓ} {B : Type κ} (p : B → Bool) (f : A → List B) (xs : List A)
    → exists_where p (concat_rows f xs) ≡ exists_where (λ x. exists_where p (f x)) xs
unfolding concat_rows exists_where
exists_where-concat p f [] = refl
exists_where-concat p f (x ∷ xs) =
    ground (arith, exists_where-append p (f x) (concat_rows f xs), exists_where-concat p f xs)

role_rows-grants :
    (code : String) (db : Db) (role : RoleRow)
    → exists_where (grants code) (role_rows db role)
      ≡ exists_where
          (λ (p : RolePermission). p.role_id == role.id && p.code == code)
          db.role_permissions
unfolding role_rows exists_where
role_rows-grants code db role =
    let q = λ (p : RolePermission). p.role_id == role.id in
    let code_is = λ (p : RolePermission). p.code == code in
    by_rows (select_where q db.role_permissions) ∙ exists_where-select code_is q db.role_permissions
  where
    by_rows :
        (rows : List RolePermission)
        → exists_where (grants code) (elim rows [
          | [] ↦ (role.code, none) ∷ []
          | row ∷ rest ↦ map (λ (p : RolePermission). (role.code, some p.code)) (row ∷ rest)
        ])
          ≡ exists_where (λ (p : RolePermission). p.code == code) rows
    by_rows [] = refl
    by_rows (row ∷ rest) =
        exists_where-map (grants code) (λ (p : RolePermission). (role.code, some p.code))
          (row ∷ rest)

access_rows-grants :
    (code user_id : String) (db : Db)
    → exists_where (grants code) (access_rows user_id db) ≡ holds_permission code user_id db
unfolding access_rows holds_permission
access_rows-grants code user_id db =
    let held_by = λ (held : UserRole). held.user_id == user_id in
    let role_of = λ (held : UserRole) (role : RoleRow). role.id == held.role_id in
    let rows_of =
      λ (held : UserRole). concat_rows (role_rows db) (select_where (role_of held) db.roles) in
    let granted = λ (role : RoleRow).
      exists_where (λ (p : RolePermission). p.role_id == role.id && p.code == code)
        db.role_permissions in
    let each : (held : UserRole)
        → exists_where (grants code) (rows_of held)
          ≡ exists_where (λ (role : RoleRow). role_of held role && granted role) db.roles =
      λ held.
        exists_where-concat (grants code) (role_rows db) (select_where (role_of held) db.roles)
        ∙ exists_where-select (λ role. exists_where (grants code) (role_rows db role))
            (role_of held) db.roles
        ∙ exists_where_ext
            (λ role. role_of held role && exists_where (grants code) (role_rows db role))
            (λ role. role_of held role && granted role) db.roles
            (λ role. ap (λ b. role_of held role && b) (role_rows-grants code db role)) in
    exists_where-concat (grants code) rows_of (select_where held_by db.user_roles)
    ∙ exists_where-select (λ held. exists_where (grants code) (rows_of held)) held_by db.user_roles
    ∙ exists_where_ext (λ held. held_by held && exists_where (grants code) (rows_of held))
        (λ held. held_by held && exists_where (λ role. role_of held role && granted role) db.roles)
        db.user_roles (λ held. ap (λ b. held_by held && b) (each held))

-- Without a fault, the permissions of a user are those of the roles that the user has.
pub with_access-permissions :
    (code : String) (user : SessionUser) (db : Db)
    → user.permissions ≡ []
    → exists_where (λ (y : String). y == code) (with_access false user db).permissions
      ≡ holds_permission code user.id db
unfolding with_access exists_where
with_access-permissions code user db fresh =
    let rows = access_rows user.id db in
    collect-permissions code rows (λ role. false) (λ permission. false) user
    ∙ ap (λ ps. exists_where (λ (y : String). y == code) ps || exists_where (grants code) rows)
        fresh
    ∙ access_rows-grants code user.id db

collect_keeps :
    (rows : List (String × Option String)) (seen_role seen : String → Bool) (user : SessionUser)
    → let known = collect rows seen_role seen user in
      (known.id ≡ user.id) × (known.school_id ≡ user.school_id) × (known.email ≡ user.email)
unfolding collect
collect_keeps [] seen_role seen user = (refl, refl, refl)
collect_keeps ((role, permission) ∷ rows) seen_role seen user =
    collect_keeps rows (mark role seen_role) (mark_some permission seen) (record user {
      roles = if seen_role role then user.roles else insert role user.roles;
      permissions =
          if is_new permission seen
          then insert_some permission user.permissions
          else user.permissions;
    })

-- The user itself stays.
pub with_access_keeps :
    (fault : Bool) (user : SessionUser) (db : Db)
    → let known = with_access fault user db in
      (known.id ≡ user.id) × (known.school_id ≡ user.school_id) × (known.email ≡ user.email)
unfolding with_access
with_access_keeps true user db = (refl, refl, refl)
with_access_keeps false user db =
    collect_keeps (access_rows user.id db) (λ role. false) (λ permission. false) user
