-- ===== src/Users/Sessions.antt =====
-- Authenticate, ByToken, Revoke, ChangePassword and withAccess of backend/internal/users/store.go.
pub mod Access
pub mod Laws
pub mod SignIn
pub mod Password
use fluenthub.Prelude.{
  ℕ, ◌+◌, ◌*◌, String, Bool, true, false, ◌&&◌, ◌||◌, not, Option, none, some, List, [], ◌∷◌, ◌++◌,
  ◌==◌, ltb, map, if◌then◌else◌, is_some, select_where, find_where, exists_where, update_where,
  insert,
}
use fluenthub.Prelude.Action.{
  Result, ok, err, reason, Faults, Action, gets, lift, or_fail, require, query_row, exec, attempt,
  transaction, pure, ◌>>=◌, ◌>>◌,
}
use fluenthub.Auth.{Crypto, Token, check_password, hash_password, digest, new_token}
use fluenthub.Users.Store.{
  Time, UserRow, SessionRow, RoleRow, UserRole, RolePermission, Db, find_user,
}

pub record SessionUser : Type 0 where
  pub id : String
  pub school_id : String
  pub name : String
  pub email : String
  pub roles : List String
  pub permissions : List String

-- The rows of a role, and of it with each of its permissions: LEFT JOIN, so at least one row.
unfoldable pub role_rows : Db → RoleRow → List (String × Option String)
role_rows db role =
    let rows = select_where (λ (p : RolePermission). p.role_id == role.id) db.role_permissions in
    elim rows [
      | [] ↦ (role.code, none) ∷ []
      | row ∷ rest ↦ map (λ (p : RolePermission). (role.code, some p.code)) (row ∷ rest)
    ]

unfoldable pub concat_rows {ℓ κ} : {A : Type ℓ} {B : Type κ} → (A → List B) → List A → List B
concat_rows f [] = []
concat_rows f (x ∷ xs) = f x ++ concat_rows f xs

-- The rows of the query of withAccess for a user. DISTINCT drops repetitions, which the loop skips anyway.
unfoldable pub access_rows : String → Db → List (String × Option String)
unfolding role_rows concat_rows
access_rows user_id db =
    concat_rows
      (λ (held : UserRole).
        concat_rows (role_rows db)
          (select_where (λ (role : RoleRow). role.id == held.role_id) db.roles))
      (select_where (λ (held : UserRole). held.user_id == user_id) db.user_roles)

abbrev pub mark : String → (String → Bool) → String → Bool
mark key seen k = key == k || seen k

abbrev pub is_new : Option String → (String → Bool) → Bool
is_new none seen = false
is_new (some key) seen = not (seen key)

abbrev pub mark_some : Option String → (String → Bool) → String → Bool
mark_some none seen = seen
mark_some (some key) seen = mark key seen

abbrev pub insert_some : Option String → List String → List String
insert_some none xs = xs
insert_some (some x) xs = insert x xs

-- The loop over the rows, with the maps of the roles and permissions that it has seen.
unfoldable pub collect :
    List (String × Option String) → (String → Bool) → (String → Bool) → SessionUser → SessionUser
collect [] seen_role seen_perm user = user
collect ((role, permission) ∷ rows) seen_role seen_perm user =
    collect rows (mark role seen_role) (mark_some permission seen_perm) (record user {
      roles = if seen_role role then user.roles else insert role user.roles;
      permissions =
          if is_new permission seen_perm
          then insert_some permission user.permissions
          else user.permissions;
    })

-- The query fails as a whole or gives all its rows: a connection that breaks while the rows are read, after
-- which the user has the access of the rows read so far, is left out.
unfoldable pub with_access : Bool → SessionUser → Db → SessionUser
with_access fault user db =
    if fault
    then user
    else collect (access_rows user.id db) (λ role. false) (λ permission. false) user

abbrev pub session_user : UserRow → SessionUser
session_user row = record {
  id = row.id;
  school_id = row.school_id;
  name = row.name;
  email = row.email;
  roles = [];
  permissions = [];
}

-- 7 * 24 * time.Hour, in nanoseconds
abbrev pub session_lifetime : ℕ
session_lifetime = 7 * 24 * 3600000000000

unfoldable pub find_email : (String → String) → String → Db → Option UserRow
find_email lower email db = find_where (λ (row : UserRow). lower row.email == lower email) db.users

-- `lower` is the database's function, `random` what the random generator gives.
unfoldable pub authenticate :
    Crypto
    → (String → String)
    → Faults
    → Time
    → Result String
    → String
    → String
    → Action Db (SessionUser × String)
authenticate crypto lower faults now random email password = do
  row ← or_fail (query_row (faults 0) (find_email lower email)) (reason "invalid credentials")
  require (row.active && check_password crypto row.password_hash password)
      (reason "invalid credentials")
  token ← lift (new_token crypto random)
  exec (faults 1) (λ db. record db {
    sessions =
        insert
          (record {
            user_id = row.id;
            token_hash = token.digest;
            expires_at = now + session_lifetime;
            revoked_at = none;
          })
          db.sessions;
  })
  attempt (faults 2) (λ db. record db {
    users =
        update_where (λ (user : UserRow). user.id == row.id)
          (λ (user : UserRow). record user { last_login_at = some now }) db.users;
  })
  gets (λ db. (with_access (faults 3) (session_user row) db, token.raw))

-- The WHERE of the query of ByToken, on a session and the users that it joins.
unfoldable pub accepts_session : Time → String → Db → SessionRow → Bool
accepts_session now token_hash db session =
    session.token_hash == token_hash
    && not (is_some session.revoked_at)
    && ltb now session.expires_at
    && exists_where (λ (user : UserRow). user.id == session.user_id && user.active) db.users

unfoldable pub find_session : Time → String → Db → Option SessionRow
find_session now token_hash db = find_where (accepts_session now token_hash db) db.sessions

unfoldable pub session_owner : Time → String → Db → Option UserRow
session_owner now token_hash db = elim (find_session now token_hash db) [
  | none ↦ none
  | some session ↦
      find_where (λ (user : UserRow). user.id == session.user_id && user.active) db.users
]

unfoldable pub by_token : Crypto → Faults → Time → String → Action Db SessionUser
by_token crypto faults now raw = do
  row ← query_row (faults 0) (session_owner now (digest crypto raw))
  gets (with_access (faults 1) (session_user row))

abbrev pub revoke_where : Time → (SessionRow → Bool) → Db → Db
revoke_where now p db = record db {
  sessions =
      update_where p (λ (session : SessionRow). record session { revoked_at = some now })
        db.sessions;
}

unfoldable pub revoke : Crypto → Faults → Time → String → Action Db (Unit {0})
revoke crypto faults now raw =
    exec (faults 0)
      (revoke_where now (λ (session : SessionRow). session.token_hash == digest crypto raw))

-- The sessions of a user that are not revoked.
abbrev pub is_open : String → SessionRow → Bool
is_open user_id session = session.user_id == user_id && not (is_some session.revoked_at)

unfoldable pub change_password :
    Crypto → Faults → Time → String → String → String → Action Db (Unit {0})
change_password crypto faults now user_id current next = do
  row ←
      query_row (faults 0)
        (λ db. find_where (λ (user : UserRow). user.id == user_id && user.active) db.users)
  require (check_password crypto row.password_hash current) (reason "current password is invalid")
  new_hash ← lift (hash_password crypto next)
  transaction (faults 1) (faults 4) do
    exec (faults 2) (λ db. record db {
      users =
          update_where (λ (user : UserRow). user.id == user_id)
            (λ (user : UserRow). record user { password_hash = new_hash }) db.users;
    })
    exec (faults 3) (revoke_where now (is_open user_id))
