-- ===== src/Users/Accounts.antt =====
-- Create, Disable and Reactivate of backend/internal/users/store.go.
pub mod Laws
pub mod Administrators
pub mod Create
use Prim.Native.String.{◌++◌}
use fluenthub.Prelude.{
  ℕ, String, Bool, true, false, ◌&&◌, ◌||◌, not, Option, none, some, List, [], ◌∷◌, ◌==◌, ltb, leb,
  eqb, if◌then◌else◌, find_where, count_where, update_where, insert,
}
use fluenthub.Prelude.Text.{len, trim_space}
use fluenthub.Prelude.Action.{
  Result, ok, err, reason, database, Error, Faults, Action, lift, or_fail, require, fail_if,
  query_row, query, exec, attempt, when, transaction, pure, ◌>>=◌, ◌>>◌,
}
use fluenthub.Auth.{Crypto, hash_password}
use fluenthub.Users.Store.{Time, UserRow, RoleRow, UserRole, AuditEvent, Db, holds_role}
use fluenthub.Users.Sessions.{revoke_where, is_open}

pub record PublicUser : Type 0 where
  pub id : String
  pub name : String
  pub email : String
  pub phone : Option String
  pub active : Bool
  pub last_login_at : Option Time
  pub roles : List String

pub record CreateInput : Type 0 where
  pub name : String
  pub email : String
  pub password : String
  pub role_code : String
  pub phone : Option String

abbrev pub is_role : String → String → RoleRow → Bool
is_role school_id code role = role.school_id == school_id && role.code == code

abbrev pub audit : String → String → String → String → Option String → AuditEvent
audit school_id actor_id action id role = record {
  school_id = school_id;
  user_id = actor_id;
  action = action;
  resource_id = id;
  role = role;
}

-- `parse_address` is mail.ParseAddress, with the address that it finds; `to_lower` is strings.ToLower;
-- `id` is the identifier that is generated.
unfoldable pub create :
    Crypto
    → (String → Option String)
    → (String → String)
    → Faults
    → String
    → String
    → String
    → CreateInput
    → Action Db PublicUser
create crypto parse_address to_lower faults id school_id actor_id input = do
  fail_if (ltb (len (trim_space input.name)) 2) (reason "name is required")
  address ← or_fail (query_row false (λ db. parse_address input.email)) (reason "invalid email")
  hash ← lift (hash_password crypto input.password)
  transaction (faults 0) (faults 5) do
    role ←
        or_fail
          (query_row (faults 1) (λ db. find_where (is_role school_id input.role_code) db.roles))
          (reason "role not found in this school")
    exec (faults 2) (λ db. record db {
      users =
          insert
            (record {
              id = id;
              school_id = school_id;
              name = trim_space input.name;
              email = to_lower address;
              password_hash = hash;
              phone = input.phone;
              active = true;
              last_login_at = none;
              disabled_at = none;
            })
            db.users;
    })
    exec (faults 3) (λ db. record db {
      user_roles = insert (record { user_id = id; role_id = role.id }) db.user_roles;
    })
    exec (faults 4) (λ db. record db {
      audits = insert (audit school_id actor_id "user.created" id (some input.role_code)) db.audits;
    })
    pure (record {
      id = id;
      name = input.name;
      email = to_lower address;
      phone = input.phone;
      active = true;
      last_login_at = none;
      roles = input.role_code ∷ [];
    })

-- The roles of administrators: of a school, and of any.
abbrev pub is_administrator : String → Db → String → Bool
is_administrator school_id db user_id = holds_role (is_role school_id "administrator") user_id db

abbrev pub is_active_administrator : String → Db → UserRow → Bool
is_active_administrator school_id db user =
    user.school_id == school_id
    && user.active
    && holds_role (λ (role : RoleRow). role.code == "administrator") user.id db

abbrev pub is_active_user : String → String → Bool → UserRow → Bool
is_active_user school_id id active user =
    user.id == id
    && user.school_id == school_id
    && (if active then user.active else not user.active)

-- An UPDATE of users, with the number of rows that it affected.
unfoldable pub update_users : Bool → (UserRow → Bool) → (UserRow → UserRow) → Action Db ℕ
update_users fault p f db = (
  if fault then err database else ok (count_where p db.users),
  if fault then db else record db { users = update_where p f db.users },
)

abbrev pub disabled : Time → UserRow → UserRow
disabled now user = record user { active = false; disabled_at = some now }

-- After the attempt to revoke the sessions fails, the transaction refuses the next statement.
unfoldable pub disable : Faults → Time → String → String → String → Action Db (Unit {0})
unfolding update_users
disable faults now school_id actor_id target_id = do
  fail_if (actor_id == target_id)
      (reason "use another privileged administrator to disable this account")
  transaction (faults 0) (faults 7) do
    exec (faults 1) (λ db. db)
    target_admin ← query (faults 2) (λ db. is_administrator school_id db target_id)
    when target_admin do
      active_admins ←
          query (faults 3) (λ db. count_where (is_active_administrator school_id db) db.users)
      fail_if (leb active_admins 1) (reason "cannot disable the final active administrator")
    affected ← update_users (faults 4) (is_active_user school_id target_id true) (disabled now)
    require (eqb affected 1) (reason "active user not found")
    attempt (faults 5) (revoke_where now (is_open target_id))
    exec (faults 5 || faults 6) (λ db. record db {
      audits = insert (audit school_id actor_id "user.disabled" target_id none) db.audits;
    })

abbrev pub reactivated : UserRow → UserRow
reactivated user = record user { active = true; disabled_at = none }

-- One statement: the update, and an audit event for each row that it changed, which is one row at most since the id
-- is the key.
unfoldable pub reactivate : Faults → String → String → String → Action Db (Unit {0})
unfolding update_users
reactivate faults school_id actor_id target_id = do
  affected ← update_users (faults 0) (is_active_user school_id target_id false) reactivated
  when (not (eqb affected 0)) (
      exec false (λ db. record db {
        audits = insert (audit school_id actor_id "user.reactivated" target_id none) db.audits;
      }))
  require (eqb affected 1) (reason "disabled user not found")
