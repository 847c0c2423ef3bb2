-- ===== src/Users/Store.antt =====
-- The tables that the store of users reads and writes, and its searches.
use fluenthub.Prelude.{ℕ, String, Bool, ◌&&◌, Option, List, ◌==◌, find_where, exists_where}

abbrev pub Time : Type 0
Time = ℕ

pub record UserRow : Type 0 where
  pub id : String
  pub school_id : String
  pub name : String
  pub email : String
  pub password_hash : String
  pub phone : Option String
  pub active : Bool
  pub last_login_at : Option Time
  pub disabled_at : Option Time

pub record SessionRow : Type 0 where
  pub user_id : String
  pub token_hash : String
  pub expires_at : Time
  pub revoked_at : Option Time

pub record RoleRow : Type 0 where
  pub id : String
  pub school_id : String
  pub name : String
  pub code : String

pub record UserRole : Type 0 where
  pub user_id : String
  pub role_id : String

-- A row of role_permissions with the code of its permission.
pub record RolePermission : Type 0 where
  pub role_id : String
  pub code : String

pub record AuditEvent : Type 0 where
  pub school_id : String
  pub user_id : String
  pub action : String
  pub resource_id : String
  pub role : Option String

pub record Db : Type 0 where
  pub users : List UserRow
  pub sessions : List SessionRow
  pub roles : List RoleRow
  pub user_roles : List UserRole
  pub role_permissions : List RolePermission
  pub audits : List AuditEvent

unfoldable pub find_user : String → Db → Option UserRow
find_user id db = find_where (λ (row : UserRow). row.id == id) db.users

-- user_roles ur JOIN roles r, for one user: is there a role that `p` selects?
unfoldable pub holds_role : (RoleRow → Bool) → String → Db → Bool
holds_role p user_id db =
    exists_where
      (λ (held : UserRole).
        held.user_id == user_id
        && exists_where (λ (role : RoleRow). role.id == held.role_id && p role) db.roles)
      db.user_roles
