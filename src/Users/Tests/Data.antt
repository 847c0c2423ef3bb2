-- ===== src/Users/Tests/Data.antt =====
-- Two administrators of a school, one of whom is signed in.
use Prim.Native.String.{◌++◌}
use fluenthub.Prelude.{true, none, [], ◌∷◌, ◌==◌}
use fluenthub.Prelude.Action.{ok}
use fluenthub.Auth.{Crypto}
use fluenthub.Users.Store.{UserRow, SessionRow, RoleRow, Db}

-- Stand-ins for the functions of the libraries that tell texts apart as those do.
abbrev pub crypto : Crypto
crypto = record {
  bcrypt = λ password. ok ("hash of " ++ password);
  accepts = λ hash password. hash == "hash of " ++ password;
  sha256 = λ s. "sum of " ++ s;
  base64 = λ s. s;
}

abbrev pub ann : UserRow
ann = record {
  id = "user-1";
  school_id = "school-1";
  name = "Ann";
  email = "ann@example.org";
  password_hash = "hash of correct horse battery";
  phone = none;
  active = true;
  last_login_at = none;
  disabled_at = none;
}

abbrev pub bob : UserRow
bob = record ann { id = "user-2"; name = "Bob"; email = "bob@example.org" }

abbrev pub session : SessionRow
session = record {
  user_id = "user-2";
  token_hash = "sum of token-b";
  expires_at = 1000;
  revoked_at = none;
}

abbrev pub administrator : RoleRow
administrator = record {
  id = "role-1";
  school_id = "school-1";
  name = "Administrator";
  code = "administrator";
}

abbrev pub db : Db
db = record {
  users = ann ∷ bob ∷ [];
  sessions = session ∷ [];
  roles = administrator ∷ [];
  user_roles =
      record { user_id = "user-1"; role_id = "role-1" }
      ∷ record { user_id = "user-2"; role_id = "role-1" }
      ∷ [];
  role_permissions = record { role_id = "role-1"; code = "users.manage" } ∷ [];
  audits = [];
}
