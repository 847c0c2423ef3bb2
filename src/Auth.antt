-- ===== src/Auth.antt =====
-- backend/internal/auth/auth.go: passwords, session tokens and the session cookie.
use fluenthub.Prelude.{ℕ, String, Bool, true, false, ◌||◌, Option, none, some, ltb, if◌then◌else◌}
use fluenthub.Prelude.Text.{len}
use fluenthub.Prelude.Action.{Result, reason, ok, err}

-- The libraries' functions: bcrypt.GenerateFromPassword at the default cost, whether
-- bcrypt.CompareHashAndPassword is nil, sha256.Sum256 and base64.RawURLEncoding of bytes.
pub record Crypto : Type 0 where
  pub bcrypt : String → Result String
  pub accepts : String → String → Bool
  pub sha256 : String → String
  pub base64 : String → String

unfoldable pub hash_password : Crypto → String → Result String
hash_password crypto password =
    if ltb (len password) 12 || ltb 128 (len password)
    then err (reason "password must have 12 to 128 characters")
    else crypto.bcrypt password

abbrev pub check_password : Crypto → String → String → Bool
check_password crypto hash password = crypto.accepts hash password

unfoldable pub digest : Crypto → String → String
digest crypto raw = crypto.base64 (crypto.sha256 raw)

pub record Token : Type 0 where
  pub raw : String
  pub digest : String

-- `random` is what rand.Read gives: 32 bytes or an error.
unfoldable pub new_token : Crypto → Result String → Result Token
new_token crypto (ok bytes) =
    ok (record { raw = crypto.base64 bytes; digest = digest crypto (crypto.base64 bytes) })
new_token crypto (err e) = err e

pub record Cookie : Type 0 where
  pub name : String
  pub value : String
  pub path : String
  pub http_only : Bool
  pub secure : Bool
  pub same_site : String
  pub expires : Option ℕ
  pub expires_now : Bool

abbrev pub cookie_name : String
cookie_name = "fluenthub_session"

-- The cookie of a session, and the one that removes it (MaxAge -1).
unfoldable pub set_cookie : String → Bool → ℕ → Cookie
set_cookie token secure expires = record {
  name = cookie_name;
  value = token;
  path = "/";
  http_only = true;
  secure = secure;
  same_site = "Lax";
  expires = some expires;
  expires_now = false;
}

unfoldable pub clear_cookie : Bool → Cookie
clear_cookie secure = record {
  name = cookie_name;
  value = "";
  path = "/";
  http_only = true;
  secure = secure;
  same_site = "Lax";
  expires = none;
  expires_now = true;
}
