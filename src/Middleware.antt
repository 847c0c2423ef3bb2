-- ===== src/Middleware.antt =====
-- Authenticate and Require of backend/internal/http/middleware/middleware.go, over the store of users. A
-- handler gets the context of a request, and gives a response and the state after.
pub mod Laws
mod Tests
use Prim.Native.String.{◌++◌}
use fluenthub.Prelude.{
  ℕ, String, Bool, false, Option, none, some, List, [], ◌∷◌, ◌==◌, if◌then◌else◌, exists_where,
}
use fluenthub.Prelude.Action.{Result, ok, err, Faults}
use fluenthub.Auth.{Crypto}
use fluenthub.Users.Store.{Time, Db}
use fluenthub.Users.Sessions.{SessionUser, by_token}

pub record Context : Type 0 where
  pub user : Option SessionUser
  pub request_id : String

pub record Response : Type 0 where
  pub status : ℕ
  pub headers : List (String × String)
  pub body : String

abbrev pub Handler : Type 0
Handler = Context → Db → Response × Db

unfoldable pub write_unauthorized : String → Response
write_unauthorized id = record {
  status = 401;
  headers = ("Content-Type", "application/json") ∷ [];
  body =
      "{\"error\":{\"code\":\"UNAUTHENTICATED\",\"message\":\"Authentication required\",\"requestId\":\""
      ++ id ++ "\"}}";
}

-- http.Error adds the headers and the newline.
unfoldable pub forbidden : String → Response
forbidden id = record {
  status = 403;
  headers =
      ("Content-Type", "text/plain; charset=utf-8") ∷ ("X-Content-Type-Options", "nosniff") ∷ [];
  body =
      "{\"error\":{\"code\":\"FORBIDDEN\",\"message\":\"Permission denied\",\"requestId\":\"" ++ id
      ++ "\"}}\n";
}

-- `cookie` is the value of the session cookie of the request.
unfoldable pub authenticate : Crypto → Faults → Time → Option String → Handler → Handler
authenticate crypto faults now none next context db = (write_unauthorized context.request_id, db)
authenticate crypto faults now (some raw) next context db =
    let (r, db') = by_token crypto faults now raw db in
    elim r [
      | ok user ↦ next (record context { user = some user }) db'
      | err e ↦ (write_unauthorized context.request_id, db')
    ]

-- slices.Contains
unfoldable pub contains : List String → String → Bool
contains xs x = exists_where (λ (y : String). y == x) xs

abbrev pub permits : String → Option SessionUser → Bool
permits permission none = false
permits permission (some user) = contains user.permissions permission

unfoldable pub require : String → Handler → Handler
require permission next context db = (
  if permits permission context.user then (next context db).0 else forbidden context.request_id,
  if permits permission context.user then (next context db).1 else db,
)
