-- ===== src/Middleware/Laws.antt =====
-- Who gets past the guards.
use fluenthub.Prelude.{
  sym, exists_where, Bool-cases, String, ◌≡◌, refl, ◌∙◌, ◌⊎◌, inl, inr, Bool, true, false, none,
  some, Option-cases, arith, if◌then◌else◌,
}
use fluenthub.Prelude.Action.{Faults, no_faults}
use fluenthub.Auth.{Crypto, digest}
use fluenthub.Users.Store.{Time, UserRow, Db}
use fluenthub.Users.Sessions.{session_user, session_owner, with_access, by_token}
use fluenthub.Users.Sessions.Access.{holds_permission, with_access-permissions}
use fluenthub.Middleware.{
  Context, Handler, write_unauthorized, forbidden, authenticate, contains, require,
}

with_access-user :
    (fault : Bool) (code : String) (row : UserRow) (db : Db)
    → contains (with_access fault (session_user row) db).permissions code ≡ true
    → (fault ≡ false) × (holds_permission code row.id db ≡ true)
unfolding contains exists_where with_access
with_access-user true code row db h = cc
with_access-user false code row db h =
    (refl, sym (with_access-permissions code (session_user row) db refl) ∙ h)

-- A request with a session cookie reaches a handler behind Authenticate and Require only if the session is
-- accepted and a role of its user has the permission; else the answer is 401 or 403 and nothing changes.
pub require_guards :
    (crypto : Crypto) (faults : Faults) (now : Time) (permission raw : String) (next : Handler)
    (context : Context) (db : Db)
    → let answer = authenticate crypto faults now (some raw) (require permission next) context db in
      (answer ≡ (write_unauthorized context.request_id, db))
      ⊎ (answer ≡ (forbidden context.request_id, db))
      ⊎ ((row : UserRow) × (session_owner now (digest crypto raw) db ≡ some row)
          × (holds_permission permission row.id db ≡ true)
          × (answer
              ≡ next
                  (record context { user = some (with_access (faults 1) (session_user row) db) })
                  db))
unfolding authenticate require by_token
require_guards crypto faults now permission raw next context db =
    let source = session_owner now (digest crypto raw) db in
    let granted = λ (row : UserRow).
      contains (with_access (faults 1) (session_user row) db).permissions permission in
    elim (Option-cases source) [
      | inl missing ↦ inl (ground arith)
      | inr (row, found) ↦ elim (Bool-cases (faults 0)) [
        | inl failed ↦ inl (ground arith)
        | inr fine ↦ elim (Bool-cases (granted row)) [
          | inl allowed ↦ inr (
              inr (
                row,
                found,
                (with_access-user (faults 1) permission row db allowed).1,
                ground arith,
              ))
          | inr denied ↦ inr (inl (ground arith))
        ]
      ]
    ]

-- Without faults of the database that is exact: 401 without an accepted session, 403 without the permission,
-- and the handler's answer with both.
pub require_answers :
    (crypto : Crypto) (now : Time) (permission raw : String) (next : Handler) (context : Context)
    (db : Db)
    → authenticate crypto no_faults now (some raw) (require permission next) context db
      ≡ elim (session_owner now (digest crypto raw) db) [
        | none ↦ (write_unauthorized context.request_id, db)
        | some row ↦ (
          if holds_permission permission row.id db
              then (next
                  (record context { user = some (with_access false (session_user row) db) })
                  db).0
              else forbidden context.request_id,
          if holds_permission permission row.id db
              then (next
                  (record context { user = some (with_access false (session_user row) db) })
                  db).1
              else db,
        )
      ]
unfolding authenticate require by_token contains
require_answers crypto now permission raw next context db =
    elim (Option-cases (session_owner now (digest crypto raw) db)) [
      | inl missing ↦ ground (arith)
      | inr (row, found) ↦
          ground (arith, with_access-permissions permission (session_user row) db refl)
    ]
