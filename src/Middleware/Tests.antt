-- ===== src/Middleware/Tests.antt =====
-- A guarded handler on concrete data.
use fluenthub.Prelude.{◌≡◌, ◌⊎◌, refl, String, true, false, none, some, [], if◌then◌else◌}
use fluenthub.Prelude.Action.{no_faults}
use fluenthub.Auth.{digest}
use fluenthub.Users.Store.{UserRow}
use fluenthub.Users.Sessions.{session_user, session_owner, with_access}
use fluenthub.Users.Sessions.Access.{holds_permission}
use fluenthub.Users.Tests.Data.{crypto, db}
use fluenthub.Middleware.{Context, Handler, write_unauthorized, forbidden, authenticate, require}
use fluenthub.Middleware.Laws.{require_guards, require_answers}

abbrev context : Context
context = record { user = none; request_id = "request-1" }

abbrev next : Handler
next _ db = (record { status = 200; headers = []; body = "done" }, db)

permitted_test :
    (authenticate crypto no_faults 20
      (some "token-b")
      (require "users.manage" next)
      context
      db).0.status
    ≡ 200
unfolding authenticate fluenthub.Users.Sessions.by_token session_owner
    fluenthub.Users.Sessions.find_session fluenthub.Prelude.find_where
    fluenthub.Users.Sessions.accepts_session digest fluenthub.Prelude.exists_where require
    fluenthub.Middleware.contains with_access fluenthub.Users.Sessions.collect
    fluenthub.Users.Sessions.access_rows fluenthub.Prelude.select_where fluenthub.Prelude.insert
permitted_test = refl

refused_test :
    (authenticate crypto no_faults 20
      (some "token-b")
      (require "school.manage" next)
      context
      db).0.status
    ≡ 403
unfolding authenticate fluenthub.Users.Sessions.by_token session_owner
    fluenthub.Users.Sessions.find_session fluenthub.Prelude.find_where
    fluenthub.Users.Sessions.accepts_session digest fluenthub.Prelude.exists_where require
    fluenthub.Middleware.contains with_access fluenthub.Users.Sessions.collect
    fluenthub.Users.Sessions.access_rows fluenthub.Prelude.select_where fluenthub.Prelude.insert
    forbidden
refused_test = refl

expired_test :
    (authenticate crypto no_faults 1000
      (some "token-b")
      (require "users.manage" next)
      context
      db).0.status
    ≡ 401
unfolding authenticate fluenthub.Users.Sessions.by_token session_owner
    fluenthub.Users.Sessions.find_session fluenthub.Prelude.find_where
    fluenthub.Users.Sessions.accepts_session digest write_unauthorized
expired_test = refl

require_guards_example :
    let answer =
      authenticate crypto no_faults 20 (some "token-b") (require "users.manage" next) context db in
    (answer ≡ (write_unauthorized "request-1", db))
    ⊎ (answer ≡ (forbidden "request-1", db))
    ⊎ ((row : UserRow) × (session_owner 20 (digest crypto "token-b") db ≡ some row)
        × (holds_permission "users.manage" row.id db ≡ true)
        × (answer
            ≡ next (record context { user = some (with_access false (session_user row) db) }) db))
require_guards_example = require_guards crypto no_faults 20 "users.manage" "token-b" next context db

require_answers_example :
    authenticate crypto no_faults 20 (some "token-b") (require "users.manage" next) context db
    ≡ elim (session_owner 20 (digest crypto "token-b") db) [
      | none ↦ (write_unauthorized "request-1", db)
      | some row ↦ (
        if holds_permission "users.manage" row.id db
            then (next
                (record context { user = some (with_access false (session_user row) db) })
                db).0
            else forbidden "request-1",
        if holds_permission "users.manage" row.id db
            then (next
                (record context { user = some (with_access false (session_user row) db) })
                db).1
            else db,
      )
    ]
require_answers_example = require_answers crypto 20 "users.manage" "token-b" next context db
