-- ===== src/Users/Tests/Sessions.antt =====
-- Signing in, signing out and changing a password.
use fluenthub.Prelude.{
  ◌+◌, ◌≡◌, ◌⊎◌, refl, String, true, false, ◌&&◌, none, some, [], ◌∷◌, ◌==◌, if◌then◌else◌,
  find_where, update_where, insert, ltb,
}
use fluenthub.Prelude.Action.{ok, err, database, is_ok, no_faults}
use fluenthub.Auth.{hash_password, check_password, digest, new_token}
use fluenthub.Users.Store.{UserRow, SessionRow}
use fluenthub.Users.Sessions.{
  SessionUser, session_user, session_lifetime, session_owner, with_access, authenticate, by_token,
  revoke, change_password,
}
use fluenthub.Users.Sessions.Laws.{IsKeyed}
use fluenthub.Users.Sessions.SignIn.{authenticate-by_token}
use fluenthub.Users.Sessions.Password.{change_password_lem}
use fluenthub.Users.Tests.Data.{crypto, ann, db}

abbrev signed : SessionUser
signed = record (session_user ann) {
  roles = "administrator" ∷ [];
  permissions = "users.manage" ∷ [];
}

signed_in_test :
    (authenticate crypto
      (λ s. s)
      no_faults
      10
      (ok "token-a")
      "ann@example.org"
      "correct horse battery"
      db).0
    ≡ ok (signed, "token-a")
unfolding authenticate fluenthub.Users.Sessions.find_email find_where new_token with_access
    fluenthub.Users.Sessions.collect fluenthub.Users.Sessions.access_rows
    fluenthub.Prelude.select_where insert
signed_in_test = refl

wrong_password_test :
    is_ok (authenticate crypto (λ s. s) no_faults 10 (ok "token-a") "ann@example.org" "wrong" db).0
    ≡ false
unfolding authenticate fluenthub.Users.Sessions.find_email find_where
wrong_password_test = refl

ids_test : IsKeyed db
unfolding fluenthub.Users.Store.find_user find_where
ids_test = (refl, (refl, tt))

revoked_test : (revoke crypto no_faults 20 "token-b" db).0 ≡ ok tt
unfolding revoke
revoked_test = refl

authenticate-by_token_example :
    let db' =
      (authenticate crypto
        (λ s. s)
        no_faults
        10
        (ok "token-a")
        "ann@example.org"
        "correct horse battery"
        db).1 in
    by_token crypto no_faults 20 "token-a" db'
    ≡ (if ltb 20 (10 + session_lifetime) then ok signed else err database, db')
unfolding fluenthub.Prelude.exists_where digest
authenticate-by_token_example =
    authenticate-by_token crypto (λ s. s) no_faults 10 (ok "token-a") "ann@example.org"
      "correct horse battery" db 20 signed "token-a" ids_test refl refl signed_in_test

change_password_lem_example :
    let (r, db') =
      change_password crypto no_faults 20 "user-2" "correct horse battery" "a better password" db in
    ((row : UserRow) × (new_hash : String) × (find_where
          (λ (u : UserRow). u.id == "user-2" && u.active)
          db.users
        ≡ some row)
      × (check_password crypto row.password_hash "correct horse battery" ≡ true)
      × (hash_password crypto "a better password" ≡ ok new_hash)
      × (db'.users
          ≡ update_where
              (λ (u : UserRow). u.id == "user-2")
              (λ (u : UserRow). record u { password_hash = new_hash })
              db.users)
      × ((session_owner 30 "sum of token-b" db' ≡ none)
          ⊎ ((other : UserRow) × (session_owner 30 "sum of token-b" db' ≡ some other)
              × (other.id == "user-2" ≡ false))))
    ⊎ ((is_ok r ≡ false) × (db' ≡ db))
change_password_lem_example =
    change_password_lem crypto no_faults 20 30 "user-2" "correct horse battery" "a better password"
      "sum of token-b" db
