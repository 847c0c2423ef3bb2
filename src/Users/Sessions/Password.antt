-- ===== src/Users/Sessions/Password.antt =====
-- Changing a password.
use fluenthub.Prelude.{
  String, ◌≡◌, ◌⊎◌, inl, inr, true, false, ◌&&◌, none, some, ◌==◌, Option-cases, Bool-cases, arith,
  find_where, update_where,
}
use fluenthub.Prelude.Action.{ok, is_ok, Result-cases, Faults}
use fluenthub.Auth.{Crypto, hash_password, check_password}
use fluenthub.Users.Store.{Time, UserRow, Db}
use fluenthub.Users.Sessions.{session_owner, change_password, is_open, revoke_where}
use fluenthub.Users.Sessions.Laws.{session_owner-other, revoke_where-is_open}

module _ (crypto : Crypto) (faults : Faults) (now later : Time) (user_id current next hash : String)
    (db : Db) where
  -- A change of password that succeeds had the current password of an active user, stores the hash of
  -- the new one, and ends every session of the user: no token is accepted for that user at any time, until a
  -- new session is opened. A change that fails changes nothing.
  pub change_password_lem :
      let (r, db') = change_password crypto faults now user_id current next db in
      ((row : UserRow) × (new_hash : String) × (find_where
            (λ (u : UserRow). u.id == user_id && u.active)
            db.users
          ≡ some row)
        × (check_password crypto row.password_hash current ≡ true)
        × (hash_password crypto next ≡ ok new_hash)
        × (db'.users
            ≡ update_where
                (λ (u : UserRow). u.id == user_id)
                (λ (u : UserRow). record u { password_hash = new_hash })
                db.users)
        × ((session_owner later hash db' ≡ none)
            ⊎ ((other : UserRow) × (session_owner later hash db' ≡ some other)
                × (other.id == user_id ≡ false))))
      ⊎ ((is_ok r ≡ false) × (db' ≡ db))
  unfolding change_password
  change_password_lem =
      elim (Option-cases (find_where (λ (u : UserRow). u.id == user_id && u.active) db.users)) [
        | inl missing ↦ inr (ground arith)
        | inr (row, found) ↦ elim (Result-cases (hash_password crypto next)) [
          | inl (new_hash, hashed) ↦
              let run = change_password crypto faults now user_id current next db in
              elim (Bool-cases (is_ok run.0)) [
                | inl done ↦
                    let set = λ (u : UserRow). record u { password_hash = new_hash } in
                    let updated : Db = record db {
                      users = update_where (λ (u : UserRow). u.id == user_id) set db.users;
                    } in
                    let closed = revoke_where-is_open now user_id updated in
                    let written : run.1 ≡ revoke_where now (is_open user_id) updated =
                      ground arith in
                    inl (
                      row,
                      new_hash,
                      found,
                      ground arith,
                      hashed,
                      ground arith,
                      session_owner-other later hash user_id run.1 (ground arith),
                    )
                | inr failed ↦ inr (ground arith)
              ]
          | inr (e, failed) ↦ inr (ground arith)
        ]
      ]
