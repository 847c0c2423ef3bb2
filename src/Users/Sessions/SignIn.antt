-- ===== src/Users/Sessions/SignIn.antt =====
-- Signing in and the session that it opens.
use fluenthub.Prelude.{
  ◌+◌, String, ◌≡◌, refl, sym, ◌∙◌, ap, ◌⊎◌, inl, inr, true, false, ◌&&◌, none, some, ◌==◌, eq_refl,
  ltb, Bool-cases, Option-cases, arith, find_where, exists_where, update_where, insert,
  if◌then◌else◌,
}
use fluenthub.Prelude.Tables.{
  find_where-all, find_where-and, find_where-update, find_where-insert, exists_where_none_mono,
  exists_where-find_some,
}
use fluenthub.Prelude.Action.{ok, err, database, is_ok, Result, Result-cases, Faults, no_faults}
use fluenthub.Auth.{Crypto, Token, digest, new_token, check_password}
use fluenthub.Users.Store.{Time, UserRow, SessionRow, Db, find_user}
use fluenthub.Users.Sessions.{
  SessionUser, session_user, session_lifetime, with_access, find_email, authenticate,
  accepts_session, find_session, session_owner, by_token,
}
use fluenthub.Users.Sessions.Laws.{IsKeyed}

abbrev opened : Time → UserRow → String → SessionRow
opened now row hash = record {
  user_id = row.id;
  token_hash = hash;
  expires_at = now + session_lifetime;
  revoked_at = none;
}

new_token-digest :
    (crypto : Crypto) (random : Result String) (token : Token)
    → new_token crypto random ≡ ok token
    → token.digest ≡ digest crypto token.raw
unfolding new_token
new_token-digest crypto (ok bytes) token h = ground arith
new_token-digest crypto (err e) token h = cc

module _ (crypto : Crypto) (lower : String → String) (faults : Faults) (now : Time)
    (random : Result String) (email password : String) (db : Db) where
  -- Signing in succeeds only for an active user with that e-mail, whose password is accepted, and then adds
  -- one session of seven days for the digest of the token; else no session is added and no user changes.
  pub authenticate_lem :
      let (r, db') = authenticate crypto lower faults now random email password db in
      ((user : SessionUser) × (token : Token) × (row : UserRow) × (r ≡ ok (user, token.raw))
        × (find_email lower email db ≡ some row)
        × (row.active ≡ true)
        × (check_password crypto row.password_hash password ≡ true)
        × (new_token crypto random ≡ ok token)
        × (user ≡ with_access (faults 3) (session_user row) db')
        × (db'.sessions ≡ insert (opened now row token.digest) db.sessions)
        × (db'.users ≡ (
            if faults 2
            then db.users
            else update_where
                (λ (u : UserRow). u.id == row.id)
                (λ (u : UserRow). record u { last_login_at = some now })
                db.users)))
      ⊎ ((is_ok r ≡ false) × (db' ≡ db))
  unfolding authenticate
  authenticate_lem = elim (Option-cases (find_email lower email db)) [
    | inl missing ↦ inr (ground arith)
    | inr (row, found) ↦ elim (Result-cases (new_token crypto random)) [
      | inl (token, made) ↦
          let run = authenticate crypto lower faults now random email password db in
          elim (Bool-cases (is_ok run.0)) [
            | inl done ↦ inl (
              with_access (faults 3) (session_user row) run.1,
              token,
              row,
              ground arith,
              found,
              ground arith,
              ground arith,
              made,
              ground arith,
              ground arith,
              ground arith,
            )
            | inr failed ↦ inr (ground arith)
          ]
      | inr (e, failed) ↦ inr (ground arith)
    ]
  ]

  -- The session that signing in opens: its user, until it expires.
  opened-session_owner :
      (later : Time) (token : Token) (row : UserRow)
      → let db' = (authenticate crypto lower faults now random email password db).1 in
        find_user row.id db ≡ some row
        → row.active ≡ true
        → exists_where (λ (s : SessionRow). s.token_hash == token.digest) db.sessions ≡ false
        → db'.sessions ≡ insert (opened now row token.digest) db.sessions
        → db'.users ≡ (
            if faults 2
            then db.users
            else update_where
                (λ (u : UserRow). u.id == row.id)
                (λ (u : UserRow). record u { last_login_at = some now })
                db.users)
        → (owner : UserRow) × (session_user owner ≡ session_user row)
          × (session_owner later token.digest db'
              ≡ (if ltb later (now + session_lifetime) then some owner else none))
  unfolding session_owner find_session accepts_session find_user
  opened-session_owner later token row found active fresh sessions users =
      let db' = (authenticate crypto lower faults now random email password db).1 in
      let is_row = λ (u : UserRow). u.id == row.id in
      let login = λ (u : UserRow). record u { last_login_at = some now } in
      let owner = if faults 2 then row else login row in
      let kept : find_where is_row db'.users ≡ some owner =
        ground (arith, users, find_where-update is_row login row db.users (λ u. refl) found) in
      let owned =
        find_where-and is_row (λ (u : UserRow). u.active) owner db'.users kept (ground arith) in
      let accepts = accepts_session later token.digest db' in
      let stale =
        exists_where_none_mono (λ (s : SessionRow). s.token_hash == token.digest) accepts
          db.sessions (λ s h. ground arith) fresh in
      let added : find_where accepts db'.sessions ≡ (
          if accepts (opened now row token.digest)
          then some (opened now row token.digest)
          else none) =
        ap (find_where accepts) sessions
        ∙ find_where-insert accepts (opened now row token.digest) db.sessions stale in
      let lives =
        exists_where-find_some (λ (u : UserRow). u.id == row.id && u.active) owner db'.users
          owned in
      (owner, ground arith, ground (arith, eq_refl token.digest))

  -- The token of a sign-in is accepted by ByToken for exactly seven days, and gives the user that the sign-in
  -- gave, with the same roles and permissions. The digest is that of no other session, and the ids are keys.
  pub authenticate-by_token :
      (later : Time) (user : SessionUser) (raw : String)
      → IsKeyed db
      → exists_where (λ (s : SessionRow). s.token_hash == digest crypto raw) db.sessions ≡ false
      → faults 3 ≡ false
      → let (r, db') = authenticate crypto lower faults now random email password db in
        r ≡ ok (user, raw)
        → by_token crypto no_faults later raw db'
          ≡ (if ltb later (now + session_lifetime) then ok user else err database, db')
  unfolding by_token find_email
  authenticate-by_token later user raw keyed fresh complete done = elim authenticate_lem [
    | inl (u, token, row, r, found, active, accepted, made, access, sessions, users) ↦
        let same_raw : token.raw ≡ raw = ground arith in
        let same_user : user
            ≡ with_access false (session_user row)
                (authenticate crypto lower faults now random email password db).1 =
          ground (arith, access) in
        let hashed : digest crypto raw ≡ token.digest =
          ap (digest crypto) (sym same_raw) ∙ sym (new_token-digest crypto random token made) in
        let keyed_row =
          find_where-all (λ (x : UserRow). find_user x.id db ≡ some x)
            (λ (x : UserRow). lower x.email == lower email) row db.users keyed found in
        let (owner, is_owner, owns) =
          opened-session_owner later token row keyed_row active (rw (sym hashed) fresh) sessions
            users in
        let owned =
          ap
            (λ h.
              session_owner later h
                (authenticate crypto lower faults now random email password db).1)
            hashed
          ∙ owns in
        ground (arith, same_user, is_owner, owned)
    | inr (failed, same) ↦ ground (arith, failed)
  ]
