-- ===== src/Users/Sessions/Laws.antt =====
-- Who is signed in, and for how long.
use fluenthub.Prelude.{
  String, ◌≡◌, ap, ◌⊎◌, inl, inr, false, ◌&&◌, none, some, ◌==◌, eq_iff, Bool-cases, Option-cases,
  arith, find_where, exists_where, update_where, if◌then◌else◌, All,
}
use fluenthub.Prelude.Tables.{
  find_where-exists_none, find_where_sound, exists_where-update_none, find_where-none,
  find_where-update_other,
}
use fluenthub.Prelude.Action.{ok, Faults}
use fluenthub.Auth.{Crypto, digest}
use fluenthub.Users.Store.{Time, UserRow, SessionRow, Db, find_user}
use fluenthub.Users.Sessions.{
  accepts_session, find_session, session_owner, is_open, revoke_where, revoke,
}

-- The ids are the keys of the users.
abbrev pub IsKeyed : Db → Type 0
IsKeyed db = All (λ (row : UserRow). find_user row.id db ≡ some row) db.users

-- A user with no open session is not accepted, with any token and at any time.
pub session_owner-other :
    (now : Time) (hash user_id : String) (db : Db)
    → exists_where (is_open user_id) db.sessions ≡ false
    → (session_owner now hash db ≡ none)
      ⊎ ((row : UserRow) × (session_owner now hash db ≡ some row) × (row.id == user_id ≡ false))
unfolding session_owner find_session accepts_session
session_owner-other now hash user_id db closed = elim (Option-cases (find_session now hash db)) [
  | inl missing ↦ inl (ground arith)
  | inr (session, found) ↦
      let accepted = find_where_sound (accepts_session now hash db) session db.sessions found in
      let apart =
        find_where-exists_none (is_open user_id) (accepts_session now hash db) session db.sessions
          closed found in
      let owns = λ (user : UserRow). user.id == session.user_id && user.active in
      elim (Option-cases (find_where owns db.users)) [
        | inl gone ↦ inl (ground arith)
        | inr (row, owner) ↦
            let owned = find_where_sound owns row db.users owner in
            let same : row.id ≡ session.user_id =
              (eq_iff row.id session.user_id).0 (ground arith) in
            inr (row, ground arith, ground (arith, ap (λ id. id == user_id) same))
      ]
]

-- What revoke_where does to the open sessions of a user.
pub revoke_where-is_open :
    (now : Time) (user_id : String) (db : Db)
    → exists_where (is_open user_id) (revoke_where now (is_open user_id) db).sessions ≡ false
revoke_where-is_open now user_id db =
    exists_where-update_none (is_open user_id) (is_open user_id)
      (λ (session : SessionRow). record session { revoked_at = some now }) db.sessions
      (λ session h. ground arith) (λ session h. h)

-- After a successful Revoke the token is not accepted at any time, and every other token is as before.
pub revoke_lem :
    (crypto : Crypto) (faults : Faults) (now later : Time) (raw hash : String) (db : Db)
    → (revoke crypto faults now raw db).0 ≡ ok tt
    → session_owner later hash (revoke crypto faults now raw db).1
      ≡ (if hash == digest crypto raw then none else session_owner later hash db)
unfolding revoke session_owner find_session accepts_session
revoke_lem crypto faults now later raw hash db done =
    let revoked = λ (session : SessionRow). session.token_hash == digest crypto raw in
    let set = λ (session : SessionRow). record session { revoked_at = some now } in
    let worked : faults 0 ≡ false = ground arith in
    elim (Bool-cases (hash == digest crypto raw)) [
      | inl same ↦
          let equal : hash ≡ digest crypto raw = (eq_iff hash (digest crypto raw)).0 same in
          let nothing =
            find_where-none (accepts_session later hash db) (update_where revoked set db.sessions) (
              exists_where-update_none (accepts_session later hash db) revoked set db.sessions
                (λ session h. ground arith) (λ session h. ground (arith, equal))) in
          ground (arith, nothing)
      | inr other ↦
          let kept =
            find_where-update_other (accepts_session later hash db) revoked set db.sessions
              (λ session h.
                let equal : session.token_hash ≡ digest crypto raw =
                  (eq_iff session.token_hash (digest crypto raw)).0 h in
                let apart : (session.token_hash == hash) ≡ false =
                  elim (Bool-cases (session.token_hash == hash)) [
                    | inl hit ↦
                        let again =
                          ap (λ k. k == digest crypto raw)
                            ((eq_iff session.token_hash hash).0 hit) in
                        ground (arith, again)
                    | inr miss ↦ miss
                  ] in
                (ground arith, ground arith)) in
          ground (arith, kept)
    ]
