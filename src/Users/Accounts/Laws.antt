-- ===== src/Users/Accounts/Laws.antt =====
-- Disabling and reactivating accounts.
use fluenthub.Prelude.{
  String, ◌<◌, ◌≡◌, ◌⊎◌, inl, inr, refl, ap, ◌∙◌, Bool, true, false, none, ◌==◌, arith, List, [],
  ◌∷◌, count_where, update_where, insert, exists_where,
}
use fluenthub.Prelude.Action.{ok, is_ok, Faults, no_faults}
use fluenthub.Users.Store.{Time, UserRow, Db}
use fluenthub.Users.Sessions.{revoke_where, is_open}
use fluenthub.Users.Accounts.{
  disable, disabled, reactivate, reactivated, audit, is_administrator, is_active_administrator,
  is_active_user,
}

-- An account is disabled only by another user, only if it is one active account of the school, and an
-- administrator's only if the school has two active ones; its sessions end, and one audit event is added.
-- Else nothing changes.
pub disable_lem :
    (faults : Faults) (now : Time) (school_id actor_id target_id : String) (db : Db)
    → let (r, db') = disable faults now school_id actor_id target_id db in
      let target = is_active_user school_id target_id true in
      ((r ≡ ok tt)
        × (actor_id == target_id ≡ false)
        × (count_where target db.users ≡ 1)
        × ((is_administrator school_id db target_id ≡ false)
            ⊎ (1 < count_where (is_active_administrator school_id db) db.users))
        × (db'.users ≡ update_where target (disabled now) db.users)
        × (db'.sessions ≡ (revoke_where now (is_open target_id) db).sessions)
        × (db'.roles ≡ db.roles)
        × (db'.user_roles ≡ db.user_roles)
        × (db'.audits ≡ insert (audit school_id actor_id "user.disabled" target_id none) db.audits))
      ⊎ ((is_ok r ≡ false) × (db' ≡ db))
unfolding disable
disable_lem faults now school_id actor_id target_id db = ground arith

module _ (now : Time) (school_id target_id : String) where
  abbrev active_target : UserRow → Bool
  active_target = is_active_user school_id target_id true

  abbrev inactive_target : UserRow → Bool
  inactive_target = is_active_user school_id target_id false

  -- Of the rows that were disabled: they are the inactive ones, and they become active again.
  count-disabled :
      (users : List UserRow)
      → exists_where inactive_target users ≡ false
      → count_where inactive_target (update_where active_target (disabled now) users)
        ≡ count_where active_target users
  unfolding exists_where count_where update_where
  count-disabled [] none_off = refl
  count-disabled (user ∷ users) none_off = ground (arith, count-disabled users)

  update-disabled :
      (users : List UserRow)
      → exists_where inactive_target users ≡ false
      → update_where inactive_target reactivated (update_where active_target (disabled now) users)
        ≡ update_where active_target (λ user. record user { disabled_at = none }) users
  unfolding exists_where update_where
  update-disabled [] none_off = refl
  update-disabled (user ∷ users) none_off = ground (arith, update-disabled users)

-- Reactivating an account that was just disabled succeeds, and gives back the users as they were but for the
-- time of disabling; the sessions that were ended stay ended, and each of the two operations adds its audit event.
pub reactivate-disable :
    (faults : Faults) (now : Time) (school_id actor_id other_id target_id : String) (db : Db)
    → exists_where (is_active_user school_id target_id false) db.users ≡ false
    → let (r, db') = disable faults now school_id actor_id target_id db in
      r ≡ ok tt
      → let (again, db'') = reactivate no_faults school_id other_id target_id db' in
        (again ≡ ok tt)
        × (db''.users
            ≡ update_where
                (is_active_user school_id target_id true)
                (λ (user : UserRow). record user { disabled_at = none })
                db.users)
        × (db''.sessions ≡ (revoke_where now (is_open target_id) db).sessions)
        × (db''.audits
            ≡ insert
                (audit school_id other_id "user.reactivated" target_id none)
                (insert (audit school_id actor_id "user.disabled" target_id none) db.audits))
unfolding reactivate
reactivate-disable faults now school_id actor_id other_id target_id db none_off done =
    elim (disable_lem faults now school_id actor_id target_id db) [
      | inl (r, apart, single, allowed, users, sessions, roles, user_roles, audits) ↦
          let db' = (disable faults now school_id actor_id target_id db).1 in
          let counted : count_where (is_active_user school_id target_id false) db'.users ≡ 1 =
            rw users (count-disabled now school_id target_id db.users none_off ∙ single) in
          let back =
            ap (update_where (is_active_user school_id target_id false) reactivated) users
            ∙ update-disabled now school_id target_id db.users none_off in
          (
            ground (arith, counted),
            ground (arith, back),
            ground (arith, sessions),
            ground (arith, counted, audits),
          )
      | inr (failed, same) ↦ ground (arith, failed)
    ]
