-- ===== src/Users/Accounts/Administrators.antt =====
-- A school that has an active administrator keeps one.
use fluenthub.Prelude.{
  String, ◌≤◌, ◌≡◌, inl, inr, refl, ap, Bool, true, false, ◌&&◌, ◌||◌, not, ◌==◌, eq_iff, arith,
  All, Bool-cases, count_where, update_where,
}
use fluenthub.Prelude.Tables.{
  count_where-update, count_where-update_apart, count_where_ext, All-map,
}
use fluenthub.Prelude.Action.{Faults}
use fluenthub.Users.Store.{Time, UserRow, RoleRow, Db, holds_role}
use fluenthub.Users.Accounts.{
  disable, disabled, is_administrator, is_active_administrator, is_active_user,
}
use fluenthub.Users.Accounts.Laws.{disable_lem}

-- Every administrator among the users of the school has the role of the school itself.
abbrev pub HasOwnRoles : String → Db → Type 0
HasOwnRoles school_id db =
    All
      (λ (user : UserRow).
        (not (is_active_administrator school_id db user) || is_administrator school_id db user.id)
        ≡ true)
      db.users

-- A user with the id of one who is no administrator is no administrator.
not_hit :
    (school_id target_id : String) (user : UserRow) (db : Db)
    → is_administrator school_id db target_id ≡ false
    → (not (is_active_administrator school_id db user) || is_administrator school_id db user.id)
      ≡ true
    → (is_active_administrator school_id db user && is_active_user school_id target_id true user)
      ≡ false
not_hit school_id target_id user db ordinary h = elim (Bool-cases (user.id == target_id)) [
  | inl same ↦
      let equal : is_administrator school_id db user.id ≡ is_administrator school_id db target_id =
        ap (is_administrator school_id db) ((eq_iff user.id target_id).0 same) in
      ground (arith, equal)
  | inr other ↦ ground arith
]

holds_role_ext :
    (p : RoleRow → Bool) (user_id : String) (db' db : Db)
    → db'.roles ≡ db.roles
    → db'.user_roles ≡ db.user_roles
    → holds_role p user_id db' ≡ holds_role p user_id db
unfolding holds_role
holds_role_ext p user_id db' db roles user_roles = rw (roles, user_roles) refl

-- Disabling a user of a school whose administrators have their roles from it never leaves it without an active
-- administrator, whatever calls of the database fail.
pub disable-is_active_administrator :
    (faults : Faults) (now : Time) (school_id actor_id target_id : String) (db : Db)
    → HasOwnRoles school_id db
    → 1 ≤ count_where (is_active_administrator school_id db) db.users
    → let db' = (disable faults now school_id actor_id target_id db).1 in
      1 ≤ count_where (is_active_administrator school_id db') db'.users
disable-is_active_administrator faults now school_id actor_id target_id db own one =
    let administrator = is_active_administrator school_id db in
    let target = is_active_user school_id target_id true in
    let db' = (disable faults now school_id actor_id target_id db).1 in
    let count_again = λ (r : db'.roles ≡ db.roles) (u : db'.user_roles ≡ db.user_roles).
      count_where_ext (is_active_administrator school_id db') administrator
        (update_where target (disabled now) db.users)
        (λ user.
          ap (λ b. user.school_id == school_id && user.active && b)
            (holds_role_ext (λ (role : RoleRow). role.code == "administrator") user.id db' db r
              u)) in
    elim (disable_lem faults now school_id actor_id target_id db) [
      | inl (done, apart, single, inl ordinary, users, sessions, roles, user_roles, audits) ↦
          let none_hit =
            All-map
              (λ (user : UserRow).
                (not (administrator user) || is_administrator school_id db user.id) ≡ true)
              (λ (user : UserRow). (administrator user && target user) ≡ false) db.users own
              (λ user h. not_hit school_id target_id user db ordinary h) in
          let kept =
            count_where-update_apart administrator target (disabled now) db.users none_hit in
          rw (users, count_again roles user_roles) (omega (arith, kept, one))
      | inl (done, apart, single, inr two, users, sessions, roles, user_roles, audits) ↦
          let kept = count_where-update administrator target (disabled now) db.users in
          rw (users, count_again roles user_roles) (omega (arith, kept, two, single))
      | inr (failed, same) ↦ rw same one
    ]
