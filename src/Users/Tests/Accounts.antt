-- ===== src/Users/Tests/Accounts.antt =====
-- Creating, disabling and reactivating accounts.
use fluenthub.Prelude.{
  ℕ, ◌≤◌, ◌<◌, ◌≡◌, ◌⊎◌, refl, String, true, false, ◌&&◌, none, some, [], ◌∷◌, ◌==◌, arith, eq_refl,
  count_where, update_where, insert,
}
use fluenthub.Prelude.Action.{ok, is_ok, no_faults}
use fluenthub.Auth.{new_token}
use fluenthub.Users.Store.{UserRow}
use fluenthub.Users.Sessions.{SessionUser, authenticate, revoke_where, is_open}
use fluenthub.Users.Accounts.{
  PublicUser, CreateInput, create, disable, reactivate, audit, is_active_administrator,
  is_active_user,
}
use fluenthub.Users.Accounts.Laws.{reactivate-disable}
use fluenthub.Users.Accounts.Administrators.{HasOwnRoles, disable-is_active_administrator}
use fluenthub.Users.Accounts.Create.{create-authenticate}
use fluenthub.Users.Tests.Data.{crypto, bob, db}

abbrev input : CreateInput
input = record {
  name = " Cay ";
  email = "cay@example.org";
  password = "correct horse";
  role_code = "administrator";
  phone = none;
}

abbrev cay : PublicUser
cay = record {
  id = "user-3";
  name = " Cay ";
  email = "cay@example.org";
  phone = none;
  active = true;
  last_login_at = none;
  roles = "administrator" ∷ [];
}

created_test :
    (create crypto some (λ s. s) no_faults "user-3" "school-1" "user-1" input db).0 ≡ ok cay
unfolding create fluenthub.Prelude.Text.trim_space fluenthub.Auth.hash_password
    fluenthub.Prelude.find_where
created_test = refl

accepts_made :
    (password hash : String)
    → crypto.bcrypt password ≡ ok hash
    → crypto.accepts hash password ≡ true
accepts_made password hash h = ground (arith, eq_refl hash)

create-authenticate_example :
    let db' = (create crypto some (λ s. s) no_faults "user-3" "school-1" "user-1" input db).1 in
    (signed : SessionUser) × ((authenticate crypto
        (λ s. s)
        no_faults
        10
        (ok "token-c")
        "cay@example.org"
        "correct horse"
        db').0
      ≡ ok (signed, "token-c"))
    × (signed.id ≡ "user-3")
    × (signed.school_id ≡ "school-1")
    × (signed.email ≡ "cay@example.org")
unfolding new_token fluenthub.Auth.digest fluenthub.Prelude.exists_where
create-authenticate_example =
    create-authenticate crypto some (λ s. s) no_faults "user-3" "school-1" "user-1" input db
      (λ s. s) 10 (ok "token-c") "cay@example.org"
      (record { raw = "token-c"; digest = "sum of token-c" }) cay accepts_made refl created_test
      refl refl

own_roles_test : HasOwnRoles "school-1" db
unfolding fluenthub.Users.Store.holds_role fluenthub.Prelude.exists_where
own_roles_test = (refl, (refl, tt))

administrators_test : 1 ≤ count_where (is_active_administrator "school-1" db) db.users
unfolding count_where fluenthub.Users.Store.holds_role fluenthub.Prelude.exists_where
administrators_test = omega arith

disabled_test : (disable no_faults 20 "school-1" "user-1" "user-2" db).0 ≡ ok tt
unfolding disable fluenthub.Users.Store.holds_role fluenthub.Prelude.exists_where count_where
disabled_test = refl

last_administrator_test :
    is_ok (disable no_faults 20 "school-1" "user-1" "user-2" (record db { users = bob ∷ [] })).0
    ≡ false
unfolding disable fluenthub.Users.Store.holds_role fluenthub.Prelude.exists_where count_where
last_administrator_test = refl

disable-is_active_administrator_example :
    let db' = (disable no_faults 20 "school-1" "user-1" "user-2" db).1 in
    1 ≤ count_where (is_active_administrator "school-1" db') db'.users
disable-is_active_administrator_example =
    disable-is_active_administrator no_faults 20 "school-1" "user-1" "user-2" db own_roles_test
      administrators_test

reactivate-disable_example :
    let db' = (disable no_faults 20 "school-1" "user-1" "user-2" db).1 in
    let (again, db'') = reactivate no_faults "school-1" "user-1" "user-2" db' in
    (again ≡ ok tt)
    × (db''.users
        ≡ update_where
            (is_active_user "school-1" "user-2" true)
            (λ (user : UserRow). record user { disabled_at = none })
            db.users)
    × (db''.sessions ≡ (revoke_where 20 (is_open "user-2") db).sessions)
    × (db''.audits
        ≡ insert
            (audit "school-1" "user-1" "user.reactivated" "user-2" none)
            (insert (audit "school-1" "user-1" "user.disabled" "user-2" none) db.audits))
unfolding fluenthub.Prelude.exists_where disable fluenthub.Users.Store.holds_role count_where
reactivate-disable_example =
    reactivate-disable no_faults 20 "school-1" "user-1" "user-1" "user-2" db refl disabled_test
