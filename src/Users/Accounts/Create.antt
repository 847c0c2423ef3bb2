-- ===== src/Users/Accounts/Create.antt =====
-- Creating an account, and signing in with it.
use fluenthub.Prelude.{
  String, ◌≡◌, ◌⊎◌, inl, inr, ap, ◌∙◌, true, false, Option, none, some, ◌==◌, eq_refl, ltb, arith,
  Option-cases, find_where, insert, exists_where, if◌then◌else◌,
}
use fluenthub.Prelude.Text.{trim_space, len}
use fluenthub.Prelude.Tables.{find_where-insert}
use fluenthub.Prelude.Action.{Result, ok, is_ok, Faults, no_faults, Result-cases}
use fluenthub.Auth.{Crypto, Token, hash_password, new_token}
use fluenthub.Users.Store.{Time, UserRow, RoleRow, Db}
use fluenthub.Users.Sessions.{SessionUser, find_email, authenticate, with_access, session_user}
use fluenthub.Users.Sessions.Access.{with_access_keeps}
use fluenthub.Users.Accounts.{CreateInput, PublicUser, create, is_role, audit}

module _ (crypto : Crypto) (parse_address : String → Option String) (to_lower : String → String)
    (faults : Faults) (id school_id actor_id : String) (input : CreateInput) (db : Db) where
  -- The row of a new account.
  abbrev created : String → String → UserRow
  created address hash = record {
    id = id;
    school_id = school_id;
    name = trim_space input.name;
    email = to_lower address;
    password_hash = hash;
    phone = input.phone;
    active = true;
    last_login_at = none;
    disabled_at = none;
  }

  -- An account is created only with a name, an e-mail address and a password that are valid, and with a role
  -- of the school: one active user, one assignment of the role and one audit event. Else nothing changes.
  pub create_lem :
      let (r, db') = create crypto parse_address to_lower faults id school_id actor_id input db in
      ((address : String) × (hash : String) × (role : RoleRow) × (user : PublicUser) × (r ≡ ok user)
        × (user.id ≡ id)
        × (user.email ≡ to_lower address)
        × (ltb (len (trim_space input.name)) 2 ≡ false)
        × (parse_address input.email ≡ some address)
        × (hash_password crypto input.password ≡ ok hash)
        × (find_where (is_role school_id input.role_code) db.roles ≡ some role)
        × (db'.users ≡ insert (created address hash) db.users)
        × (db'.user_roles ≡ insert (record { user_id = id; role_id = role.id }) db.user_roles)
        × (db'.roles ≡ db.roles)
        × (db'.sessions ≡ db.sessions)
        × (db'.audits
            ≡ insert (audit school_id actor_id "user.created" id (some input.role_code)) db.audits))
      ⊎ ((is_ok r ≡ false) × (db' ≡ db))
  unfolding create
  create_lem = elim (Option-cases (parse_address input.email)) [
    | inl missing ↦ inr (ground arith)
    | inr (address, parsed) ↦ elim (Result-cases (hash_password crypto input.password)) [
      | inl (hash, hashed) ↦
          elim (Option-cases (find_where (is_role school_id input.role_code) db.roles)) [
            | inl absent ↦ inr (ground arith)
            | inr (role, found) ↦
                let run =
                  create crypto parse_address to_lower faults id school_id actor_id input db in
                elim (Result-cases run.0) [
                  | inl (user, done) ↦ inl (
                    address,
                    hash,
                    role,
                    user,
                    done,
                    ground arith,
                    ground arith,
                    ground arith,
                    parsed,
                    hashed,
                    found,
                    ground arith,
                    ground arith,
                    ground arith,
                    ground arith,
                    ground arith,
                  )
                  | inr (e, failed) ↦ inr (ground arith)
                ]
          ]
      | inr (e, failed) ↦ inr (ground arith)
    ]
  ]

  -- With a bcrypt that accepts the password of each hash that it makes, a new account can be signed in to at
  -- once with its password and its e-mail, in any case that the database takes for the same, if no other
  -- account has that e-mail.
  pub create-authenticate :
      (lower : String → String) (now : Time) (random : Result String) (email : String)
      (token : Token) (user : PublicUser)
      → ((password hash : String)
          → crypto.bcrypt password ≡ ok hash
          → crypto.accepts hash password ≡ true)
      → new_token crypto random ≡ ok token
      → let (r, db') = create crypto parse_address to_lower faults id school_id actor_id input db in
        r ≡ ok user
        → lower user.email ≡ lower email
        → exists_where (λ (row : UserRow). lower row.email == lower email) db.users ≡ false
        → (signed : SessionUser) × ((authenticate crypto lower no_faults now random email
              input.password db').0
            ≡ ok (signed, token.raw))
          × (signed.id ≡ id)
          × (signed.school_id ≡ school_id)
          × (signed.email ≡ user.email)
  unfolding find_email hash_password authenticate
  create-authenticate lower now random email token user matches made done same fresh =
      let db' = (create crypto parse_address to_lower faults id school_id actor_id input db).1 in
      elim create_lem [
        | inl
              (
                address, hash, role, made_user, r, its_id, its_email, named, parsed, hashed,
                role_found, users, held, roles, sessions, audits,
              ) ↦
            let row = created address hash in
            let same_email : lower (to_lower address) ≡ lower email =
              ap lower (ground (arith, its_email, r)) ∙ same in
            let matched : (if lower (to_lower address) == lower email then some row else none)
                ≡ some row =
              rw same_email (ground (arith, eq_refl (lower email))) in
            let found : find_email lower email db' ≡ some row =
              ap (find_where (λ (x : UserRow). lower x.email == lower email)) users
              ∙ find_where-insert (λ (x : UserRow). lower x.email == lower email) row db.users fresh
              ∙ matched in
            let accepted : crypto.accepts hash input.password ≡ true =
              matches input.password hash (ground (arith, hashed)) in
            let run = authenticate crypto lower no_faults now random email input.password db' in
            let signed = with_access false (session_user row) run.1 in
            let (keeps_id, keeps_school, keeps_email) =
              with_access_keeps false (session_user row) run.1 in
            (
              signed,
              ground (arith, found, accepted),
              keeps_id,
              keeps_school,
              ground (arith, keeps_email),
            )
        | inr (failed, unchanged) ↦ ground (arith, failed)
      ]
