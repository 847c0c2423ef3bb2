-- ===== src/Billing/Service/Create/References.antt =====
-- The reference of a customer: where `Create` takes it from, and what it writes to the accounts.
use fluenthub.Prelude.{
  ◌⊎◌, String, ◌≡◌, refl, ap, ◌∙◌, Bool, true, false, ◌&&◌, some, List, [], ◌∷◌, ◌≢◌, ◌==◌, eq_refl,
  eq_iff, arith, Bool-cases, Option-cases, inl, inr, exists_where, update_where, find_where,
}
use fluenthub.Prelude.Action.{ok, Faults, Result-cases}
use fluenthub.Prelude.Tables.{find_where-insert}
use fluenthub.Billing.Provider.{BillingProvider}
use fluenthub.Billing.Store.{Db, UserRow, AccountRow}
use fluenthub.Billing.Service.Create.{
  coalesce, upsert_account, new_reference, known_reference, customer_reference,
}

-- Nothing has changed but the accounts.
abbrev pub SameButAccounts : Db → Db → Type 0
SameButAccounts db d = d ≡ record db { accounts = d.accounts }

known_reference-account :
    (fault : Bool) (school_id student_id reference : String) (db : Db)
    → reference ≢ ""
    → known_reference fault school_id student_id db ≡ reference
    → (account : AccountRow) × (find_where
          (λ a. a.school_id == school_id && a.student_id == student_id && a.active)
          db.accounts
        ≡ some account)
      × (account.customer_reference ≡ some reference)
known_reference-account fault school_id student_id reference db some_text h =
    elim (Option-cases (
      find_where
        (λ (a : AccountRow). a.school_id == school_id && a.student_id == student_id && a.active)
        db.accounts)) [
          | inl missing ↦ ground arith
          | inr (account, found) ↦ (account, found, ground arith)
        ]

-- The customer's reference: an active account has it and the accounts stay, or the provider gave it.
abbrev pub IsReference :
    BillingProvider → String → String → String → String → String → Db → Db → Type 0
IsReference provider school_id student_id name email reference db db' =
    ((reference ≢ "")
      × ((account : AccountRow) × (find_where
              (λ a. a.school_id == school_id && a.student_id == student_id && a.active) db.accounts
            ≡ some account)
          × (account.customer_reference ≡ some reference)
          × (db'.accounts ≡ db.accounts)))
    ⊎ (provider.ensure_customer (record { external_id = student_id; name = name; email = email })
        ≡ ok reference)

module _ (provider : BillingProvider) (faults : Faults) (school_id : String) where
  pub customer_reference-SameButAccounts :
      (student : UserRow) (db : Db)
      → SameButAccounts db (customer_reference provider faults school_id student db).1
  unfolding customer_reference
  customer_reference-SameButAccounts student db =
      elim (Result-cases (
        provider.ensure_customer
          (record { external_id = student.id; name = student.name; email = student.email }))) [
            | inl (r, e) ↦ ground arith
            | inr (f, e) ↦ ground arith
          ]

  pub customer_reference-IsReference :
      (student : UserRow) (reference : String) (db : Db)
      → (customer_reference provider faults school_id student db).0 ≡ ok reference
      → IsReference provider school_id student.id student.name student.email reference db
          (customer_reference provider faults school_id student db).1
  unfolding customer_reference new_reference
  customer_reference-IsReference student reference db h =
      let known = known_reference (faults 1) school_id student.id db in
      elim (Bool-cases (known == "")) [
        | inr text ↦
            let same : known ≡ reference = ground arith in
            let some_text : known ≢ "" = λ e. ground (arith, eq_iff known "") in
            let (account, found, has) =
              known_reference-account (faults 1) school_id student.id known db some_text refl in
            inl ((λ e. some_text (same ∙ e)), (account, found, has ∙ ap some same, rw text refl))
        | inl empty ↦
            inr
              (elim (Result-cases (
                provider.ensure_customer (record {
                  external_id = student.id;
                  name = student.name;
                  email = student.email;
                }))) [ inl (r, e) ↦ ground arith | inr (f, e) ↦ ground arith ])
      ]

-- The accounts after a customer was made.
module _ (school_id student_id reference : String) where
  abbrev is_account : AccountRow → Bool
  is_account a = a.school_id == school_id && a.student_id == student_id

  abbrev is_active_account : AccountRow → Bool
  is_active_account a = a.school_id == school_id && a.student_id == student_id && a.active

  abbrev renewed : AccountRow → AccountRow
  renewed a = record a { customer_reference = some reference; active = true }

  coalesce-update :
      (accounts : List AccountRow)
      → exists_where is_account accounts ≡ true
      → coalesce (find_where is_active_account (update_where is_account renewed accounts))
        ≡ reference
  unfolding exists_where find_where update_where
  coalesce-update [] h = cc
  coalesce-update (a ∷ accounts) h = ground (arith, coalesce-update accounts)

  no_account_no_active :
      (accounts : List AccountRow)
      → exists_where is_account accounts ≡ false
      → exists_where is_active_account accounts ≡ false
  unfolding exists_where
  no_account_no_active [] h = refl
  no_account_no_active (a ∷ accounts) h = ground (arith, no_account_no_active accounts)

  upsert_account-coalesce :
      (accounts : List AccountRow)
      → coalesce
          (find_where is_active_account (upsert_account school_id student_id reference accounts))
        ≡ reference
  unfolding upsert_account
  upsert_account-coalesce accounts = elim (Bool-cases (exists_where is_account accounts)) [
    | inl old ↦ rw old (coalesce-update accounts old)
    | inr new ↦ rw new (
        ground (
          arith,
          find_where-insert is_active_account
              (record {
                school_id = school_id;
                student_id = student_id;
                customer_reference = some reference;
                active = true;
              })
              accounts (no_account_no_active accounts new),
          eq_refl school_id,
          eq_refl student_id,
        ))
  ]

-- A customer is made at the provider once: when a reference has been obtained, the next invoice of the same
-- student takes it from the account, with no call of the provider, whichever provider that would be.
pub customer_reference_once :
    (provider provider' : BillingProvider) (faults faults' : Faults) (school_id : String)
    (student : UserRow) (reference : String) (db : Db)
    → reference ≢ ""
    → faults' 1 ≡ false
    → (customer_reference provider faults school_id student db).0 ≡ ok reference
    → let db' = (customer_reference provider faults school_id student db).1 in
      customer_reference provider' faults' school_id student db' ≡ (ok reference, db')
unfolding customer_reference new_reference
customer_reference_once provider provider' faults faults' school_id student reference db some_text
      answered h =
    elim (Result-cases (
      provider.ensure_customer
        (record { external_id = student.id; name = student.name; email = student.email }))) [
          | inl (r, e) ↦ ground (
            arith,
            upsert_account-coalesce school_id student.id r db.accounts,
            eq_iff reference "",
          )
          | inr (f, e) ↦ ground (arith, eq_iff reference "")
        ]
