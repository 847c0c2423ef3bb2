-- ===== src/Billing/Service/Create/Laws.antt =====
-- What `Create` leaves in the database, when it succeeds and when it fails.
use fluenthub.Prelude.{
  ◌≤◌, String, ◌≡◌, ap, sym, ◌∙◌, false, ◌&&◌, none, some, ◌≢◌, ◌==◌, eq_iff, arith, Option-cases,
  inl, inr, find_where, insert,
}
use fluenthub.Prelude.Text.{len}
use fluenthub.Prelude.Int.{pos, ◌≤ℤ◌}
use fluenthub.Prelude.Action.{Error, ok, err, Faults, Result-cases}
use fluenthub.Billing.Provider.{Invoice, empty_invoice, BillingProvider}
use fluenthub.Billing.Store.{Db, UserRow, invoice_created}
use fluenthub.Billing.Service.Create.{
  CreateInvoiceInput, is_incomplete, find_student, customer_reference, invoice_row, audit_row,
  store_invoice, request, create,
}
use fluenthub.Billing.Service.Create.References.{
  SameButAccounts, IsReference, customer_reference-SameButAccounts, customer_reference-IsReference,
}

-- What `Create` asks of its input.
abbrev pub IsComplete : CreateInvoiceInput → Type 0
IsComplete input =
    (input.student_id ≢ "")
    × (3 ≤ len input.description)
    × (pos 1 ≤ℤ input.amount_cents)
    × (input.due_date ≢ 0)

is_incomplete-IsComplete :
    (input : CreateInvoiceInput) → is_incomplete input ≡ false → IsComplete input
unfolding is_incomplete
is_incomplete-IsComplete input h =
    (λ e. ground (arith, eq_iff input.student_id ""), ground arith, ground arith, λ e. ground arith)

module _ (provider : BillingProvider) (faults : Faults) (school_id actor_id : String) where
  store_invoice-ok :
      (invoice invoice' : Invoice) (db : Db)
      → (store_invoice faults school_id actor_id invoice db).0 ≡ ok invoice'
      → (invoice' ≡ invoice)
        × ((store_invoice faults school_id actor_id invoice db).1 ≡ record db {
          invoices = insert (invoice_row school_id invoice) db.invoices;
          audits = insert (audit_row school_id actor_id invoice) db.audits;
        })
  unfolding store_invoice
  store_invoice-ok invoice invoice' db h = ground arith

  store_invoice_atomic :
      (invoice : Invoice) (e : Error) (db : Db)
      → (store_invoice faults school_id actor_id invoice db).0 ≡ err e
      → (store_invoice faults school_id actor_id invoice db).1 ≡ db
  unfolding store_invoice
  store_invoice_atomic invoice e db h = ground arith

  -- When a creation fails, at whatever call, nothing has changed but the accounts of the customers: there
  -- is no invoice and no audit event.
  pub create_fails :
      (uuid : String) (input : CreateInvoiceInput) (e : Error) (db : Db)
      → (create provider faults uuid school_id actor_id input db).0 ≡ err e
      → SameButAccounts db (create provider faults uuid school_id actor_id input db).1
  unfolding create
  create_fails uuid input e db h =
      elim (Option-cases (find_student school_id input.student_id db)) [
        | inl missing ↦ ground arith
        | inr (student, found) ↦
            let known = record student { id = input.student_id } in
            let r = customer_reference provider faults school_id known db in
            elim (Result-cases r.0) [
              | inl (reference, e1) ↦
                  elim (Result-cases
                    (provider.create_invoice (request uuid school_id reference input))) [
                      | inl (invoice, e2) ↦ ground (
                        arith,
                        customer_reference-SameButAccounts provider faults school_id known db,
                        store_invoice_atomic invoice e r.1,
                      )
                      | inr (f, e2) ↦ ground (
                        arith,
                        customer_reference-SameButAccounts provider faults school_id known db,
                      )
                    ]
              | inr (f, e1) ↦
                  ground
                    (arith, customer_reference-SameButAccounts provider faults school_id known db)
            ]
      ]

  -- When a creation succeeds, its input is complete and its student is an active user of the school. The
  -- customer's reference is that of the student's active account, or what the provider answered for the
  -- student. The provider was asked for the invoice of the input with that reference, and the invoice that it
  -- answered is returned: this one is added under the school, not paid and not cancelled, with one audit
  -- event of the actor. Nothing else has changed but the accounts.
  pub create_succeeds :
      (uuid : String) (input : CreateInvoiceInput) (invoice : Invoice) (db : Db)
      → (create provider faults uuid school_id actor_id input db).0 ≡ ok invoice
      → let db' = (create provider faults uuid school_id actor_id input db).1 in
        IsComplete input
        × ((student : UserRow) × (reference : String) × (find_where
                (λ u. u.id == input.student_id && u.school_id == school_id && u.active)
                db.users
              ≡ some student)
            × IsReference provider school_id input.student_id student.name student.email reference
                db db'
            × (provider.create_invoice (record empty_invoice {
              id = uuid;
              school_id = school_id;
              student_id = input.student_id;
              customer_reference = reference;
              enrollment_id = input.enrollment_id;
              description = input.description;
              amount_cents = input.amount_cents;
              due_date = input.due_date;
            })
                ≡ ok invoice)
            × (db' ≡ record db {
              accounts = db'.accounts;
              invoices =
                  insert
                    (record {
                      id = invoice.id;
                      school_id = school_id;
                      student_id = invoice.student_id;
                      enrollment_id = invoice.enrollment_id;
                      description = invoice.description;
                      amount_cents = invoice.amount_cents;
                      due_date = invoice.due_date;
                      status = invoice.status;
                      provider = invoice.provider;
                      provider_reference = some invoice.provider_reference;
                      boleto_url = invoice.boleto_url;
                      boleto_barcode = invoice.boleto_barcode;
                      issued_at = invoice.issued_at;
                      paid_at = none;
                      cancelled_at = none;
                      synced_at = none;
                    })
                    db.invoices;
              audits =
                  insert
                    (record {
                      school_id = school_id;
                      user_id = some actor_id;
                      action = invoice_created invoice.amount_cents invoice.provider;
                      resource_id = invoice.id;
                    })
                    db.audits;
            }))
  unfolding create
  create_succeeds uuid input invoice db h =
      elim (Option-cases (find_student school_id input.student_id db)) [
        | inl missing ↦ ground arith
        | inr (student, found) ↦
            let known = record student { id = input.student_id } in
            let r = customer_reference provider faults school_id known db in
            elim (Result-cases r.0) [
              | inl (reference, e1) ↦
                  elim (Result-cases
                    (provider.create_invoice (request uuid school_id reference input))) [
                      | inl (issued, e2) ↦
                          let complete : is_incomplete input ≡ false = ground arith in
                          let (same, stored) : (invoice ≡ issued)
                              × ((create provider faults uuid school_id actor_id input db).1
                                  ≡ record r.1 {
                                    invoices = insert (invoice_row school_id issued) r.1.invoices;
                                    audits =
                                        insert (audit_row school_id actor_id issued) r.1.audits;
                                  }) =
                            ground (arith, store_invoice-ok issued invoice r.1) in
                          (
                            is_incomplete-IsComplete input complete,
                            (
                              student,
                              reference,
                              found,
                              rw stored (
                                  customer_reference-IsReference provider faults school_id known
                                    reference db e1),
                              e2 ∙ ap ok (sym same),
                              ground (
                                arith,
                                customer_reference-SameButAccounts provider faults school_id known
                                    db,
                              ),
                            ),
                          )
                      | inr (f, e2) ↦ ground arith
                    ]
              | inr (f, e1) ↦ ground arith
            ]
      ]
