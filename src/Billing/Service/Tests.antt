-- ===== src/Billing/Service/Tests.antt =====
-- Runs of the service of invoices, of its reconciliation and of the handler.
use fluenthub.Prelude.{
  update_where, find_where, ◌&&◌, eq_iff, arith, ℕ, ◌*◌, if◌then◌else◌, ◌+◌, ◌≤◌, String, ◌≡◌, ◌≢◌,
  refl, ◌⊎◌, inl, inr, Bool, true, false, Option, none, some, List, [], ◌∷◌, All, insert, ◌==◌, eqb,
  ltb,
}
use fluenthub.Prelude.Int.{pos}
use fluenthub.Prelude.Action.{ok, err, Error, database, remote, no_faults}
use fluenthub.Billing.Provider.{Invoice, empty_invoice, BillingProvider}
use fluenthub.Billing.Store.{UserRow, invoice_created}
use fluenthub.Billing.Status.{payment_status}
use fluenthub.Billing.Service.{AsaasWebhookEvent, process_asaas_webhook}
use fluenthub.Billing.Service.Create.{CreateInvoiceInput, create, customer_reference}
use fluenthub.Billing.Service.Create.References.{IsReference}
use fluenthub.Billing.Service.Create.Laws.{create_succeeds, IsComplete}
use fluenthub.Billing.Service.Payments.{IsConsistent, process_asaas_webhook-IsConsistent}
use fluenthub.Billing.Service.Payments.Reconciled.{reconcile-IsConsistent}
use fluenthub.Billing.Service.Reconcile.{Candidate, reconcile, reconcile_round, no_result}
use fluenthub.Billing.Service.Reconcile.Rounds.{
  HasStatus, Moved, Lost, reconcile_round_overwrites, reconcile_round-Moved,
}
use fluenthub.Billing.Webhook.{
  Response, received, unauthorized, asaas_webhook_handler, asaas_webhook_handler_atomic,
  asaas_webhook_handler-received, Handled,
}
use fluenthub.Billing.Tests.{asaas, invoice_row, db_with, event}

process_asaas_webhook-IsConsistent_example :
    IsConsistent
      (process_asaas_webhook asaas no_faults 7 (event "PAYMENT_RECEIVED") (db_with "issued")).1
process_asaas_webhook-IsConsistent_example =
    process_asaas_webhook-IsConsistent asaas no_faults 7 (event "PAYMENT_RECEIVED")
      (db_with "issued") (inl refl, tt)

reconcile-IsConsistent_example :
    IsConsistent
      (reconcile asaas no_faults (λ k. no_faults) 7 "run-1" (pos 10) (db_with "issued")).2
reconcile-IsConsistent_example =
    reconcile-IsConsistent asaas 7 no_faults (λ k. no_faults) "run-1" (pos 10) (db_with "issued")
      (inl refl, tt)

-- What was read of the invoice before the loop; by now it is cancelled.
abbrev item : Candidate
item = record {
  id = "invoice-1";
  school_id = "school-1";
  reference = "pay_000001";
  status = "issued";
  amount = pos 12305;
}

reconcile_round_overwrites_example :
    let (r, db') = reconcile_round asaas no_faults 7 item no_result (db_with "cancelled") in
    (r ≡ record { inspected = 1; updated = 1; failures = 0 })
    × All (HasStatus "invoice-1" "paid") db'.invoices
unfolding payment_status fluenthub.Billing.Status.desired_status
reconcile_round_overwrites_example =
    reconcile_round_overwrites asaas 7 item no_result (db_with "cancelled")
      (record empty_invoice { status = "paid" }) "paid" refl refl

-- The commit of a round fails.
reconcile_round_lost_test :
    reconcile_round asaas (λ k. eqb k 6) 7 item no_result (db_with "issued")
    ≡ (record { inspected = 1; updated = 1; failures = 1 }, db_with "issued")
unfolding reconcile_round payment_status fluenthub.Billing.Status.desired_status
    fluenthub.Billing.Service.apply_invoice_status
reconcile_round_lost_test = refl

reconcile_round-Moved_example :
    let (r, db') = reconcile_round asaas (λ k. eqb k 6) 7 item no_result (db_with "issued") in
    (r.inspected ≡ 1)
    × (((remote : Invoice) × (next : String) × (changed : Bool) × (asaas.get_invoice "pay_000001"
            ≡ ok remote)
          × (payment_status "issued" "PAYMENT_RECONCILED" remote.status ≡ (next, changed))
          × (Moved 7 item no_result (db_with "issued") r db' next changed
              ⊎ Lost (λ k. eqb k 6) no_result (db_with "issued") r db' changed))
        ⊎ ((e : Error) × (asaas.get_invoice "pay_000001" ≡ err e)
            × (r.failures ≡ 1)
            × (r.updated ≡ 0)
            × (db' ≡ record (db_with "issued") {
              invoices =
                  update_where
                    (λ i. i.id == "invoice-1")
                    (λ i. record i { synced_at = some 7 })
                    (invoice_row "issued" ∷ []);
            })))
reconcile_round-Moved_example =
    reconcile_round-Moved asaas (λ k. eqb k 6) 7 item no_result (db_with "issued")

abbrev input : CreateInvoiceInput
input = record {
  student_id = "student-1";
  description = "Tuition of May";
  enrollment_id = none;
  amount_cents = pos 25000;
  due_date = 100;
}

-- The invoice as the provider of the tests issues it.
abbrev issued_invoice : Invoice
issued_invoice = record empty_invoice {
  id = "invoice-2";
  school_id = "school-1";
  student_id = "student-1";
  customer_reference = "cus_000001";
  description = "Tuition of May";
  amount_cents = pos 25000;
  due_date = 100;
  status = "issued";
  provider = "asaas";
  provider_reference = "pay_000002";
}

created_test :
    (create asaas no_faults "invoice-2" "school-1" "admin-1" input (db_with "issued")).0
    ≡ ok issued_invoice
unfolding create fluenthub.Prelude.find_where
created_test = refl

create_succeeds_example :
    let db' =
      (create asaas no_faults "invoice-2" "school-1" "admin-1" input (db_with "issued")).1 in
    IsComplete input
    × ((student : UserRow) × (reference : String) × (find_where
            (λ u. u.id == "student-1" && u.school_id == "school-1" && u.active)
            (db_with "issued").users
          ≡ some student)
        × IsReference asaas "school-1" "student-1" student.name student.email reference
            (db_with "issued")
            db'
        × (asaas.create_invoice (record empty_invoice {
          id = "invoice-2";
          school_id = "school-1";
          student_id = "student-1";
          customer_reference = reference;
          enrollment_id = none;
          description = "Tuition of May";
          amount_cents = pos 25000;
          due_date = 100;
        })
            ≡ ok issued_invoice)
        × (db' ≡ record (db_with "issued") {
          accounts = db'.accounts;
          invoices =
              insert
                (record {
                  id = "invoice-2";
                  school_id = "school-1";
                  student_id = "student-1";
                  enrollment_id = none;
                  description = "Tuition of May";
                  amount_cents = pos 25000;
                  due_date = 100;
                  status = "issued";
                  provider = "asaas";
                  provider_reference = some "pay_000002";
                  boleto_url = none;
                  boleto_barcode = none;
                  issued_at = none;
                  paid_at = none;
                  cancelled_at = none;
                  synced_at = none;
                })
                (invoice_row "issued" ∷ []);
          audits =
              insert
                (record {
                  school_id = "school-1";
                  user_id = some "admin-1";
                  action = invoice_created (pos 25000) "asaas";
                  resource_id = "invoice-2";
                })
                [];
        }))
create_succeeds_example =
    create_succeeds asaas no_faults "school-1" "admin-1" "invoice-2" input issued_invoice
      (db_with "issued") created_test

-- The commit fails.
uncommitted_test :
    (create asaas (λ k. eqb k 6) "invoice-2" "school-1" "admin-1" input (db_with "issued")).0
    ≡ err database
unfolding create fluenthub.Prelude.find_where
uncommitted_test = refl

abbrev student : UserRow
student = record {
  id = "student-1";
  school_id = "school-1";
  name = "Ana";
  email = "ana@example.com";
  active = true;
}

abbrev offline : BillingProvider
offline = record asaas { ensure_customer = λ customer. err remote }

known_customer_test :
    (customer_reference asaas no_faults "school-1" student (db_with "issued")).0 ≡ ok "cus_000001"
unfolding customer_reference fluenthub.Prelude.find_where
known_customer_test = refl

abbrev reference : String
reference = "cus_000001"

reference_test : reference ≢ ""
reference_test = λ e. ground (arith, eq_iff reference "")

-- A digest and a decoder for the tests.
abbrev digest : String → String
digest token = token

abbrev decode : ℕ → String → Option AsaasWebhookEvent
decode limit body = if body == "{}" then none else some (event body)

wrong_token_test :
    (asaas_webhook_handler digest decode "token"
      (process_asaas_webhook asaas no_faults 7)
      "guess"
      "PAYMENT_RECEIVED"
      (db_with "issued")).0
    ≢ received
unfolding asaas_webhook_handler
wrong_token_test = λ e. cc

handled_test :
    (asaas_webhook_handler digest decode "token"
      (process_asaas_webhook asaas no_faults 7)
      "token"
      "PAYMENT_RECEIVED"
      (db_with "issued")).0
    ≡ received
unfolding asaas_webhook_handler fluenthub.Billing.Webhook.valid_asaas_event process_asaas_webhook
    fluenthub.Prelude.exists_where fluenthub.Prelude.find_where payment_status
    fluenthub.Billing.Status.desired_status
handled_test = refl

asaas_webhook_handler-received_example :
    (digest "token" ≡ digest "token")
    × Handled asaas no_faults 7
        (db_with "issued")
        (decode (256 * 1024) "PAYMENT_RECEIVED")
        (asaas_webhook_handler digest decode "token"
          (process_asaas_webhook asaas no_faults 7)
          "token"
          "PAYMENT_RECEIVED"
          (db_with "issued")).1
asaas_webhook_handler-received_example =
    asaas_webhook_handler-received digest decode "token" "token" "PAYMENT_RECEIVED" asaas no_faults
      7 (db_with "issued") handled_test
