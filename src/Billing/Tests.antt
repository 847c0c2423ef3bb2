-- ===== src/Billing/Tests.antt =====
-- Runs of the billing definitions on concrete data.
use mathlib.Core.List.Perm
use fluenthub.Prelude.{
  ltb, ℕ, ◌+◌, ◌*◌, ◌≤◌, String, ◌≡◌, ◌≢◌, refl, ◌⊎◌, Bool, true, false, Option, none, some, List,
  [], ◌∷◌, ◌++◌, All, length, insert, ◌==◌, eqb,
}
use fluenthub.Prelude.Int.{pos}
use fluenthub.Prelude.Action.{ok, err, database, no_faults}
use fluenthub.Billing.Provider.{empty_invoice, BillingProvider}
use fluenthub.Billing.Provider.Cents.{marshal_cents, marshal_cents_exact, IsDigit, read_after}
use fluenthub.Billing.Store.{Db, InvoiceRow}
use fluenthub.Billing.Status.{payment_status}
use fluenthub.Billing.Status.Order.{issued, later, rank, text, desired, payment_status_is_later}
use fluenthub.Billing.Status.Sequence.{Event, settle, settle-perm}
use fluenthub.Billing.Service.{AsaasWebhookEvent, process_asaas_webhook}
use fluenthub.Billing.Service.Webhook.{process_asaas_webhook_idem, cancelled_is_final}

abbrev pub asaas : BillingProvider
asaas = record {
  name = "asaas";
  ensure_customer = λ customer. ok "cus_000001";
  create_invoice = λ invoice.
      ok (record invoice {
        provider = "asaas";
        provider_reference = "pay_000002";
        status = "issued";
      });
  get_invoice = λ reference. ok (record empty_invoice { status = "paid" });
  cancel_invoice = λ reference. ok (record empty_invoice { status = "cancelled" });
}

abbrev pub invoice_row : String → InvoiceRow
invoice_row status = record {
  id = "invoice-1";
  school_id = "school-1";
  student_id = "student-1";
  enrollment_id = none;
  description = "Tuition";
  amount_cents = pos 12305;
  due_date = 100;
  status = status;
  provider = "asaas";
  provider_reference = some "pay_000001";
  boleto_url = none;
  boleto_barcode = none;
  issued_at = some 1;
  paid_at = none;
  cancelled_at = none;
  synced_at = none;
}

abbrev pub db_with : String → Db
db_with status = record {
  users =
      record {
        id = "student-1";
        school_id = "school-1";
        name = "Ana";
        email = "ana@example.com";
        active = true;
      }
      ∷ [];
  accounts = [];
  invoices = invoice_row status ∷ [];
  payments = [];
  events = [];
  audits = [];
  runs = [];
}

abbrev pub event : String → AsaasWebhookEvent
event type = record {
  id = "evt_000001";
  event = type;
  date_created = "2026-01-02 03:04:05";
  payment_id = "pay_000001";
  payment_status = "RECEIVED";
}

-- A received payment pays an issued invoice, with one payment.
received_test :
    (process_asaas_webhook asaas no_faults 7 (event "PAYMENT_RECEIVED") (db_with "issued")).0
    ≡ ok tt
unfolding process_asaas_webhook fluenthub.Prelude.exists_where fluenthub.Prelude.find_where
    payment_status fluenthub.Billing.Status.desired_status
received_test = refl

process_asaas_webhook_idem_example :
    let db' =
      (process_asaas_webhook asaas no_faults 7 (event "PAYMENT_RECEIVED") (db_with "issued")).1 in
    (process_asaas_webhook asaas no_faults 9 (event "PAYMENT_DELETED") db').1 ≡ db'
process_asaas_webhook_idem_example =
    process_asaas_webhook_idem asaas no_faults no_faults 7 9 (event "PAYMENT_RECEIVED")
      (event "PAYMENT_DELETED") (db_with "issued") refl received_test

failed_test :
    (process_asaas_webhook asaas (λ k. eqb k 4) 7 (event "PAYMENT_RECEIVED") (db_with "issued")).0
    ≡ err database
unfolding process_asaas_webhook fluenthub.Prelude.exists_where fluenthub.Prelude.find_where
    payment_status fluenthub.Billing.Status.desired_status
failed_test = refl

cancelled_is_final_example :
    let db' =
      (process_asaas_webhook asaas no_faults 7
        (event "PAYMENT_RECEIVED")
        (db_with "cancelled")).1 in
    (db'.invoices ≡ invoice_row "cancelled" ∷ []) × (db'.payments ≡ [])
unfolding fluenthub.Prelude.find_where
cancelled_is_final_example =
    cancelled_is_final asaas no_faults 7 (event "PAYMENT_RECEIVED") (db_with "cancelled")
      (invoice_row "cancelled") refl refl

abbrev paid_event : Event
paid_event = ("PAYMENT_RECEIVED", "RECEIVED")

abbrev overdue_event : Event
overdue_event = ("PAYMENT_OVERDUE", "OVERDUE")

settle-perm_example :
    settle "issued" (paid_event ∷ overdue_event ∷ [])
    ≡ settle "issued" (overdue_event ∷ paid_event ∷ [])
settle-perm_example = settle-perm issued (Perm.swap overdue_event paid_event [])

payment_status_is_later_example : payment_status "issued" "PAYMENT_RECEIVED" "RECEIVED" ≡ (
  text (later issued (desired "PAYMENT_RECEIVED" "RECEIVED")),
  ltb 1 (rank (desired "PAYMENT_RECEIVED" "RECEIVED")),
)
payment_status_is_later_example = payment_status_is_later issued "PAYMENT_RECEIVED" "RECEIVED"

marshal_cents_exact_example :
    (whole : List ℕ) × (cents : List ℕ) × (marshal_cents (pos 12305) ≡ ok (whole ++ 46 ∷ cents))
    × All IsDigit whole
    × All IsDigit cents
    × (length cents ≡ 2)
    × (read_after 0 whole * 100 + read_after 0 cents ≡ 12305)
marshal_cents_exact_example = marshal_cents_exact 12305
