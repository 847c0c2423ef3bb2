-- ===== src/Billing/Service.antt =====
-- backend/internal/billing/service.go. A number that `faults` takes counts the calls of the database
-- in the order of the source. A call that breaks a constraint of a table is a call that fails. The
-- time is that of the operation, and `uuid` comes from the generator.
pub mod Create
pub mod Webhook
pub mod Payments
pub mod Reconcile
mod Tests
use fluenthub.Prelude.{
  ℕ, String, ◌≡◌, Bool, true, false, ◌&&◌, ◌||◌, not, Option, none, some, List, [], ◌∷◌, ◌==◌,
  if◌then◌else◌, arith, update_where, insert,
}
use fluenthub.Prelude.Int.{ℤ}
use fluenthub.Prelude.Action.{
  Error, reason, database, Result, ok, err, Faults, Action, fail_if, query_row, or_fail, exec, when,
  transaction, ◌>>=◌, ◌>>◌,
}
use fluenthub.Billing.Provider.{Time, BillingProvider}
use fluenthub.Billing.Status.{payment_status}
use fluenthub.Billing.Store.{
  Db, InvoiceRow, PaymentRow, EventRow, invoice_webhook_updated, set_status, insert_payment,
  has_event, find_invoice,
}

-- AsaasWebhookEvent of webhook.go; `payment_id` and `payment_status` are the fields of its payment.
pub record AsaasWebhookEvent : Type 0 where
  pub id : String
  pub event : String
  pub date_created : String
  pub payment_id : String
  pub payment_status : String

unfoldable pub apply_invoice_status :
    Bool → Bool → Time → String → String → String → String → ℤ → Action Db (Unit {0})
apply_invoice_status update_fails insert_fails now invoice_id provider_reference current_status
      next_status amount_cents =
    do
      exec update_fails (λ db. record db {
        invoices = update_where (λ i. i.id == invoice_id) (set_status now next_status) db.invoices;
      })
      when (next_status == "paid" && not (current_status == "paid")) (
          exec insert_fails (λ db. record db {
            payments =
                insert_payment
                  (record {
                    invoice_id = invoice_id;
                    amount_cents = amount_cents;
                    provider_reference = provider_reference;
                    paid_at = now;
                  })
                  db.payments;
          }))

abbrev pub event_row : AsaasWebhookEvent → EventRow
event_row event = record {
  event_id = event.id;
  event_type = event.event;
  provider_reference = event.payment_id;
  processed_at = none;
}

abbrev pub add_event : AsaasWebhookEvent → Db → Db
add_event event db = record db { events = insert (event_row event) db.events }

-- `INSERT INTO asaas_webhook_events … ON CONFLICT(event_id) DO NOTHING`: was a row added?
abbrev pub insert_event : Bool → AsaasWebhookEvent → Action Db Bool
insert_event fault event db = (
  if fault then err database else ok (not (has_event event.id db.events)),
  if fault || has_event event.id db.events then db else add_event event db,
)

-- An invoice that the event changes: its status, and an audit event.
abbrev pub update_invoice :
    Faults → Time → AsaasWebhookEvent → InvoiceRow → String × Bool → Action Db (Unit {0})
update_invoice faults now event row (next_status, changed) = when changed do
  apply_invoice_status (faults 3) (faults 4) now row.id event.payment_id row.status next_status
      row.amount_cents
  exec (faults 5) (λ db. record db {
    audits =
        insert
          (record {
            school_id = row.school_id;
            user_id = none;
            action = invoice_webhook_updated event.id event.event row.status next_status;
            resource_id = row.id;
          })
          db.audits;
  })

abbrev pub mark_processed : Time → String → Db → Db
mark_processed now event_id db = record db {
  events =
      update_where (λ e. e.event_id == event_id) (λ e. record e { processed_at = some now })
        db.events;
}

-- What follows a first delivery.
unfoldable pub process_new : Faults → Time → AsaasWebhookEvent → Action Db (Unit {0})
unfolding apply_invoice_status
process_new faults now event = do
  row ←
      or_fail (query_row (faults 2) (find_invoice event.payment_id))
        (reason "provider invoice not found")
  update_invoice faults now event row (payment_status row.status event.event event.payment_status)
  exec (faults 6) (mark_processed now event.id)

-- A delivery inside its transaction: the event is recorded, and processed if it is new.
unfoldable pub deliver : Faults → Time → AsaasWebhookEvent → Action Db (Unit {0})
unfolding process_new
deliver faults now event = do
  added ← insert_event (faults 1) event
  when added (process_new faults now event)

unfoldable pub process_asaas_webhook :
    BillingProvider → Faults → Time → AsaasWebhookEvent → Action Db (Unit {0})
unfolding deliver
process_asaas_webhook provider faults now event = do
  fail_if (not (provider.name == "asaas"))
      (reason "Asaas webhook received while provider is disabled")
  transaction (faults 0) (faults 7) (deliver faults now event)
