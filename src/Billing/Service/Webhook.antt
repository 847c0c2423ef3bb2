-- ===== src/Billing/Service/Webhook.antt =====
-- The webhook as a client of the provider sees it: a delivery is whole or nothing, and a second
-- delivery of an event does nothing.
use fluenthub.Prelude.{
  String, ◌≡◌, refl, Bool, true, false, some, ◌==◌, eq_refl, arith, Option-cases, Bool-cases, inl,
  inr,
}
use fluenthub.Prelude.Action.{
  Error, ok, err, Faults, transaction_atomic, transaction-ok, transaction_keeps,
}
use fluenthub.Prelude.Tables.{exists_where-insert_new, exists_where-update}
use fluenthub.Billing.Provider.{Time, BillingProvider}
use fluenthub.Billing.Status.{payment_status, guard_transition}
use fluenthub.Billing.Store.{Db, InvoiceRow, EventRow, has_event, find_invoice}
use fluenthub.Billing.Service.{
  AsaasWebhookEvent, process_asaas_webhook, process_new, deliver, event_row, add_event,
  update_invoice, mark_processed, apply_invoice_status,
}

module _ (provider : BillingProvider) (faults : Faults) (now : Time) (event : AsaasWebhookEvent)
    (db : Db) where
  -- A delivery that fails leaves the whole database as it was, whichever call of it failed.
  pub process_asaas_webhook_atomic :
      (e : Error)
      → (process_asaas_webhook provider faults now event db).0 ≡ err e
      → (process_asaas_webhook provider faults now event db).1 ≡ db
  unfolding process_asaas_webhook
  process_asaas_webhook_atomic e h =
      ground (arith, transaction_atomic (faults 0) (faults 7) (deliver faults now event) db e)

  known_deliver : has_event event.id db.events ≡ true → (deliver faults now event db).1 ≡ db
  unfolding deliver
  known_deliver h = ground arith

  -- An event that is known changes nothing.
  known_event :
      has_event event.id db.events ≡ true
      → (process_asaas_webhook provider faults now event db).1 ≡ db
  unfolding process_asaas_webhook
  known_event h = ground (arith, known_deliver h)

module _ (faults : Faults) (now : Time) (event : AsaasWebhookEvent) where
  update_invoice-keeps_events :
      (row : InvoiceRow) (move : String × Bool) (db : Db)
      → (update_invoice faults now event row move db).1.events ≡ db.events
  unfolding apply_invoice_status
  update_invoice-keeps_events row move db = ground arith

  mark_processed-has_event :
      (id : String) (db : Db)
      → has_event id (mark_processed now event.id db).events ≡ has_event id db.events
  mark_processed-has_event id db =
      exists_where-update (λ e. e.event_id == id) (λ e. e.event_id == event.id)
        (λ e. record e { processed_at = some now }) db.events (λ e. refl)

  process_new-has_event :
      (id : String) (db : Db)
      → has_event id (process_new faults now event db).1.events ≡ has_event id db.events
  unfolding process_new
  process_new-has_event id db = elim (Option-cases (find_invoice event.payment_id db)) [
    | inl missing ↦ ground arith
    | inr (row, e) ↦ ground (
      arith,
      update_invoice-keeps_events row (payment_status row.status event.event event.payment_status)
          db,
      mark_processed-has_event id
          (update_invoice faults now event row
            (payment_status row.status event.event event.payment_status) db).1,
    )
  ]

  -- A delivery that succeeds has recorded its event.
  deliver-has_event :
      (db : Db)
      → (deliver faults now event db).0 ≡ ok tt
      → has_event event.id (deliver faults now event db).1.events ≡ true
  unfolding deliver
  deliver-has_event db h = ground (
    arith,
    process_new-has_event event.id (add_event event db),
    exists_where-insert_new (λ (e : EventRow). e.event_id == event.id) (event_row event) db.events
        (eq_refl event.id),
  )

process-has_event :
    (provider : BillingProvider) (faults : Faults) (now : Time) (event : AsaasWebhookEvent)
    (db : Db)
    → (process_asaas_webhook provider faults now event db).0 ≡ ok tt
    → has_event event.id (process_asaas_webhook provider faults now event db).1.events ≡ true
unfolding process_asaas_webhook
process-has_event provider faults now event db h = ground (
  arith,
  transaction-ok (faults 0) (faults 7) (deliver faults now event) db tt,
  deliver-has_event faults now event db,
)

-- Once a delivery of an event has succeeded, any further delivery of an event with its id, whatever it
-- carries, at any time and whichever of its calls fail, leaves the database as the first one left it.
pub process_asaas_webhook_idem :
    (provider : BillingProvider) (faults faults' : Faults) (now now' : Time)
    (event event' : AsaasWebhookEvent) (db : Db)
    → event'.id ≡ event.id
    → (process_asaas_webhook provider faults now event db).0 ≡ ok tt
    → let db' = (process_asaas_webhook provider faults now event db).1 in
      (process_asaas_webhook provider faults' now' event' db').1 ≡ db'
process_asaas_webhook_idem provider faults faults' now now' event event' db same h =
    known_event provider faults' now' event' (process_asaas_webhook provider faults now event db).1
      (rw same (process-has_event provider faults now event db h))

-- What holds before a delivery, and after its transaction if that succeeds, holds after it.
pub process_keeps :
    (P : Db → Type 0) (provider : BillingProvider) (faults : Faults) (now : Time)
    (event : AsaasWebhookEvent) (db : Db)
    → P db
    → ((a : Unit {0}) → (deliver faults now event db).0 ≡ ok a → P (deliver faults now event db).1)
    → P (process_asaas_webhook provider faults now event db).1
unfolding process_asaas_webhook
process_keeps P provider faults now event db old new =
    elim (Bool-cases (provider.name == "asaas")) [
      | inl e ↦
          rw e (transaction_keeps P (faults 0) (faults 7) (deliver faults now event) db old new)
      | inr e ↦ rw e old
    ]

cancelled_stays : (e p : String) → payment_status "cancelled" e p ≡ ("cancelled", false)
unfolding payment_status guard_transition
cancelled_stays e p = refl

abbrev SameMoney : Db → Db → Type 0
SameMoney db d = (d.invoices ≡ db.invoices) × (d.payments ≡ db.payments)

deliver_cancelled :
    (faults : Faults) (now : Time) (event : AsaasWebhookEvent) (db : Db) (row : InvoiceRow)
    → find_invoice event.payment_id db ≡ some row
    → row.status ≡ "cancelled"
    → SameMoney db (deliver faults now event db).1
unfolding deliver process_new
deliver_cancelled faults now event db row found final =
    ground (arith, cancelled_stays event.event event.payment_status)

-- A cancelled invoice is final: a delivery that is about it changes no invoice and records no payment,
-- whatever the event says.
pub cancelled_is_final :
    (provider : BillingProvider) (faults : Faults) (now : Time) (event : AsaasWebhookEvent)
    (db : Db) (row : InvoiceRow)
    → find_invoice event.payment_id db ≡ some row
    → row.status ≡ "cancelled"
    → let db' = (process_asaas_webhook provider faults now event db).1 in
      (db'.invoices ≡ db.invoices) × (db'.payments ≡ db.payments)
cancelled_is_final provider faults now event db row found final =
    process_keeps (SameMoney db) provider faults now event db (refl, refl)
      (λ a h. deliver_cancelled faults now event db row found final)
