-- ===== src/Billing/Service/Payments.antt =====
-- The invariant of the money: an invoice that is paid has a recorded payment. The webhook and the
-- reconciliation (in the child `Reconciled`) keep it, whichever of their calls fail.
pub mod Reconciled
use fluenthub.Prelude.{
  ◌⊎◌, ℕ, String, ◌≡◌, refl, Bool, true, false, ◌&&◌, ◌||◌, not, Option, none, some, List, [], ◌∷◌,
  ◌==◌, eq_refl, eq_iff, if◌then◌else◌, arith, Bool-cases, Option-cases, inl, inr, exists_where,
  update_where, insert, All,
}
use fluenthub.Prelude.Action.{Error, reason, Result, ok, err, Faults, ok_unit, when, ◌>>◌}
use fluenthub.Prelude.Tables.{
  exists_where-insert_old, exists_where-insert_new, exists_where_mono, All-update, All-map,
}
use fluenthub.Prelude.Int.{ℤ}
use fluenthub.Billing.Provider.{Time, BillingProvider}
use fluenthub.Billing.Status.{payment_status, guard_transition, desired_status}
use fluenthub.Billing.Store.{
  Db, InvoiceRow, EventRow, PaymentRow, insert_payment, set_status, has_event, find_invoice,
}
use fluenthub.Billing.Service.{
  AsaasWebhookEvent, process_asaas_webhook, process_new, deliver, add_event, update_invoice,
  apply_invoice_status,
}
use fluenthub.Billing.Service.Webhook.{process_keeps}

abbrev pub has_payment : String → List PaymentRow → Bool
has_payment id = exists_where (λ p. p.invoice_id == id)

abbrev IsCovered : List PaymentRow → InvoiceRow → Type 0
IsCovered payments i = ((i.status == "paid") ≡ false) ⊎ (has_payment i.id payments ≡ true)

-- Every paid invoice has a payment.
abbrev pub IsConsistent : Db → Type 0
IsConsistent db = All (IsCovered db.payments) db.invoices

-- A change that paymentStatus reports is a change.
payment_status-ne :
    (current event_type provider_status : String)
    → (payment_status current event_type provider_status).1 ≡ true
    → (payment_status current event_type provider_status).0 ≡ "paid"
    → (current == "paid") ≡ false
unfolding payment_status guard_transition
payment_status-ne c e p changed paid =
    ground (arith, eq_iff c "paid", eq_iff c (desired_status e p))

has_payment-insert_payment_old :
    (id : String) (p : PaymentRow) (payments : List PaymentRow)
    → has_payment id payments ≡ true
    → has_payment id (insert_payment p payments) ≡ true
has_payment-insert_payment_old id p payments h =
    ground (arith, exists_where-insert_old (λ (q : PaymentRow). q.invoice_id == id) p payments h)

has_payment-insert_payment :
    (p : PaymentRow) (payments : List PaymentRow)
    → has_payment p.invoice_id (insert_payment p payments) ≡ true
has_payment-insert_payment p payments = ground (
  arith,
  exists_where-insert_new (λ (q : PaymentRow). q.invoice_id == p.invoice_id) p payments
      (eq_refl p.invoice_id),
  exists_where_mono
      (λ (q : PaymentRow).
        q.invoice_id == p.invoice_id && q.provider_reference == p.provider_reference)
      (λ q. q.invoice_id == p.invoice_id) payments (λ q h. same_invoice q h),
)
  where
    same_invoice :
        (q : PaymentRow)
        → (q.invoice_id == p.invoice_id && q.provider_reference == p.provider_reference) ≡ true
        → (q.invoice_id == p.invoice_id) ≡ true
    same_invoice q h = ground arith

-- The writes of a change keep the invariant, where the status that they replace is not yet paid.
module _ (now : Time) (invoice_id provider_reference next : String) (amount : ℤ) (db : Db) where
  abbrev updated : List InvoiceRow
  updated = update_where (λ i. i.id == invoice_id) (set_status now next) db.invoices

  abbrev payment : PaymentRow
  payment = record {
    invoice_id = invoice_id;
    amount_cents = amount;
    provider_reference = provider_reference;
    paid_at = now;
  }

  paid-IsConsistent : IsConsistent db → All (IsCovered (insert_payment payment db.payments)) updated
  paid-IsConsistent h =
      All-update (IsCovered db.payments) (IsCovered (insert_payment payment db.payments))
        (λ i. i.id == invoice_id) (set_status now next) db.invoices h
        (λ i hit old.
          inr
            (rw ((eq_iff i.id invoice_id).0 hit) (has_payment-insert_payment payment db.payments)))
        (λ i miss old. ground (arith, has_payment-insert_payment_old i.id payment db.payments))

  unpaid-IsConsistent :
      (next == "paid") ≡ false → IsConsistent db → All (IsCovered db.payments) updated
  unpaid-IsConsistent unpaid h =
      All-update (IsCovered db.payments) (IsCovered db.payments) (λ i. i.id == invoice_id)
        (set_status now next) db.invoices h (λ i hit old. inl unpaid) (λ i miss old. old)

  apply_invoice_status-IsConsistent :
      (current : String) (a b : Bool)
      → (next ≡ "paid" → (current == "paid") ≡ false)
      → (apply_invoice_status a b now invoice_id provider_reference current next amount db).0
        ≡ ok tt
      → IsConsistent db
      → IsConsistent
          (apply_invoice_status a b now invoice_id provider_reference current next amount db).1
  unfolding apply_invoice_status
  apply_invoice_status-IsConsistent current a b fresh done h = elim (Bool-cases (next == "paid")) [
    | inl paid ↦ ground (arith, paid-IsConsistent h, eq_iff next "paid")
    | inr unpaid ↦ ground (arith, unpaid-IsConsistent unpaid h)
  ]

update_invoice-IsConsistent :
    (faults : Faults) (now : Time) (event : AsaasWebhookEvent) (row : InvoiceRow) (e p : String)
    (db : Db)
    → (update_invoice faults now event row (payment_status row.status e p) db).0 ≡ ok tt
    → IsConsistent db
    → IsConsistent (update_invoice faults now event row (payment_status row.status e p) db).1
update_invoice-IsConsistent faults now event row e p db done h =
    let move = payment_status row.status e p in
    ground (
      arith,
      apply_invoice_status-IsConsistent now row.id event.payment_id move.0 row.amount_cents db
          row.status (faults 3) (faults 4),
      payment_status-ne row.status e p,
    )

process_new-IsConsistent :
    (faults : Faults) (now : Time) (event : AsaasWebhookEvent) (db : Db)
    → (process_new faults now event db).0 ≡ ok tt
    → IsConsistent db
    → IsConsistent (process_new faults now event db).1
unfolding process_new
process_new-IsConsistent faults now event db done h =
    elim (Option-cases (find_invoice event.payment_id db)) [
      | inl missing ↦ ground arith
      | inr (row, found) ↦ ground (
        arith,
        update_invoice-IsConsistent faults now event row event.event event.payment_status db,
      )
    ]

deliver-IsConsistent :
    (faults : Faults) (now : Time) (event : AsaasWebhookEvent) (db : Db)
    → (deliver faults now event db).0 ≡ ok tt
    → IsConsistent db
    → IsConsistent (deliver faults now event db).1
unfolding deliver
deliver-IsConsistent faults now event db done h =
    ground (arith, process_new-IsConsistent faults now event (add_event event db))

-- If every paid invoice has a payment, then so it is after a delivery of any event, whichever of its
-- calls fail.
pub process_asaas_webhook-IsConsistent :
    (provider : BillingProvider) (faults : Faults) (now : Time) (event : AsaasWebhookEvent)
    (db : Db)
    → IsConsistent db
    → IsConsistent (process_asaas_webhook provider faults now event db).1
process_asaas_webhook-IsConsistent provider faults now event db h =
    process_keeps IsConsistent provider faults now event db h
      (λ a done. deliver-IsConsistent faults now event db (ok_unit a done) h)
